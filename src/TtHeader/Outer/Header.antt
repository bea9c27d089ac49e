-- ===== src/TtHeader/Outer/Header.antt =====
-- volo-thrift/src/codec/default/ttheader.rs: what the outer codec sees of a header that was written.
use volo.Base.{
  ℕ, ◌^◌, ◌<◌, ◌≡◌, refl, ap, true, [], ◌++◌, arith, length, drop, length-append, Bool-cases, inl,
  inr,
}
use volo.Base.Bytes.{Bytes}
use volo.TtHeader.{Role, client, server, Cx, Externals}
use volo.TtHeader.Encode.{EncodeResult, encode as encode_header, has_string_kv}
use volo.TtHeader.Size.{encode_size, cache_extra, counts_string_kv}
use volo.TtHeader.Layout.{header, total}
use volo.TtHeader.Layout.Refines.{encode-header}
use volo.TtHeader.Outer.{is_ttheader, size}

module _ {A M : Type 0} (ext : Externals A M) (cx : Cx A) (m : M) where
  pub encoded_header :
      (size : ℕ) (out : Bytes)
      → encode_header ext cx m [] size ≡ EncodeResult.ok out
      → (out ≡ header ext cx m size) × (total ext cx m size < 2 ^ 32)
  encoded_header size out e = (
    ground (arith, encode-header ext cx m [] size),
    ground (arith, encode-header ext cx m [] size),
  )

  -- The length field says how much is behind it.
  pub header-total :
      (payload : Bytes)
      → length (drop 4 (header ext cx m (length payload)) ++ payload)
        ≡ total ext cx m (length payload)
  unfolding header total
  header-total payload =
      omega (arith, length-append (drop 4 (header ext cx m (length payload))) payload)

  pub is_ttheader-header : (n : ℕ) (rest : Bytes) → is_ttheader (header ext cx m n ++ rest) ≡ true
  unfolding is_ttheader header
  is_ttheader-header n rest = refl

  pub encode_size-client : cx.role ≡ client → (encode_size ext cx m).1 ≡ cx
  unfolding encode_size cache_extra
  encode_size-client h = elim (Bool-cases (counts_string_kv ext cx.role cx m)) [
    | inl e ↦
        rw (e) (ap (λ x. record cx { biz_error_extra = x }) (ap (λ r. cache_extra ext r cx) h))
    | inr e ↦ rw (e) refl
  ]

  pub counts-client :
      (r : Role) → r ≡ client → counts_string_kv ext r cx m ≡ has_string_kv ext r cx m
  unfolding counts_string_kv has_string_kv
  counts-client client h = refl
  counts-client server h = cc
