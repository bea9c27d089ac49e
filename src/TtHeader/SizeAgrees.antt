-- ===== src/TtHeader/SizeAgrees.antt =====
-- volo-thrift/src/codec/default/ttheader.rs: `encode_size` and `encode`.
use volo.Base.{
  ℕ, ◌+◌, ◌≤◌, ◌<◌, ◌≡◌, refl, ap, ◌∙◌, true, false, none, some, arith, if◌then◌else◌, length,
  length-append, length-replicate, Bool-cases, inl, inr,
}
use volo.Base.Bytes.{Bytes}
use volo.TtHeader.{Role, client, server, BizError, Cx, Externals}
use volo.TtHeader.Encode.{ok, has_string_kv, encode}
use volo.TtHeader.Layout.{
  entries, int_entries, string_kvs, int_kvs, padding_of, string_section, int_section, unpadded,
  body, header, optional, biz_kvs, kv_bytes,
}
use volo.TtHeader.Layout.Refines.{encode-header}
use volo.TtHeader.Size.{counts_string_kv, add_string_kvs, add_int_kvs, pad_len, encode_size}
use volo.TtHeader.SizeAdds.{cached, add_string_kvs-Adds, add_int_kvs-AddsInts}

module _ {A M : Type 0} (ext : Externals A M) where
  length-int_section :
      (cx : Cx A) → length (int_section ext cx) ≡ 3 + length (int_entries (int_kvs ext cx.role cx))
  unfolding int_section
  length-int_section cx = omega arith

  length-header :
      (cx : Cx A) (m : M) (size : ℕ)
      → length (header ext cx m size)
        ≡ pad_len (16 + length (string_section ext cx m) + length (int_section ext cx))
  unfolding header body unpadded pad_len padding_of
  length-header cx m size = simp (length-append, length-replicate) (omega arith)

  has_cached :
      (r : Role) (cx : Cx A) (m : M)
      → has_string_kv ext r (cached ext r cx) m ≡ has_string_kv ext r cx m
  unfolding has_string_kv
  has_cached client cx m = refl
  has_cached server cx m = refl

  int_kvs-cached : (r : Role) (cx : Cx A) → int_kvs ext r (cached ext r cx) ≡ int_kvs ext r cx
  unfolding int_kvs
  int_kvs-cached client cx = refl
  int_kvs-cached server cx = refl

  length-string_section :
      (cx : Cx A) (m : M)
      → length (string_section ext cx m) ≡ (
          if has_string_kv ext cx.role cx m
          then 3 + length (entries (string_kvs ext cx.role cx m))
          else 0)
  unfolding string_section
  length-string_section cx m = elim (Bool-cases (has_string_kv ext cx.role cx m)) [
    | inl e ↦ rw e (omega arith)
    | inr e ↦ rw e refl
  ]

  size_counted :
      (cx : Cx A) (m : M) (size : ℕ)
      → has_string_kv ext cx.role cx m ≡ true
      → length (header ext (cached ext cx.role cx) m size)
        ≡ pad_len (add_int_kvs ext cx.role cx (add_string_kvs ext cx.role cx m 19 + 1 + 2))
  size_counted cx m size h =
      length-header (cached ext cx.role cx) m size
      ∙ ap pad_len (
          omega (
            arith,
            length-string_section (cached ext cx.role cx) m
                ∙ ap
                    (λ b.
                      if b
                      then 3 + length (entries (string_kvs ext cx.role (cached ext cx.role cx) m))
                      else 0)
                    (has_cached cx.role cx m ∙ h),
            length-int_section (cached ext cx.role cx)
                ∙ ap (λ l. 3 + length (int_entries l)) (int_kvs-cached cx.role cx),
            (add_string_kvs-Adds ext cx.role cx m).adds 19,
            (add_int_kvs-AddsInts ext cx.role cx).adds (add_string_kvs ext cx.role cx m 19 + 1 + 2),
          ))

  size_plain :
      (cx : Cx A) (m : M) (size : ℕ)
      → has_string_kv ext cx.role cx m ≡ false
      → length (header ext cx m size) ≡ pad_len (add_int_kvs ext cx.role cx 19)
  size_plain cx m size h =
      length-header cx m size
      ∙ ap pad_len (
          omega (
            arith,
            length-string_section cx m
                ∙ ap (λ b. if b then 3 + length (entries (string_kvs ext cx.role cx m)) else 0) h,
            length-int_section cx,
            (add_int_kvs-AddsInts ext cx.role cx).adds 19,
          ))

  -- Where `encode_size` counts the string section exactly if `encode` writes it, it returns the
  -- length of the header that `encode` then writes, in the context that `encode_size` left.
  header-encode_size :
      (cx : Cx A) (m : M) (size : ℕ)
      → counts_string_kv ext cx.role cx m ≡ has_string_kv ext cx.role cx m
      → length (header ext (encode_size ext cx m).1 m size) ≡ (encode_size ext cx m).0
  unfolding encode_size
  header-encode_size cx m size h = elim (Bool-cases (has_string_kv ext cx.role cx m)) [
    | inl e ↦ rw (h ∙ e) (size_counted cx m size e)
    | inr e ↦ rw (h ∙ e) (size_plain cx m size e)
  ]

  -- Where `encode_size` counts the string section exactly if `encode` writes it, and `encode`, in the
  -- context that `encode_size` left, returns bytes, it has appended as many as were announced.
  pub encode-encode_size :
      (cx : Cx A) (m : M) (dst out : Bytes) (size : ℕ)
      → counts_string_kv ext cx.role cx m ≡ has_string_kv ext cx.role cx m
      → encode ext (encode_size ext cx m).1 m dst size ≡ ok out
      → length out ≡ length dst + (encode_size ext cx m).0
  encode-encode_size cx m dst out size h e = ground (
    arith,
    encode-header ext (encode_size ext cx m).1 m dst size,
    header-encode_size cx m size h,
    length-append dst (header ext (encode_size ext cx m).1 m size),
  )

  biz_only :
      (r : Role) (cx : Cx A) (m : M) (e : BizError)
      → r ≡ server
      → ext.all_backward_transients m ≡ none
      → cx.conn_reset ≡ false
      → cx.biz_error ≡ some e
      → (counts_string_kv ext r cx m ≡ false) × (has_string_kv ext r cx m ≡ true)
  unfolding counts_string_kv has_string_kv
  biz_only client cx m e hr hb hc he = cc
  biz_only server cx m e hr hb hc he = (rw (hb, hc), rw (hb, hc, he))

  biz_only_entries :
      (r : Role) (cx : Cx A) (m : M) (e : BizError)
      → r ≡ server
      → ext.all_backward_transients m ≡ none
      → cx.conn_reset ≡ false
      → cx.biz_error ≡ some e
      → 1 ≤ length (entries (string_kvs ext r cx m))
  unfolding string_kvs optional biz_kvs entries kv_bytes
  biz_only_entries client cx m e hr hb hc he = cc
  biz_only_entries server cx m e hr hb hc he = rw (hb, hc, he) (omega arith)

  -- A server with a business error, no backward metainfo and no connection reset is told a size
  -- that is too small: `encode` writes the string section, and `encode_size` left it out.
  pub encode_size_short :
      (cx : Cx A) (m : M) (size : ℕ) (e : BizError)
      → cx.role ≡ server
      → ext.all_backward_transients m ≡ none
      → cx.conn_reset ≡ false
      → cx.biz_error ≡ some e
      → (encode_size ext cx m).0 < length (header ext (encode_size ext cx m).1 m size)
  unfolding encode_size pad_len
  encode_size_short cx m size e hr hb hc he =
      let (counts, has) = biz_only cx.role cx m e hr hb hc he in
      rw counts (
        omega (
          arith,
          length-header cx m size,
          length-string_section cx m
              ∙ ap (λ b. if b then 3 + length (entries (string_kvs ext cx.role cx m)) else 0) has,
          length-int_section cx,
          (add_int_kvs-AddsInts ext cx.role cx).adds 19,
          biz_only_entries cx.role cx m e hr hb hc he,
        ))
