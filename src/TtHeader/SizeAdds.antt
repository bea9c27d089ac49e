-- ===== src/TtHeader/SizeAdds.antt =====
-- volo-thrift/src/codec/default/ttheader.rs: the counting steps of `encode_size` and the pairs of
-- the described header.
use volo.Base.{
  ℕ, ◌+◌, ◌≡◌, refl, ap, Bool, true, false, List, [], ◌∷◌, ◌++◌, Option, none, some, arith,
  if◌then◌else◌, length, length-append,
}
use volo.Base.Bytes.{Bytes, codes}
use volo.TtHeader.{Role, client, server, IntMetaKey, BizError, Cx, Externals}
use volo.TtHeader.Encode.{biz_extra_text}
use volo.TtHeader.Layout.{
  kv_bytes, int_kv_bytes, entries, int_entries, prefixed, optional, biz_kvs, string_kvs, int_kvs,
}
use volo.TtHeader.Layout.Writer.{entries-append, int_entries-append}
use volo.TtHeader.Size.{
  add_kv, add_all, add_metainfo, add_idl_service_name, add_conn_reset, add_int_option, fresh_extra,
  add_biz_extra, add_biz_error, add_string_kvs, add_int_kvs, cache_extra,
}

-- `f` adds the length of the pairs.
pub record Adds (f : ℕ → ℕ) (kvs : List (Bytes × Bytes)) : Type 0 where
  pub adds : (len : ℕ) → f len ≡ len + length (entries kvs)

pub record AddsInts (f : ℕ → ℕ) (kvs : List (IntMetaKey × Bytes)) : Type 0 where
  pub adds : (len : ℕ) → f len ≡ len + length (int_entries kvs)

Adds-nil : Adds (λ n. n) []
unfolding entries
Adds-nil = record { adds = λ len. omega arith }

AddsInts-nil : AddsInts (λ n. n) []
unfolding int_entries
AddsInts-nil = record { adds = λ len. omega arith }

Adds-seq :
    (f g : ℕ → ℕ) (xs ys : List (Bytes × Bytes))
    → Adds f xs
    → Adds g ys
    → Adds (λ n. g (f n)) (xs ++ ys)
Adds-seq f g xs ys p q = record {
  adds = λ len. omega (
    arith,
    p.adds len,
    q.adds (f len),
    ap length (entries-append xs ys),
    length-append (entries xs) (entries ys),
  );
}

AddsInts-seq :
    (f g : ℕ → ℕ) (xs ys : List (IntMetaKey × Bytes))
    → AddsInts f xs
    → AddsInts g ys
    → AddsInts (λ n. g (f n)) (xs ++ ys)
AddsInts-seq f g xs ys p q = record {
  adds = λ len. omega (
    arith,
    p.adds len,
    q.adds (f len),
    ap length (int_entries-append xs ys),
    length-append (int_entries xs) (int_entries ys),
  );
}

add_kv-Adds : (k v : Bytes) → Adds (add_kv (length k) (length v)) ((k, v) ∷ [])
unfolding add_kv entries kv_bytes
add_kv-Adds k v = record { adds = λ len. simp length-append (omega arith) }

add_prefixed-Adds :
    (p k v : Bytes) → Adds (add_kv (length p + length k) (length v)) ((p ++ k, v) ∷ [])
add_prefixed-Adds p k v = rw (← length-append p k) (add_kv-Adds (p ++ k) v)

add_all-Adds : (p : Bytes) (kvs : List (Bytes × Bytes)) → Adds (add_all p kvs) (prefixed p kvs)
unfolding add_all prefixed
add_all-Adds p [] = Adds-nil
add_all-Adds p ((k, v) ∷ kvs) =
    Adds-seq (add_kv (length p + length k) (length v)) (add_all p kvs) (_ ∷ []) (prefixed p kvs)
      (add_prefixed-Adds p k v) (add_all-Adds p kvs)

add_metainfo-Adds :
    (p : Bytes) (o : Option (List (Bytes × Bytes)))
    → Adds (add_metainfo p o) (optional (prefixed p) o)
unfolding add_metainfo optional
add_metainfo-Adds p none = Adds-nil
add_metainfo-Adds p (some kvs) = add_all-Adds p kvs

add_idl_service_name-Adds :
    (o : Option Bytes) → Adds (add_idl_service_name o) (optional (λ isn. (codes "isn", isn) ∷ []) o)
unfolding add_idl_service_name optional
add_idl_service_name-Adds none = Adds-nil
add_idl_service_name-Adds (some isn) = add_kv-Adds (codes "isn") isn

add_conn_reset-Adds :
    (b : Bool) → Adds (add_conn_reset b) (if b then (codes "crrst", codes "1") ∷ [] else [])
unfolding add_conn_reset
add_conn_reset-Adds true = add_kv-Adds (codes "crrst") (codes "1")
add_conn_reset-Adds false = Adds-nil

add_int_option-AddsInts :
    (k : IntMetaKey) (o : Option Bytes)
    → AddsInts (add_int_option o) (optional (λ v. (k, v) ∷ []) o)
unfolding add_int_option optional
add_int_option-AddsInts k none = AddsInts-nil
add_int_option-AddsInts k (some v) =
    unfold int_entries int_kv_bytes in record { adds = λ len. simp length-append (omega arith) }

module _ {A M : Type 0} (ext : Externals A M) where
  add_biz_extra-Adds :
      (o : Option Bytes)
      → Adds (add_biz_extra ext o) (optional (λ t. (codes "biz-extra", t) ∷ []) o)
  unfolding add_biz_extra optional
  add_biz_extra-Adds none = Adds-nil
  add_biz_extra-Adds (some t) = add_kv-Adds (codes "biz-extra") t

  -- What `encode` finds in the extensions is what `encode_size` counted.
  cached_text :
      (cx : Cx A) (e : BizError)
      → cx.biz_error ≡ some e
      → biz_extra_text ext (cache_extra ext server cx) e ≡ fresh_extra ext e
  unfolding biz_extra_text cache_extra fresh_extra
  cached_text cx e h = ground arith

  add_biz_error-Adds :
      (cx : Cx A) (o : Option BizError)
      → cx.biz_error ≡ o
      → Adds (add_biz_error ext o) (optional (biz_kvs ext (cache_extra ext server cx)) o)
  unfolding add_biz_error optional biz_kvs
  add_biz_error-Adds cx none h = Adds-nil
  add_biz_error-Adds cx (some e) h = rw (cached_text cx e h) (
      Adds-seq _ _ (_ ∷ []) _ (add_kv-Adds (codes "biz-status") (ext.format_i32 e.status_code)) (
        Adds-seq _ _ (_ ∷ []) _ (add_kv-Adds (codes "biz-message") e.status_message)
          (add_biz_extra-Adds _)))

  -- The context as `encode_size` leaves it where it counts a string section.
  abbrev pub cached : Role → Cx A → Cx A
  cached r cx = record cx { biz_error_extra = cache_extra ext r cx }

  pub add_string_kvs-Adds :
      (r : Role) (cx : Cx A) (m : M)
      → Adds (add_string_kvs ext r cx m) (string_kvs ext r (cached r cx) m)
  unfolding add_string_kvs string_kvs
  add_string_kvs-Adds client cx m =
      Adds-seq _ _ _ _ (add_metainfo-Adds _ _)
        (Adds-seq _ _ _ _ (add_metainfo-Adds _ _) (add_idl_service_name-Adds _))
  add_string_kvs-Adds server cx m =
      Adds-seq _ _ _ _ (add_metainfo-Adds _ _)
        (Adds-seq _ _ _ _ (add_conn_reset-Adds _) (add_biz_error-Adds cx cx.biz_error refl))

  pub add_int_kvs-AddsInts :
      (r : Role) (cx : Cx A) → AddsInts (add_int_kvs ext r cx) (int_kvs ext r cx)
  unfolding add_int_kvs int_kvs optional
  add_int_kvs-AddsInts server cx =
      unfold int_entries int_kv_bytes in record { adds = λ len. omega arith }
  add_int_kvs-AddsInts client cx =
      AddsInts-seq _ _ (_ ∷ []) _ (add_int_option-AddsInts _ (some _)) (
        AddsInts-seq _ _ _ _ (add_int_option-AddsInts _ _) (
          AddsInts-seq _ _ _ _ (add_int_option-AddsInts _ _) (
            AddsInts-seq _ _ (_ ∷ []) _ (add_int_option-AddsInts _ (some _)) (
              AddsInts-seq _ _ (_ ∷ []) _ (add_int_option-AddsInts _ (some _)) (
                AddsInts-seq _ _ (_ ∷ []) _ (add_int_option-AddsInts _ (some _))
                  (add_int_option-AddsInts _ _))))))
