-- ===== src/TtHeader/Layout/Writer.antt =====
-- volo-thrift/src/codec/default/ttheader.rs: the writing steps of `encode`, and the pairs they count.
use volo.Base.{
  ℕ, ◌+◌, ◌%◌, ◌^◌, ◌≡◌, refl, sym, ap, ◌∙◌, Bool, true, false, List, [], ◌∷◌, ◌++◌, append_assoc,
  append-nil, Option, none, some, arith, if◌then◌else◌, length, length-append,
}
use volo.Base.Bytes.{Bytes, codes}
use volo.TtHeader.{Role, client, server, IntMetaKey, Cx, Externals, BizError}
use volo.TtHeader.Encode.{
  Writer, put_prefixed, put_kv, put_int_kv, put_all, put_metainfo, put_idl_service_name,
  put_conn_reset, put_int_option, put_biz_extra, put_biz_error, put_string_kvs, put_int_kvs,
}
use volo.TtHeader.Layout.{
  kv_bytes, int_kv_bytes, entries, int_entries, prefixed, optional, biz_kvs, string_kvs, int_kvs,
}

pub entries-append : (xs ys : List (Bytes × Bytes)) → entries (xs ++ ys) ≡ entries xs ++ entries ys
unfolding entries
entries-append [] ys = refl
entries-append ((k, v) ∷ xs) ys = simp (entries-append xs ys, append_assoc)

pub int_entries-append :
    (xs ys : List (IntMetaKey × Bytes)) → int_entries (xs ++ ys) ≡ int_entries xs ++ int_entries ys
unfolding int_entries
int_entries-append [] ys = refl
int_entries-append ((k, v) ∷ xs) ys = simp (int_entries-append xs ys, append_assoc)

-- A writer after `n` pairs, modulo the wrap-around of its counter.
abbrev pub at : Bytes → ℕ → Writer
at dst n = record { dst = dst; kv_len = n % 2 ^ 16 }

-- `f` appends the bytes `bs` of `n` pairs.
abbrev pub Puts : (Writer → Writer) → Bytes → ℕ → Type 0
Puts f bs n = (dst : Bytes) (c : ℕ) → f (at dst c) ≡ at (dst ++ bs) (c + n)

pub Writer_eq :
    {d e : Bytes} {c k : ℕ}
    → d ≡ e
    → c ≡ k
    → ◌≡◌ {A = Writer} (record { dst = d; kv_len = c }) (record { dst = e; kv_len = k })
Writer_eq p q = λ i. record { dst = p i; kv_len = q i }

Puts-nil : Puts (λ w. w) [] 0
Puts-nil dst c = Writer_eq (sym (append-nil dst)) (omega arith)

Puts-seq :
    (f g : Writer → Writer) (a b : Bytes) (n k : ℕ)
    → Puts f a n
    → Puts g b k
    → Puts (λ w. g (f w)) (a ++ b) (n + k)
Puts-seq f g a b n k p q dst c =
    ap g (p dst c) ∙ q (dst ++ a) (c + n) ∙ Writer_eq (append_assoc dst a b) (omega arith)

put_kv-Puts : (k v : Bytes) → Puts (put_kv k v) (kv_bytes k v) 1
unfolding put_kv kv_bytes
put_kv-Puts k v dst c = Writer_eq (simp append_assoc) (omega arith)

put_prefixed-Puts : (p k v : Bytes) → Puts (put_prefixed p k v) (kv_bytes (p ++ k) v) 1
unfolding put_prefixed kv_bytes
put_prefixed-Puts p k v dst c = Writer_eq (simp (append_assoc, length-append)) (omega arith)

put_int_kv-Puts : (k : IntMetaKey) (v : Bytes) → Puts (put_int_kv k v) (int_kv_bytes k v) 1
unfolding put_int_kv int_kv_bytes
put_int_kv-Puts k v dst c = Writer_eq (simp append_assoc) (omega arith)

-- The same for whole lists of pairs.
pub record PutsKvs (f : Writer → Writer) (kvs : List (Bytes × Bytes)) : Type 0 where
  pub puts : Puts f (entries kvs) (length kvs)

pub record PutsInts (f : Writer → Writer) (kvs : List (IntMetaKey × Bytes)) : Type 0 where
  pub puts : Puts f (int_entries kvs) (length kvs)

PutsKvs-seq :
    (f g : Writer → Writer) (xs ys : List (Bytes × Bytes))
    → PutsKvs f xs
    → PutsKvs g ys
    → PutsKvs (λ w. g (f w)) (xs ++ ys)
PutsKvs-seq f g xs ys p q = record {
  puts = rw (entries-append, length-append) (Puts-seq f g _ _ _ _ p.puts q.puts);
}

PutsInts-seq :
    (f g : Writer → Writer) (xs ys : List (IntMetaKey × Bytes))
    → PutsInts f xs
    → PutsInts g ys
    → PutsInts (λ w. g (f w)) (xs ++ ys)
PutsInts-seq f g xs ys p q = record {
  puts = rw (int_entries-append, length-append) (Puts-seq f g _ _ _ _ p.puts q.puts);
}

put_kv-PutsKvs : (k v : Bytes) → PutsKvs (put_kv k v) ((k, v) ∷ [])
unfolding entries
put_kv-PutsKvs k v = record { puts = rw append-nil (put_kv-Puts k v) }

put_prefixed-PutsKvs : (p k v : Bytes) → PutsKvs (put_prefixed p k v) ((p ++ k, v) ∷ [])
unfolding entries
put_prefixed-PutsKvs p k v = record { puts = rw append-nil (put_prefixed-Puts p k v) }

PutsKvs-nil : PutsKvs (λ w. w) []
unfolding entries
PutsKvs-nil = record { puts = Puts-nil }

PutsInts-nil : PutsInts (λ w. w) []
unfolding int_entries
PutsInts-nil = record { puts = Puts-nil }

put_int_kv-PutsInts : (k : IntMetaKey) (v : Bytes) → PutsInts (put_int_kv k v) ((k, v) ∷ [])
unfolding int_entries
put_int_kv-PutsInts k v = record { puts = rw append-nil (put_int_kv-Puts k v) }

put_all-PutsKvs :
    (p : Bytes) (kvs : List (Bytes × Bytes)) → PutsKvs (put_all p kvs) (prefixed p kvs)
unfolding put_all prefixed
put_all-PutsKvs p [] = PutsKvs-nil
put_all-PutsKvs p ((k, v) ∷ kvs) =
    PutsKvs-seq (put_prefixed p k v) (put_all p kvs) (_ ∷ []) (prefixed p kvs)
      (put_prefixed-PutsKvs p k v) (put_all-PutsKvs p kvs)

put_metainfo-PutsKvs :
    (p : Bytes) (o : Option (List (Bytes × Bytes)))
    → PutsKvs (put_metainfo p o) (optional (prefixed p) o)
unfolding put_metainfo optional
put_metainfo-PutsKvs p none = PutsKvs-nil
put_metainfo-PutsKvs p (some kvs) = put_all-PutsKvs p kvs

put_idl_service_name-PutsKvs :
    (o : Option Bytes)
    → PutsKvs (put_idl_service_name o) (optional (λ isn. (codes "isn", isn) ∷ []) o)
unfolding put_idl_service_name optional
put_idl_service_name-PutsKvs none = PutsKvs-nil
put_idl_service_name-PutsKvs (some isn) = put_kv-PutsKvs (codes "isn") isn

put_conn_reset-PutsKvs :
    (b : Bool) → PutsKvs (put_conn_reset b) (if b then (codes "crrst", codes "1") ∷ [] else [])
unfolding put_conn_reset
put_conn_reset-PutsKvs true = put_kv-PutsKvs (codes "crrst") (codes "1")
put_conn_reset-PutsKvs false = PutsKvs-nil

put_biz_extra-PutsKvs :
    (o : Option Bytes)
    → PutsKvs (put_biz_extra o) (optional (λ text. (codes "biz-extra", text) ∷ []) o)
unfolding put_biz_extra optional
put_biz_extra-PutsKvs none = PutsKvs-nil
put_biz_extra-PutsKvs (some text) = put_kv-PutsKvs (codes "biz-extra") text

put_int_option-PutsInts :
    (k : IntMetaKey) (o : Option Bytes)
    → PutsInts (put_int_option k o) (optional (λ v. (k, v) ∷ []) o)
unfolding put_int_option optional
put_int_option-PutsInts k none = PutsInts-nil
put_int_option-PutsInts k (some v) = put_int_kv-PutsInts k v

module _ {A M : Type 0} (ext : Externals A M) where
  put_biz_error-PutsKvs :
      (cached : Option Bytes) (o : Option BizError)
      → PutsKvs (put_biz_error ext cached o) (optional (biz_kvs ext cached) o)
  unfolding put_biz_error optional biz_kvs
  put_biz_error-PutsKvs cached none = PutsKvs-nil
  put_biz_error-PutsKvs cached (some e) =
      PutsKvs-seq _ _ (_ ∷ []) _ (put_kv-PutsKvs _ _)
        (PutsKvs-seq _ _ (_ ∷ []) _ (put_kv-PutsKvs _ _) (put_biz_extra-PutsKvs _))

  -- The string section holds the pairs of `string_kvs`, in that order.
  pub put_string_kvs-PutsKvs :
      (r : Role) (cx : Cx A) (m : M) → PutsKvs (put_string_kvs ext r cx m) (string_kvs ext r cx m)
  unfolding put_string_kvs string_kvs
  put_string_kvs-PutsKvs client cx m =
      PutsKvs-seq _ _ _ _ (put_metainfo-PutsKvs _ _)
        (PutsKvs-seq _ _ _ _ (put_metainfo-PutsKvs _ _) (put_idl_service_name-PutsKvs _))
  put_string_kvs-PutsKvs server cx m =
      PutsKvs-seq _ _ _ _ (put_metainfo-PutsKvs _ _)
        (PutsKvs-seq _ _ _ _ (put_conn_reset-PutsKvs _) (put_biz_error-PutsKvs _ _))

  pub put_int_kvs-PutsInts :
      (r : Role) (cx : Cx A) → PutsInts (put_int_kvs ext r cx) (int_kvs ext r cx)
  unfolding put_int_kvs int_kvs
  put_int_kvs-PutsInts server cx = put_int_kv-PutsInts _ _
  put_int_kvs-PutsInts client cx = PutsInts-seq _ _ (_ ∷ []) _ (put_int_kv-PutsInts _ _) (
      PutsInts-seq _ _ _ _ (put_int_option-PutsInts _ _) (
        PutsInts-seq _ _ _ _ (put_int_option-PutsInts _ _) (
          PutsInts-seq _ _ (_ ∷ []) _ (put_int_kv-PutsInts _ _) (
            PutsInts-seq _ _ (_ ∷ []) _ (put_int_kv-PutsInts _ _) (
              PutsInts-seq _ _ (_ ∷ []) _ (put_int_kv-PutsInts _ _)
                (put_int_option-PutsInts _ _))))))
