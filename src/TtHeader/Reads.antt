-- ===== src/TtHeader/Reads.antt =====
-- volo-thrift/src/codec/default/ttheader.rs: the loops of `decode`, on described sections.
use volo.Base.{
  ℕ, zero, suc, ◌+◌, ◌^◌, ◌≤◌, ◌<◌, ◌≡◌, refl, ap, ap₂, ◌∙◌, List, [], ◌∷◌, ◌++◌, append_assoc,
  arith, length, length-append, replicate,
}
use volo.Base.Bytes.{Bytes, IsU16, be16, of_be16-be16, split_at?-append}
use volo.Base.Maps.{Map, nat_eq, bytes_eq, insert}
use volo.TtHeader.{IntMetaKey, int_key, int_key_round}
use volo.TtHeader.Layout.{kv_bytes, int_kv_bytes, entries, int_entries, section_bytes}
use volo.TtHeader.Decode.{
  Result, ok, ◌>>=◌, Reading, get_u8, get_u16, split_to, sub_usize, read_kv, insert_int,
  read_int_kv, repeat, read_pairs, read_info, read_section, read_sections,
}

-- The maps that a list of pairs makes, later pairs replacing earlier ones.
unfoldable pub insert_all : List (Bytes × Bytes) → Map Bytes Bytes → Map Bytes Bytes
insert_all [] h = h
insert_all ((k, v) ∷ kvs) h = insert_all kvs (insert k v h)

unfoldable pub insert_ints : List (IntMetaKey × Bytes) → Map ℕ Bytes → Map ℕ Bytes
insert_ints [] h = h
insert_ints ((k, v) ∷ kvs) h = insert_ints kvs (insert (int_key k) v h)

-- Every length fits its two bytes.
abbrev pub FitsKvs : List (Bytes × Bytes) → Type 0
FitsKvs [] = Unit {0}
FitsKvs ((k, v) ∷ kvs) = IsU16 (length k) × IsU16 (length v) × FitsKvs kvs

abbrev pub FitsInts : List (IntMetaKey × Bytes) → Type 0
FitsInts [] = Unit {0}
FitsInts ((k, v) ∷ kvs) = IsU16 (length v) × FitsInts kvs

pub sub_two : (r a b t : ℕ) → t < 2 ^ 64 → t ≡ r + a + b → sub_usize (sub_usize t a) b ≡ r
unfolding sub_usize
sub_two r a b t h e = omega arith

sub_four :
    (r a b c d t : ℕ)
    → t < 2 ^ 64
    → t ≡ r + a + b + c + d
    → sub_usize (sub_usize (sub_usize (sub_usize t a) b) c) d ≡ r
sub_four r a b c d t h e =
    ap (λ (n : ℕ). sub_usize (sub_usize n c) d) (sub_two (r + c + d) a b t h (omega arith))
    ∙ sub_two r c d (r + c + d) (omega arith) refl

int_key-small : (k : IntMetaKey) → IsU16 (int_key k)
unfolding int_key
int_key-small k = ground arith

insert_int_key :
    (k : IntMetaKey) (v : Bytes) (m : Map ℕ Bytes)
    → insert_int (int_key k) v m ≡ insert (int_key k) v m
unfolding insert_int
insert_int_key k v m = rw (int_key_round k, insert_int) refl

sub_usize_eq : (a b c : ℕ) → b < 2 ^ 64 → b ≡ a + c → sub_usize b c ≡ a
unfolding sub_usize
sub_usize_eq a b c h e = omega arith

pub get_u16-be16 : (n : ℕ) (rest : Bytes) → IsU16 n → get_u16 (be16 n ++ rest) ≡ ok (n, rest)
unfolding get_u16
get_u16-be16 n rest h = ap (λ (k : ℕ). ok (k, rest)) (of_be16-be16 n h)

split_to-append : (xs rest : Bytes) → split_to (length xs) (xs ++ rest) ≡ ok (xs, rest)
unfolding split_to
split_to-append xs rest = rw (split_at?-append xs rest, split_to)

abbrev pub reading : ℕ → Bytes → Map Bytes Bytes → Map ℕ Bytes → Reading
reading n src h i = record { remaining = n; src = src; headers = h; int_headers = i }

read_kv-kv_bytes :
    (k v rest : Bytes) (r : ℕ) (h : Map Bytes Bytes) (i : Map ℕ Bytes)
    → IsU16 (length k)
    → IsU16 (length v)
    → length (kv_bytes k v) + r < 2 ^ 64
    → read_kv (reading (length (kv_bytes k v) + r) (kv_bytes k v ++ rest) h i)
      ≡ ok (reading r rest (insert k v h) i)
unfolding read_kv kv_bytes
read_kv-kv_bytes k v rest r h i hk hv fit =
    rw
      (
        append_assoc k (be16 (length v) ++ v) rest,
        get_u16-be16 (length k) (k ++ (be16 (length v) ++ (v ++ rest))) hk,
        split_to-append k (be16 (length v) ++ (v ++ rest)),
        get_u16-be16 (length v) (v ++ rest) hv,
        split_to-append v rest,
      )
      (ap (λ (n : ℕ). ok (reading n rest (insert k v h) i))
        (sub_four r 2 (length k) 2 (length v) _ fit
          (omega (arith, length-append k (be16 (length v) ++ v)))))

read_int_kv-int_kv_bytes :
    (k : IntMetaKey) (v rest : Bytes) (r : ℕ) (h : Map Bytes Bytes) (i : Map ℕ Bytes)
    → IsU16 (length v)
    → length (int_kv_bytes k v) + r < 2 ^ 64
    → read_int_kv (reading (length (int_kv_bytes k v) + r) (int_kv_bytes k v ++ rest) h i)
      ≡ ok (reading r rest h (insert (int_key k) v i))
unfolding read_int_kv int_kv_bytes
read_int_kv-int_kv_bytes k v rest r h i hv fit =
    rw
      (
        get_u16-be16 (int_key k) (be16 (length v) ++ (v ++ rest)) (int_key-small k),
        get_u16-be16 (length v) (v ++ rest) hv,
        split_to-append v rest,
      )
      (ap₂ (λ (n : ℕ) (m : Map ℕ Bytes). ok (reading n rest h m))
        (sub_two r 4 (length v) _ fit (omega arith)) (insert_int_key k v i))

repeat-entries :
    (kvs : List (Bytes × Bytes)) (rest : Bytes) (r : ℕ) (h : Map Bytes Bytes) (i : Map ℕ Bytes)
    → FitsKvs kvs
    → length (entries kvs) + r < 2 ^ 64
    → repeat (length kvs) read_kv (reading (length (entries kvs) + r) (entries kvs ++ rest) h i)
      ≡ ok (reading r rest (insert_all kvs h) i)
unfolding repeat entries insert_all
repeat-entries [] rest r h i f fit = ap (λ (n : ℕ). ok (reading n rest h i)) (omega arith)
repeat-entries ((k, v) ∷ kvs) rest r h i (fk, fv, f) fit =
    let kv : Bytes = kv_bytes k v in
    let total : length (kv ++ entries kvs) ≡ length kv + length (entries kvs) =
      length-append kv (entries kvs) in
    ap (λ (s : Reading). read_kv s >>= λ t. repeat (length kvs) read_kv t)
      (ap₂ (λ (n : ℕ) (b : Bytes). reading n b h i) (omega (arith, total))
        (append_assoc kv (entries kvs) rest))
    ∙ ap (λ (x : Result Reading). x >>= λ t. repeat (length kvs) read_kv t)
        (read_kv-kv_bytes k v (entries kvs ++ rest) (length (entries kvs) + r) h i fk fv
          (omega (arith, total)))
    ∙ repeat-entries kvs rest r (insert k v h) i f (omega (arith, total))

repeat-int_entries :
    (kvs : List (IntMetaKey × Bytes)) (rest : Bytes) (r : ℕ) (h : Map Bytes Bytes) (i : Map ℕ Bytes)
    → FitsInts kvs
    → length (int_entries kvs) + r < 2 ^ 64
    → repeat
        (length kvs)
        read_int_kv
        (reading (length (int_entries kvs) + r) (int_entries kvs ++ rest) h i)
      ≡ ok (reading r rest h (insert_ints kvs i))
unfolding repeat int_entries insert_ints
repeat-int_entries [] rest r h i f fit = ap (λ (n : ℕ). ok (reading n rest h i)) (omega arith)
repeat-int_entries ((k, v) ∷ kvs) rest r h i (fv, f) fit =
    let kv : Bytes = int_kv_bytes k v in
    let total : length (kv ++ int_entries kvs) ≡ length kv + length (int_entries kvs) =
      length-append kv (int_entries kvs) in
    ap (λ (s : Reading). read_int_kv s >>= λ t. repeat (length kvs) read_int_kv t)
      (ap₂ (λ (n : ℕ) (b : Bytes). reading n b h i) (omega (arith, total))
        (append_assoc kv (int_entries kvs) rest))
    ∙ ap (λ (x : Result Reading). x >>= λ t. repeat (length kvs) read_int_kv t)
        (read_int_kv-int_kv_bytes k v (int_entries kvs ++ rest) (length (int_entries kvs) + r) h i
          fv (omega (arith, total)))
    ∙ repeat-int_entries kvs rest r h (insert (int_key k) v i) f (omega (arith, total))

-- A whole section: its id, its count and its pairs.
pub read_section-entries :
    (kvs : List (Bytes × Bytes)) (rest : Bytes) (r : ℕ) (h : Map Bytes Bytes) (i : Map ℕ Bytes)
    → FitsKvs kvs
    → IsU16 (length kvs)
    → 3 + length (entries kvs) + r < 2 ^ 64
    → read_section (
        reading
          (3 + length (entries kvs) + r)
          (section_bytes 1 (length kvs) (entries kvs) ++ rest)
          h
          i)
      ≡ ok (reading r rest (insert_all kvs h) i)
unfolding read_section get_u8 read_info read_pairs
read_section-entries kvs rest r h i f count fit =
    rw (get_u16-be16 (length kvs) (entries kvs ++ rest) count) (
      ap (λ (n : ℕ). repeat (length kvs) read_kv (reading n (entries kvs ++ rest) h i))
        (sub_two (length (entries kvs) + r) 1 2 _ fit (omega arith))
      ∙ repeat-entries kvs rest r h i f (omega arith))

pub read_section-int_entries :
    (kvs : List (IntMetaKey × Bytes)) (rest : Bytes) (r : ℕ) (h : Map Bytes Bytes) (i : Map ℕ Bytes)
    → FitsInts kvs
    → IsU16 (length kvs)
    → 3 + length (int_entries kvs) + r < 2 ^ 64
    → read_section (
        reading
          (3 + length (int_entries kvs) + r)
          (section_bytes 16 (length kvs) (int_entries kvs) ++ rest)
          h
          i)
      ≡ ok (reading r rest h (insert_ints kvs i))
unfolding read_section get_u8 read_info read_pairs
read_section-int_entries kvs rest r h i f count fit =
    rw (get_u16-be16 (length kvs) (int_entries kvs ++ rest) count) (
      ap (λ (n : ℕ). repeat (length kvs) read_int_kv (reading n (int_entries kvs ++ rest) h i))
        (sub_two (length (int_entries kvs) + r) 1 2 _ fit (omega arith))
      ∙ repeat-int_entries kvs rest r h i f (omega arith))

-- One round of the loop, and its end.
pub read_sections_step :
    (fuel : ℕ) (s t : Reading)
    → 0 < s.remaining
    → read_section s ≡ ok t
    → read_sections (suc fuel) s ≡ read_sections fuel t
unfolding read_sections
read_sections_step fuel s t h e = rw e (ground arith)

pub read_sections-padding :
    (p fuel : ℕ) (rest : Bytes) (h : Map Bytes Bytes) (i : Map ℕ Bytes)
    → p ≤ fuel
    → p < 2 ^ 64
    → read_sections fuel (reading p (replicate p 0 ++ rest) h i) ≡ ok (reading 0 rest h i)
unfolding read_sections
read_sections-padding zero zero rest h i le fit = refl
read_sections-padding zero (suc fuel) rest h i le fit = refl
read_sections-padding (suc p) zero rest h i le fit = absurd (omega arith)
read_sections-padding (suc p) (suc fuel) rest h i le fit =
    read_sections_step fuel _ _ (omega arith) one
    ∙ read_sections-padding p fuel rest h i (omega arith) (omega arith)
  where
    one :
        read_section (reading (suc p) (0 ∷ (replicate p 0 ++ rest)) h i)
        ≡ ok (reading p (replicate p 0 ++ rest) h i)
    one =
        unfold read_section get_u8 read_info in
        ap (λ (n : ℕ). ok (reading n (replicate p 0 ++ rest) h i))
          (sub_usize_eq p (suc p) 1 fit (omega arith))
