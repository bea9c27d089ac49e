-- ===== src/TtHeader/Decode.antt =====
-- `decode` of ttheader.rs. Arithmetic on `usize` wraps, as in a release build; reading past the end
-- of the buffer panics.
use volo.Base.{
  ℕ, zero, suc, ◌+◌, ◌-◌, ◌*◌, ◌%◌, ◌^◌, [], ◌∷◌, none, some, ◌==◌, if◌then◌else◌, length,
}
use volo.Base.Bytes.{Bytes, of_be16, of_be32, split_at?}
use volo.Base.Maps.{Map, nat_eq, bytes_eq, insert}
use volo.TtHeader.{
  int_key, try_int_key, info_padding, info_key_value, info_int_key_value, acl_token_key_value,
}

-- The protocol errors of `decode`: an unknown protocol id, and an unexpected info id.
pub data Error : Type 0 where
  bad_version invalid_data : Error

-- `stuck` is no outcome of the code: the loop over the sections ran out of fuel.
pub data Result {ℓ} (A : Type ℓ) : Type ℓ where
  ok : A → Result A
  err : Error → Result A
  panicked : Result A
  stuck : Result A

infixl 5 ◌>>=◌
abbrev pub ◌>>=◌ {ℓ κ} : {A : Type ℓ} {B : Type κ} → Result A → (A → Result B) → Result B
ok a >>= f = f a
err e >>= f = err e
panicked >>= f = panicked
stuck >>= f = stuck

-- `Buf::get_u8` and so on.
unfoldable pub get_u8 : Bytes → Result (ℕ × Bytes)
get_u8 [] = panicked
get_u8 (a ∷ src) = ok (a, src)

unfoldable pub get_u16 : Bytes → Result (ℕ × Bytes)
get_u16 [] = panicked
get_u16 (a ∷ []) = panicked
get_u16 (a ∷ (b ∷ src)) = ok (of_be16 a b, src)

unfoldable pub get_u32 : Bytes → Result (ℕ × Bytes)
get_u32 (a ∷ (b ∷ (c ∷ (d ∷ src)))) = ok (of_be32 a b c d, src)
get_u32 _ = panicked

unfoldable pub split_to : ℕ → Bytes → Result (Bytes × Bytes)
split_to n src = elim (split_at? n src) [ none ↦ panicked | some p ↦ ok p ]

unfoldable pub sub_usize : ℕ → ℕ → ℕ
sub_usize a b = (a + 2 ^ 64 - b) % 2 ^ 64

-- Where the loop over the sections stands.
pub record Reading : Type 0 where
  pub remaining : ℕ
  pub src : Bytes
  pub headers : Map Bytes Bytes
  pub int_headers : Map ℕ Bytes

-- One pair of strings: both lengths and both strings count against the header.
unfoldable pub read_kv : Reading → Result Reading
read_kv s = do
  (key_len, src) ← get_u16 s.src
  (key, src) ← split_to key_len src
  (value_len, src) ← get_u16 src
  (value, src) ← split_to value_len src
  ok (record {
    remaining = sub_usize (sub_usize (sub_usize (sub_usize s.remaining 2) key_len) 2) value_len;
    src = src;
    headers = insert key value s.headers;
    int_headers = s.int_headers;
  })

-- An unknown key is skipped, with its value.
unfoldable pub insert_int : ℕ → Bytes → Map ℕ Bytes → Map ℕ Bytes
insert_int key value m = elim (try_int_key key) [ none ↦ m | some k ↦ insert (int_key k) value m ]

unfoldable pub read_int_kv : Reading → Result Reading
read_int_kv s = do
  (key, src) ← get_u16 s.src
  (value_len, src) ← get_u16 src
  (value, src) ← split_to value_len src
  ok (record {
    remaining = sub_usize (sub_usize s.remaining 4) value_len;
    src = src;
    headers = s.headers;
    int_headers = insert_int key value s.int_headers;
  })

-- `for _ in 0..kv_size`
unfoldable pub repeat : ℕ → (Reading → Result Reading) → Reading → Result Reading
repeat zero step s = ok s
repeat (suc n) step s = step s >>= λ t. repeat n step t

-- `remaining_header_size -= 2; let kv_size = src.get_u16();` and then the pairs.
unfoldable pub read_pairs : (Reading → Result Reading) → Reading → Result Reading
read_pairs step s = do
  (kv_size, src) ← get_u16 s.src
  repeat kv_size step (record s { remaining = sub_usize s.remaining 2; src = src })

unfoldable pub skip_token : Reading → Result Reading
skip_token s = do
  (token_len, src) ← get_u16 s.src
  (_token, src) ← split_to token_len src
  ok (record s { remaining = sub_usize (sub_usize s.remaining 2) token_len; src = src })

-- The section that `info_id` announces.
unfoldable pub read_info : ℕ → Reading → Result Reading
read_info info_id s =
    if info_id == info_padding
    then ok s
    else if info_id == info_key_value
    then read_pairs read_kv s
    else if info_id == info_int_key_value
    then read_pairs read_int_kv s
    else if info_id == acl_token_key_value
    then skip_token s
    else err invalid_data

unfoldable pub read_section : Reading → Result Reading
read_section s = do
  (info_id, src) ← get_u8 s.src
  read_info info_id (record s { remaining = sub_usize s.remaining 1; src = src })

-- `while remaining_header_size > 0`
unfoldable pub read_sections : ℕ → Reading → Result Reading
read_sections zero s = if s.remaining == 0 then ok s else stuck
read_sections (suc fuel) s =
    let rest = read_section s >>= λ t. read_sections fuel t in
    if s.remaining == 0 then ok s else rest

-- Up to the protocol id: the header size, and the id's byte.
unfoldable pub read_start : Bytes → Result (ℕ × ℕ × Bytes)
read_start src = do
  (_magic, src) ← get_u16 src
  (_flags, src) ← get_u16 src
  (_sequence_id, src) ← get_u32 src
  (header_size, src) ← get_u16 src
  (protocol_id, src) ← get_u8 src
  ok (header_size, protocol_id, src)

-- From the number of transforms to the end of the header. Each round of the loop takes a byte, so
-- one round more than there are bytes is enough.
unfoldable pub read_rest : ℕ → Bytes → Result Reading
read_rest header_size src = do
  (transform_ids_num, src) ← get_u8 src
  (_transform_ids, src) ← split_to transform_ids_num src
  read_sections (length src + 1) (record {
    remaining = sub_usize (sub_usize (header_size * 4) 2) transform_ids_num;
    src = src;
    headers = [];
    int_headers = [];
  })
