-- ===== src/Grpc/Trailers/Escapes.antt =====
-- volo-grpc/src/status.rs: `ENCODING_SET`, and what the percent coding of a message promises.
use volo.Base.{
  ℕ, ◌≡◌, Bool, true, false, not, ◌&&◌, ◌||◌, ◌==◌, ltb, ◌⊎◌, [], ◌∷◌, ◌++◌, Option, some, arith,
}
use volo.Base.Bytes.{Bytes}

-- A set of the bytes that are written with a percent sign.
abbrev pub AsciiSet : Type 0
AsciiSet = ℕ → Bool

-- `ENCODING_SET`, the controls of the crate with nine more bytes; the percent sign is not in it.
unfoldable pub encoding_set : AsciiSet → AsciiSet
encoding_set controls b =
    controls b
    || b == 32
    || b == 34
    || b == 35
    || b == 60
    || b == 62
    || b == 96
    || b == 63
    || b == 123
    || b == 125

unfoldable pub has_percent : Bytes → Bool
has_percent [] = false
has_percent (b ∷ bytes) = b == 37 || has_percent bytes

-- Bytes that are written as they are.
unfoldable pub is_raw : AsciiSet → Bytes → Bool
is_raw set [] = true
is_raw set (b ∷ bytes) = not (set b) && ltb b 128 && is_raw set bytes

-- What the crate percent_encoding documents, for texts in UTF-8: its decoding undoes its encoding
-- if the percent sign itself is encoded, or does not occur; ASCII bytes that are not in the set are
-- written as they are; and the decoding reads %20 as a space.
pub record IsPercent (percent_encode : AsciiSet → Bytes → Bytes)
    (percent_decode : Bytes → Option Bytes) (is_text : Bytes → Bool) : Type 0 where
  pub decodes :
      (set : AsciiSet) (m : Bytes)
      → is_text m ≡ true
      → (set 37 ≡ true) ⊎ (has_percent m ≡ false)
      → percent_decode (percent_encode set m) ≡ some m
  pub keeps_raw : (set : AsciiSet) (m : Bytes) → is_raw set m ≡ true → percent_encode set m ≡ m
  pub reads_space :
      (a b c : Bytes)
      → is_text a ≡ true
      → has_percent a ≡ false
      → percent_decode b ≡ some c
      → percent_decode (a ++ (37 ∷ 50 ∷ 48 ∷ b)) ≡ some (a ++ (32 ∷ c))

pub is_raw-append :
    (set : AsciiSet) (a b : Bytes)
    → is_raw set a ≡ true
    → is_raw set b ≡ true
    → is_raw set (a ++ b) ≡ true
unfolding is_raw
is_raw-append set [] b h k = k
is_raw-append set (x ∷ a) b h k =
    let rest = is_raw-append set a b (ground (arith, h)) k in ground (arith, h, rest)

pub is_raw-encoding_set :
    (controls : AsciiSet) (b : Bytes)
    → is_raw controls (37 ∷ 50 ∷ 48 ∷ []) ≡ true
    → is_raw (encoding_set controls) b ≡ true
    → is_raw (encoding_set controls) (37 ∷ 50 ∷ 48 ∷ b) ≡ true
unfolding is_raw encoding_set
is_raw-encoding_set controls b h k = ground (arith, h, k)

pub not_empty : {P : Type 0} (a b : Bytes) (x : ℕ) → a ++ (x ∷ b) ≡ [] → P
not_empty [] b x h = absurd cc
not_empty (y ∷ a) b x h = absurd cc
