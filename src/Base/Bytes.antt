-- ===== src/Base/Bytes.antt =====
-- Byte strings as lists of numbers, and big-endian words.
use Prim.Native.Char.{code}
use Prim.Native.String.{String}
use Prim.Native.Nat.{ℕ, zero, suc, ◌+◌, ◌*◌, ◌/◌, ◌%◌, ◌^◌, ◌<◌}
use mathlib.Core.Path.{◌≡◌, refl, ap}
use mathlib.Core.Logic.{◌↔◌}
use mathlib.Core.Bool.{Bool, true, false, ◌&&◌}
use mathlib.Core.Option.{Option, none, some}
use mathlib.Core.List.{List, [], ◌∷◌, ◌++◌}
use native.Mathlib.Omega.{arith}
use volo.Base.Tests.{◌==◌}
use volo.Base.Lists.{length}

abbrev pub Bytes : Type 0
Bytes = List ℕ

abbrev pub IsU16 : ℕ → Type 0
IsU16 n = n < 2 ^ 16

abbrev pub IsU32 : ℕ → Type 0
IsU32 n = n < 2 ^ 32

-- The bytes of an ASCII literal.
abbrev pub codes : String → Bytes
codes String.[] = []
codes (String.◌∷◌ c s) = code c ∷ codes s

-- Two and four bytes, most significant first; a wider number loses its high bits.
abbrev pub be16 : ℕ → Bytes
be16 n = (n / 2 ^ 8 % 2 ^ 8) ∷ (n % 2 ^ 8) ∷ []

abbrev pub be32 : ℕ → Bytes
be32 n = (n / 2 ^ 24 % 2 ^ 8) ∷ (n / 2 ^ 16 % 2 ^ 8) ∷ (n / 2 ^ 8 % 2 ^ 8) ∷ (n % 2 ^ 8) ∷ []

abbrev pub of_be16 : ℕ → ℕ → ℕ
of_be16 a b = a * 2 ^ 8 + b

abbrev pub of_be32 : ℕ → ℕ → ℕ → ℕ → ℕ
of_be32 a b c d = a * 2 ^ 24 + b * 2 ^ 16 + c * 2 ^ 8 + d

pub of_be16-be16 : (n : ℕ) → n < 2 ^ 16 → of_be16 (n / 2 ^ 8 % 2 ^ 8) (n % 2 ^ 8) ≡ n
of_be16-be16 n h = omega arith

pub of_be32-be32 :
    (n : ℕ)
    → n < 2 ^ 32
    → of_be32 (n / 2 ^ 24 % 2 ^ 8) (n / 2 ^ 16 % 2 ^ 8) (n / 2 ^ 8 % 2 ^ 8) (n % 2 ^ 8) ≡ n
of_be32-be32 n h = omega arith

abbrev pub concat : List Bytes → Bytes
concat [] = []
concat (b ∷ bs) = b ++ concat bs

unfoldable pub eqb : Bytes → Bytes → Bool
eqb [] [] = true
eqb [] (y ∷ ys) = false
eqb (x ∷ xs) [] = false
eqb (x ∷ xs) (y ∷ ys) = x == y && eqb xs ys

pub eqb_iff : (xs ys : Bytes) → (eqb xs ys ≡ true) ↔ (xs ≡ ys)
unfolding eqb
eqb_iff [] [] = (λ _. refl, λ _. refl)
eqb_iff [] (y ∷ ys) = (λ e. cc, λ e. cc)
eqb_iff (x ∷ xs) [] = (λ e. cc, λ e. cc)
eqb_iff (x ∷ xs) (y ∷ ys) = let (f, g) = eqb_iff xs ys in ground (arith, f, g)

-- `split_to(n)`; there is no result where the code panics.
unfoldable pub split_at? : ℕ → Bytes → Option (Bytes × Bytes)
split_at? zero xs = some ([], xs)
split_at? (suc n) [] = none
split_at? (suc n) (x ∷ xs) = elim (split_at? n xs) [ none ↦ none | some (a, b) ↦ some (x ∷ a, b) ]

pub split_at?-append : (xs ys : Bytes) → split_at? (length xs) (xs ++ ys) ≡ some (xs, ys)
unfolding split_at?
split_at?-append [] ys = refl
split_at?-append (x ∷ xs) ys = rw (split_at?-append xs ys)

-- A write of bytes over those at the front, and over those from index `i` on.
unfoldable pub overwrite : Bytes → Bytes → Bytes
overwrite [] new = []
overwrite (d ∷ ds) [] = d ∷ ds
overwrite (d ∷ ds) (v ∷ vs) = v ∷ overwrite ds vs

unfoldable pub patch : Bytes → ℕ → Bytes → Bytes
patch dst zero new = overwrite dst new
patch [] (suc i) new = []
patch (d ∷ ds) (suc i) new = d ∷ patch ds i new

overwrite-append :
    (old new rest : Bytes) → length old ≡ length new → overwrite (old ++ rest) new ≡ new ++ rest
unfolding overwrite
overwrite-append [] [] [] h = refl
overwrite-append [] [] (r ∷ rest) h = refl
overwrite-append [] (v ∷ vs) rest h = absurd (omega arith)
overwrite-append (o ∷ old) [] rest h = absurd (omega arith)
overwrite-append (o ∷ old) (v ∷ vs) rest h = ap (◌∷◌ v) (overwrite-append old vs rest (omega arith))

-- Back-patching a placeholder of the same length.
pub patch-append :
    (pre old new rest : Bytes)
    → length old ≡ length new
    → patch (pre ++ (old ++ rest)) (length pre) new ≡ pre ++ (new ++ rest)
unfolding patch
patch-append [] old new rest h = overwrite-append old new rest h
patch-append (x ∷ xs) old new rest h = ap (◌∷◌ x) (patch-append xs old new rest h)
