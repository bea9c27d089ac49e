-- ===== src/Base/Decimal.antt =====
-- The standard library's parsing of a `u64`.
use Prim.Native.Nat.{ℕ, ◌+◌, ◌-◌, ◌*◌, ◌^◌, ◌≤◌, ◌<◌}
use mathlib.Core.Path.{◌≡◌, refl}
use mathlib.Core.Bool.{◌&&◌}
use mathlib.Core.Option.{Option, none, some}
use mathlib.Core.List.{[], ◌∷◌}
use native.Mathlib.Omega.{arith}
use volo.Base.Tests.{ltb, leb, ◌==◌, if◌then◌else◌}
use volo.Base.Bytes.{Bytes}

-- `str::parse::<u64>` below its sign, on the digits read so far.
unfoldable pub parse_digits : ℕ → Bytes → Option ℕ
parse_digits n [] = some n
parse_digits n (b ∷ bytes) =
    if leb 48 b && leb b 57
    then (if ltb (n * 10 + (b - 48)) (2 ^ 64) then parse_digits (n * 10 + (b - 48)) bytes else none)
    else none

unfoldable pub parse_u64 : Bytes → Option ℕ
parse_u64 [] = none
parse_u64 (b ∷ bytes) =
    if b == 43
    then elim bytes [ [] ↦ none | c ∷ cs ↦ parse_digits 0 (c ∷ cs) ]
    else parse_digits 0 (b ∷ bytes)

-- The digits of a text, and its value after the digits read so far.
abbrev pub IsDigits : Bytes → Type 0
IsDigits [] = Unit {0}
IsDigits (b ∷ bytes) = ((48 ≤ b) × (b ≤ 57)) × IsDigits bytes

unfoldable pub value_of : ℕ → Bytes → ℕ
value_of n [] = n
value_of n (b ∷ bytes) = value_of (n * 10 + (b - 48)) bytes

value_of_le : (n : ℕ) (ds : Bytes) → n ≤ value_of n ds
unfolding value_of
value_of_le n [] = omega arith
value_of_le n (b ∷ ds) = omega (arith, value_of_le (n * 10 + (b - 48)) ds)

parse_digits-IsDigits :
    (n : ℕ) (ds : Bytes)
    → IsDigits ds
    → value_of n ds < 2 ^ 64
    → parse_digits n ds ≡ some (value_of n ds)
unfolding parse_digits value_of
parse_digits-IsDigits n [] h small = refl
parse_digits-IsDigits n (b ∷ ds) h small = ground (
  arith,
  value_of_le (n * 10 + (b - 48)) ds,
  parse_digits-IsDigits (n * 10 + (b - 48)) ds h.1 small,
)

pub parse_u64-IsDigits :
    (b : ℕ) (ds : Bytes)
    → IsDigits (b ∷ ds)
    → value_of 0 (b ∷ ds) < 2 ^ 64
    → parse_u64 (b ∷ ds) ≡ some (value_of 0 (b ∷ ds))
unfolding parse_u64
parse_u64-IsDigits b ds h small = ground (arith, parse_digits-IsDigits 0 (b ∷ ds) h small)
