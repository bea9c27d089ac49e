-- ===== src/Grpc/Timeout/Exact.antt =====
-- volo-grpc/src/layer/grpc_timeout.rs: the headers that the gRPC protocol allows.
use volo.Base.{
  ℕ, ◌*◌, ◌%◌, ◌^◌, ◌≤◌, ◌<◌, min, ◌≡◌, refl, ap, true, [], ◌∷◌, ◌++◌, Option, none, some, arith,
}
use volo.Base.Bytes.{Bytes}
use volo.Base.Decimal.{parse_u64, IsDigits, value_of, parse_u64-IsDigits}
use volo.Grpc.Timeout.{
  is_visible, split_unit, duration_of, parsed, with_duration, with_number, parse_value,
  try_parse_client_timeout, or_none, shorter, timeout_duration,
}

-- The units of the gRPC protocol, their letters and their nanoseconds.
pub data TimeUnit : Type 0 where
  hour minute second milli micro nano : TimeUnit

unfoldable pub letter : TimeUnit → ℕ
letter hour = 72
letter minute = 77
letter second = 83
letter milli = 109
letter micro = 117
letter nano = 110

unfoldable pub nanos : TimeUnit → ℕ
nanos hour = 3600000000000
nanos minute = 60000000000
nanos second = 1000000000
nanos milli = 1000000
nanos micro = 1000
nanos nano = 1

split_unit-append : (b : ℕ) (ds : Bytes) (u : ℕ) → split_unit b (ds ++ (u ∷ [])) ≡ (b ∷ ds, u)
unfolding split_unit
split_unit-append b [] u = refl
split_unit-append b (c ∷ ds) u = rw (split_unit-append c ds u)

duration_of-letter :
    (u : TimeUnit) (n : ℕ) → n < 10 ^ 8 → duration_of (letter u) n ≡ some (n * nanos u)
unfolding duration_of letter nanos
duration_of-letter hour n small = ap some (omega arith)
duration_of-letter minute n small = ap some (omega arith)
duration_of-letter second n small = refl
duration_of-letter milli n small = refl
duration_of-letter micro n small = refl
duration_of-letter nano n small = ap some (omega arith)

visible-letter : (u : TimeUnit) → is_visible (letter u ∷ []) ≡ true
unfolding is_visible letter
visible-letter hour = refl
visible-letter minute = refl
visible-letter second = refl
visible-letter milli = refl
visible-letter micro = refl
visible-letter nano = refl

IsDigits-visible :
    (ds us : Bytes) → IsDigits ds → is_visible us ≡ true → is_visible (ds ++ us) ≡ true
unfolding is_visible
IsDigits-visible [] us h v = v
IsDigits-visible (b ∷ ds) us h v = ground (arith, IsDigits-visible ds us h.1 v)

parse_value-some :
    (val value : Bytes) (u n d : ℕ)
    → parse_u64 value ≡ some n
    → duration_of u n ≡ some d
    → parse_value val (value, u) ≡ parsed (some d)
unfolding parse_value with_number with_duration
parse_value-some val value u n d h k = rw (h, k) refl

shorter-some :
    (d : ℕ) (server : Option ℕ)
    → shorter (some d) server ≡ some (elim server [ none ↦ d | some t ↦ min d t ])
unfolding shorter
shorter-some d none = refl
shorter-some d (some t) = refl

-- A header of one digit or more, whose value is below 10 ^ 8, and the letter of a unit is read
-- as exactly that many of the unit, and `call` sleeps for the shorter of it and the server's
-- timeout.
pub timeout_duration-digits :
    (b : ℕ) (ds : Bytes) (u : TimeUnit) (server : Option ℕ)
    → IsDigits (b ∷ ds)
    → value_of 0 (b ∷ ds) < 10 ^ 8
    → timeout_duration (some ((b ∷ ds) ++ (letter u ∷ []))) server
      ≡ some (elim server [
        | none ↦ value_of 0 (b ∷ ds) * nanos u
        | some t ↦ min (value_of 0 (b ∷ ds) * nanos u) t
      ])
unfolding timeout_duration try_parse_client_timeout or_none
timeout_duration-digits b ds u server h small =
    rw
      (
        IsDigits-visible (b ∷ ds) (letter u ∷ []) h (visible-letter u),
        split_unit-append b ds (letter u),
        parse_value-some (b ∷ (ds ++ (letter u ∷ []))) (b ∷ ds) (letter u) (value_of 0 (b ∷ ds))
            (value_of 0 (b ∷ ds) * nanos u) (parse_u64-IsDigits b ds h (omega arith))
            (duration_of-letter u (value_of 0 (b ∷ ds)) small),
      )
      (shorter-some (value_of 0 (b ∷ ds) * nanos u) server)

-- A number of hours whose seconds reach 2 ^ 64 is read as a shorter time than it says.
pub duration_of_wraps :
    (n : ℕ)
    → 2 ^ 64 ≤ n * 3600
    → (d : ℕ) × (duration_of (letter hour) n ≡ some d) × (d < n * nanos hour)
unfolding duration_of letter nanos
duration_of_wraps n long = (n * 3600 % 2 ^ 64 * 1000000000, refl, omega arith)
