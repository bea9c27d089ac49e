-- ===== src/Grpc/Timeout.antt =====
-- volo-grpc/src/layer/grpc_timeout.rs: the timeout header, and the shorter of two timeouts. A
-- duration is a number of nanoseconds.
pub mod Exact
use volo.Base.{
  ℕ, ◌+◌, ◌-◌, ◌*◌, ◌%◌, ◌^◌, ◌≤◌, ◌<◌, min, ◌≡◌, refl, ap, Bool, true, [], ◌∷◌, ◌++◌, Option, none,
  some, arith, ltb, leb, ◌==◌, ◌&&◌, ◌||◌, if◌then◌else◌,
}
use volo.Base.Bytes.{Bytes}
use volo.Base.Decimal.{parse_digits, parse_u64}

-- The characters that `HeaderValue::to_str` takes: the visible ASCII ones and the tab.
unfoldable pub is_visible : Bytes → Bool
is_visible [] = true
is_visible (b ∷ bytes) = (((leb 32 b && ltb b 127) || b == 9)) && is_visible bytes

-- All but the last character, and the last.
unfoldable pub split_unit : ℕ → Bytes → Bytes × ℕ
split_unit b [] = ([], b)
split_unit b (c ∷ bytes) = let (value, u) = split_unit c bytes in (b ∷ value, u)

-- `timeout_value * SECONDS_HOUR` wraps round.
unfoldable pub duration_of : ℕ → ℕ → Option ℕ
duration_of unit value =
    if unit == 72
    then some ((value * 3600 % 2 ^ 64) * 1000000000)
    else if unit == 77
    then some ((value * 60 % 2 ^ 64) * 1000000000)
    else if unit == 83
    then some (value * 1000000000)
    else if unit == 109
    then some (value * 1000000)
    else if unit == 117
    then some (value * 1000)
    else if unit == 110
    then some value
    else none

-- `invalid` carries the header's value.
pub data Parsed : Type 0 where
  parsed : Option ℕ → Parsed
  invalid : Bytes → Parsed

unfoldable pub with_duration : Bytes → Option ℕ → Parsed
with_duration val none = invalid val
with_duration val (some d) = parsed (some d)

unfoldable pub with_number : Bytes → ℕ → Option ℕ → Parsed
with_number val unit none = invalid val
with_number val unit (some n) = with_duration val (duration_of unit n)

unfoldable pub parse_value : Bytes → Bytes × ℕ → Parsed
parse_value val (value, unit) = with_number val unit (parse_u64 value)

-- The argument is the value of the `grpc-timeout` header, where there is one.
unfoldable pub try_parse_client_timeout : Option Bytes → Parsed
try_parse_client_timeout none = parsed none
try_parse_client_timeout (some []) = invalid []
try_parse_client_timeout (some (b ∷ bytes)) =
    if is_visible (b ∷ bytes)
    then parse_value (b ∷ bytes) (split_unit b bytes)
    else invalid (b ∷ bytes)

unfoldable pub or_none : Parsed → Option ℕ
or_none (parsed d) = d
or_none (invalid val) = none

unfoldable pub shorter : Option ℕ → Option ℕ → Option ℕ
shorter none none = none
shorter none (some t) = some t
shorter (some t) none = some t
shorter (some s) (some t) = some (min s t)

-- The timeout that `GrpcTimeout::call` sleeps for.
unfoldable pub timeout_duration : Option Bytes → Option ℕ → Option ℕ
timeout_duration header server_timeout =
    shorter (or_none (try_parse_client_timeout header)) server_timeout
