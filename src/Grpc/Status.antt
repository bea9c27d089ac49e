-- ===== src/Grpc/Status.antt =====
-- volo-grpc/src/status.rs: the status codes, and their text in the header.
use volo.Base.{ℕ, ◌≡◌, refl, Bool, true, false, List, [], ◌∷◌, ◌==◌, if◌then◌else◌, arith, ◌⊎◌, inl}
use volo.Base.Bytes.{Bytes}

pub data Code : Type 0 where
  ok cancelled unknown invalid_argument deadline_exceeded not_found already_exists : Code
  permission_denied resource_exhausted failed_precondition aborted out_of_range : Code
  unimplemented internal unavailable data_loss unauthenticated : Code

-- The discriminant, `code as i32`.
unfoldable pub number : Code → ℕ
number ok = 0
number cancelled = 1
number unknown = 2
number invalid_argument = 3
number deadline_exceeded = 4
number not_found = 5
number already_exists = 6
number permission_denied = 7
number resource_exhausted = 8
number failed_precondition = 9
number aborted = 10
number out_of_range = 11
number unimplemented = 12
number internal = 13
number unavailable = 14
number data_loss = 15
number unauthenticated = 16

-- A table from numbers to codes, the arms of a `match` whose last arm is `unknown`.
unfoldable pub first_match : ℕ → List (ℕ × Code) → Code
first_match i [] = unknown
first_match i ((j, c) ∷ arms) = if i == j then c else first_match i arms

-- A negative `i32` takes the last arm, as a number above 16 does.
unfoldable pub from_i32 : ℕ → Code
from_i32 i = first_match i (
    (0, ok)
    ∷ (1, cancelled)
    ∷ (2, unknown)
    ∷ (3, invalid_argument)
    ∷ (4, deadline_exceeded)
    ∷ (5, not_found)
    ∷ (6, already_exists)
    ∷ (7, permission_denied)
    ∷ (8, resource_exhausted)
    ∷ (9, failed_precondition)
    ∷ (10, aborted)
    ∷ (11, out_of_range)
    ∷ (12, unimplemented)
    ∷ (13, internal)
    ∷ (14, unavailable)
    ∷ (15, data_loss)
    ∷ (16, unauthenticated)
    ∷ [])

unfoldable pub from_byte : ℕ → Code
from_byte b = first_match b (
    (48, ok)
    ∷ (49, cancelled)
    ∷ (50, unknown)
    ∷ (51, invalid_argument)
    ∷ (52, deadline_exceeded)
    ∷ (53, not_found)
    ∷ (54, already_exists)
    ∷ (55, permission_denied)
    ∷ (56, resource_exhausted)
    ∷ (57, failed_precondition)
    ∷ [])

unfoldable pub from_two_bytes : ℕ → ℕ → Code
from_two_bytes a b =
    if a == 49
    then first_match b (
        (48, aborted)
        ∷ (49, out_of_range)
        ∷ (50, unimplemented)
        ∷ (51, internal)
        ∷ (52, unavailable)
        ∷ (53, data_loss)
        ∷ (54, unauthenticated)
        ∷ [])
    else unknown

unfoldable pub from_bytes : Bytes → Code
from_bytes [] = unknown
from_bytes (b ∷ []) = from_byte b
from_bytes (a ∷ b ∷ []) = from_two_bytes a b
from_bytes (a ∷ b ∷ c ∷ bytes) = unknown

unfoldable pub to_header_value : Code → Bytes
to_header_value ok = 48 ∷ []
to_header_value cancelled = 49 ∷ []
to_header_value unknown = 50 ∷ []
to_header_value invalid_argument = 51 ∷ []
to_header_value deadline_exceeded = 52 ∷ []
to_header_value not_found = 53 ∷ []
to_header_value already_exists = 54 ∷ []
to_header_value permission_denied = 55 ∷ []
to_header_value resource_exhausted = 56 ∷ []
to_header_value failed_precondition = 57 ∷ []
to_header_value aborted = 49 ∷ 48 ∷ []
to_header_value out_of_range = 49 ∷ 49 ∷ []
to_header_value unimplemented = 49 ∷ 50 ∷ []
to_header_value internal = 49 ∷ 51 ∷ []
to_header_value unavailable = 49 ∷ 52 ∷ []
to_header_value data_loss = 49 ∷ 53 ∷ []
to_header_value unauthenticated = 49 ∷ 54 ∷ []

-- `matches!(self.code, …)`.
unfoldable pub retryable : Code → Bool
retryable internal = true
retryable unavailable = true
retryable cancelled = true
retryable resource_exhausted = true
retryable _ = false

from_two_bytes-exact :
    (a b : ℕ) → (from_two_bytes a b ≡ unknown) ⊎ (to_header_value (from_two_bytes a b) ≡ a ∷ b ∷ [])
unfolding from_two_bytes first_match to_header_value
from_two_bytes-exact a b = ground arith

from_byte-exact : (b : ℕ) → (from_byte b ≡ unknown) ⊎ (to_header_value (from_byte b) ≡ b ∷ [])
unfolding from_byte first_match to_header_value
from_byte-exact b = ground arith

-- The three forms of a code agree: the text and the number of each code are read back as that
-- code.
pub from_bytes-to_header_value :
    (c : Code) → (from_bytes (to_header_value c) ≡ c) × (from_i32 (number c) ≡ c)
unfolding from_bytes from_byte from_two_bytes first_match to_header_value from_i32 number
from_bytes-to_header_value ok = (refl, refl)
from_bytes-to_header_value cancelled = (refl, refl)
from_bytes-to_header_value unknown = (refl, refl)
from_bytes-to_header_value invalid_argument = (refl, refl)
from_bytes-to_header_value deadline_exceeded = (refl, refl)
from_bytes-to_header_value not_found = (refl, refl)
from_bytes-to_header_value already_exists = (refl, refl)
from_bytes-to_header_value permission_denied = (refl, refl)
from_bytes-to_header_value resource_exhausted = (refl, refl)
from_bytes-to_header_value failed_precondition = (refl, refl)
from_bytes-to_header_value aborted = (refl, refl)
from_bytes-to_header_value out_of_range = (refl, refl)
from_bytes-to_header_value unimplemented = (refl, refl)
from_bytes-to_header_value internal = (refl, refl)
from_bytes-to_header_value unavailable = (refl, refl)
from_bytes-to_header_value data_loss = (refl, refl)
from_bytes-to_header_value unauthenticated = (refl, refl)

-- A text that is read as another code than `unknown` is the text that is written for that code.
pub from_bytes-exact :
    (bytes : Bytes) → (from_bytes bytes ≡ unknown) ⊎ (to_header_value (from_bytes bytes) ≡ bytes)
unfolding from_bytes
from_bytes-exact [] = inl refl
from_bytes-exact (b ∷ []) = from_byte-exact b
from_bytes-exact (a ∷ b ∷ []) = from_two_bytes-exact a b
from_bytes-exact (a ∷ b ∷ c ∷ bytes) = inl refl
