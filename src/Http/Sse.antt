-- ===== src/Http/Sse.antt =====
-- volo-http/src/server/response/sse.rs and volo-http/src/client/sse.rs: the names of the fields,
-- and the characters that end a line.
use volo.Base.{Bool, true, false, ◌||◌, [], ◌∷◌, ◌==◌}
use volo.Base.Bytes.{Bytes, codes}
pub mod Server
pub mod Pending
pub mod Reader
pub mod Drain
pub mod Lines
pub mod Settled
pub mod Messages
pub mod Built
pub mod Writes
pub mod RoundTrip
pub mod Json
pub mod Crlf

abbrev pub data_key : Bytes
data_key = codes "data"

abbrev pub event_key : Bytes
event_key = codes "event"

abbrev pub id_key : Bytes
id_key = codes "id"

abbrev pub retry_key : Bytes
retry_key = codes "retry"

-- `\n`, `\r`, `:` and a space.
abbrev pub lf : Bytes
lf = 10 ∷ []

unfoldable pub is_break : Bytes → Bool
is_break [] = false
is_break (b ∷ bytes) = b == 10 || b == 13 || is_break bytes
