-- ===== src/Http/Sse/Pending.antt =====
-- volo-http/src/client/sse.rs: the event that is being read, and its fields.
use volo.Base.{
  ℕ, ◌*◌, Bool, true, false, ◌||◌, [], ◌∷◌, ◌++◌, Option, none, some, ◌==◌, if◌then◌else◌,
}
use volo.Base.Bytes.{Bytes, codes, eqb}
use volo.Base.Decimal.{parse_u64}
use volo.Http.Sse.{data_key, event_key, id_key, retry_key, lf}

pub record SseEvent : Type 0 where
  pub content : Option Bytes
  pub event : Option Bytes
  pub id : Option Bytes
  pub retry : Option ℕ

-- `SseEvent::event`
unfoldable pub event_name : SseEvent → Bytes
event_name e = elim e.event [ none ↦ codes "message" | some name ↦ name ]

-- The four bits of `bitset`, and the fields.
pub record EventBuffer : Type 0 where
  pub bit_data : Bool
  pub bit_event : Bool
  pub bit_id : Bool
  pub bit_retry : Bool
  pub content : Bytes
  pub event : Option Bytes
  pub id : Option Bytes
  pub retry : Option ℕ

unfoldable pub empty : EventBuffer
empty = record {
  bit_data = false;
  bit_event = false;
  bit_id = false;
  bit_retry = false;
  content = [];
  event = none;
  id = none;
  retry = none;
}

unfoldable pub has_field : EventBuffer → Bool
has_field p = p.bit_data || p.bit_event || p.bit_id || p.bit_retry

unfoldable pub filter_empty : Option Bytes → Option Bytes
filter_empty none = none
filter_empty (some []) = none
filter_empty (some (b ∷ bytes)) = some (b ∷ bytes)

unfoldable pub dispatch : EventBuffer → SseEvent
dispatch p = record {
  content = if p.bit_data then some p.content else none;
  event = p.event;
  id = filter_empty p.id;
  retry = p.retry;
}

-- `split_colon` gives the field and the value, without one space in front.
unfoldable pub strip_space : Bytes → Bytes
strip_space [] = []
strip_space (b ∷ bytes) = if b == 32 then bytes else b ∷ bytes

unfoldable pub push_key : ℕ → Bytes × Bytes → Bytes × Bytes
push_key b (key, value) = (b ∷ key, value)

unfoldable pub split_colon : Bytes → Bytes × Bytes
split_colon [] = ([], [])
split_colon (b ∷ bytes) =
    let rest = split_colon bytes in if b == 58 then ([], strip_space bytes) else push_key b rest

unfoldable pub has_nul : Bytes → Bool
has_nul [] = false
has_nul (b ∷ bytes) = b == 0 || has_nul bytes

unfoldable pub add_data : Bytes → EventBuffer → EventBuffer
add_data value p = record p {
  content = (if p.bit_data then p.content ++ lf else p.content) ++ value;
  bit_data = true;
}

unfoldable pub add_event : Bytes → EventBuffer → EventBuffer
add_event value p = record p { event = some value; bit_event = true }

unfoldable pub add_id : Bytes → EventBuffer → EventBuffer
add_id value p = if has_nul value then p else record p { id = some value; bit_id = true }

-- A duration is in nanoseconds.
unfoldable pub add_retry : Option ℕ → EventBuffer → EventBuffer
add_retry none p = p
add_retry (some ms) p = record p { retry = some (ms * 1000000); bit_retry = true }

unfoldable pub add_field : Bytes × Bytes → EventBuffer → EventBuffer
add_field (key, value) p =
    if eqb key data_key
    then add_data value p
    else if eqb key event_key
    then add_event value p
    else if eqb key id_key
    then add_id value p
    else if eqb key retry_key
    then add_retry (parse_u64 value) p
    else p

-- A line that is not blank: a comment, or a field.
unfoldable pub add_line : Bytes → EventBuffer → EventBuffer
add_line [] p = p
add_line (c ∷ line) p = if c == 58 then p else add_field (split_colon (c ∷ line)) p
