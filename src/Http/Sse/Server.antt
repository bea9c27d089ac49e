-- ===== src/Http/Sse/Server.antt =====
-- volo-http/src/server/response/sse.rs: the builder of an event, and the body that sends events.
use volo.Base.{
  ℕ, ◌+◌, ◌*◌, ◌/◌, Bool, true, false, List, [], ◌∷◌, ◌++◌, Option, none, some, ◌==◌, if◌then◌else◌,
}
use mathlib.Core.Option.{bind}
use mathlib.Core.Option
use volo.Base.Bytes.{Bytes, codes}
use volo.Http.Sse.{data_key, event_key, id_key, retry_key, lf, is_break}

pub record Event : Type 0 where
  pub buffer : Bytes
  pub has_data : Bool
  pub has_event : Bool
  pub has_id : Bool
  pub has_retry : Bool

unfoldable pub new : Event
new = record { buffer = []; has_data = false; has_event = false; has_id = false; has_retry = false }

-- `key: val` and the end of the line, without the test of the value.
unfoldable pub put_field : Bytes → Bytes → Event → Event
put_field key val e = record e { buffer = e.buffer ++ (key ++ (58 ∷ 32 ∷ (val ++ lf))) }

-- There is no result where the code panics.
unfoldable pub field : Bytes → Bytes → Event → Option Event
field key val e = if is_break val then none else some (put_field key val e)

-- `memchr_split(b'\n', _)`, collected.
unfoldable pub push_front : ℕ → List Bytes → List Bytes
push_front b [] = (b ∷ []) ∷ []
push_front b (l ∷ ls) = (b ∷ l) ∷ ls

unfoldable pub memchr_split : Bytes → List Bytes
memchr_split [] = [] ∷ []
memchr_split (b ∷ bytes) =
    let rest = memchr_split bytes in if b == 10 then [] ∷ rest else push_front b rest

unfoldable pub put_lines : List Bytes → Event → Option Event
put_lines [] e = some e
put_lines (l ∷ ls) e = bind (field data_key l e) (put_lines ls)

-- The payload of `json` is what the serializer writes, if it succeeds.
unfoldable pub put_json : Option Bytes → Event → Option Event
put_json none e = none
put_json (some payload) e =
    some (record e { buffer = e.buffer ++ (data_key ++ (58 ∷ 32 ∷ payload)) })

-- The calls of the builder; a duration is in nanoseconds.
pub data Setter : Type 0 where
  event data_lines id comment : Bytes → Setter
  json : Option Bytes → Setter
  retry : ℕ → Setter

-- The text of a number, of the crate `itoa`, is the argument.
module _ (format : ℕ → Bytes) where
  unfoldable pub set : Setter → Event → Option Event
  set (event v) e = if e.has_event then none else field event_key v (record e { has_event = true })
  set (data_lines v) e =
      if e.has_data then none else put_lines (memchr_split v) (record e { has_data = true })
  set (json payload) e =
      if e.has_data then none else put_json payload (record e { has_data = true })
  set (id v) e = if e.has_id then none else field id_key v (record e { has_id = true })
  set (retry timeout) e =
      if e.has_retry
      then none
      else some (put_field retry_key (format (timeout / 1000000)) (record e { has_retry = true }))
  set (comment v) e = field [] v e

  unfoldable pub set_all : List Setter → Event → Option Event
  set_all [] e = some e
  set_all (s ∷ ss) e = bind (set s e) (set_all ss)

unfoldable pub finalize : Event → Bytes
finalize e = e.buffer ++ lf

pub record KeepAlive : Type 0 where
  pub event : Bytes
  pub max_interval : ℕ

-- `KeepAlive::new`, `interval`, `text` and `event`.
unfoldable pub keep_alive : KeepAlive
keep_alive = record { event = 58 ∷ 10 ∷ 10 ∷ []; max_interval = 15 * 1000000000 }

unfoldable pub interval : ℕ → KeepAlive → KeepAlive
interval n k = record k { max_interval = n }

unfoldable pub with_event : Event → KeepAlive → KeepAlive
with_event e k = record k { event = finalize e }

unfoldable pub text : Bytes → KeepAlive → Option KeepAlive
text v k = bind (field [] v new) (λ e. some (with_event e k))

-- The deadline of `alive_timer`.
pub record KeepAliveStream : Type 0 where
  pub keep_alive : KeepAlive
  pub alive_timer : ℕ

unfoldable pub new_stream : ℕ → KeepAlive → KeepAliveStream
new_stream now k = record { keep_alive = k; alive_timer = now + k.max_interval }

-- The headers of the response, and the keep-alive stream of its body.
unfoldable pub into_response : ℕ → Option KeepAlive → List (Bytes × Bytes) × Option KeepAliveStream
into_response now keep_alive = (
  (codes "content-type", codes "text/event-stream")
      ∷ (codes "cache-control", codes "no-cache")
      ∷ [],
  Option.map (new_stream now) keep_alive,
)

unfoldable pub reset : ℕ → KeepAliveStream → KeepAliveStream
reset now k = record k { alive_timer = now + k.keep_alive.max_interval }

pub data Poll (A E : Type 0) : Type 0 where
  pending ended : Poll A E
  ready : A → Poll A E
  failed : E → Poll A E

-- Whether the timer is ready is the runtime's answer.
unfoldable pub poll_event :
    {E : Type 0} → ℕ → Bool → KeepAliveStream → Poll Bytes E × KeepAliveStream
poll_event now is_ready k =
    if is_ready then (ready k.keep_alive.event, reset now k) else (pending, k)

unfoldable pub poll_alive :
    {E : Type 0} → ℕ → Bool → Option KeepAliveStream → Poll Bytes E × Option KeepAliveStream
poll_alive now is_ready none = (pending, none)
poll_alive now is_ready (some k) = let (p, after) = poll_event now is_ready k in (p, some after)

unfoldable pub reset_alive : ℕ → Option KeepAliveStream → Option KeepAliveStream
reset_alive now none = none
reset_alive now (some k) = some (reset now k)

-- The answer of the stream of events is an argument.
unfoldable pub poll_frame :
    {E : Type 0}
    → ℕ
    → Bool
    → Poll Event E
    → Option KeepAliveStream
    → Poll Bytes E × Option KeepAliveStream
poll_frame now is_ready pending k = poll_alive now is_ready k
poll_frame now is_ready (ready e) k = (ready (finalize e), reset_alive now k)
poll_frame now is_ready (failed err) k = (failed err, k)
poll_frame now is_ready ended k = (ended, k)
