-- ===== src/Http/Sse/Reader.antt =====
-- volo-http/src/client/sse.rs: the reader of a body of server-sent events.
use volo.Base.{
  ℕ, zero, suc, Bool, true, false, ◌||◌, ◌&&◌, ◌⊎◌, inl, inr, List, [], ◌∷◌, ◌++◌, Option, none,
  some, length, ◌==◌, if◌then◌else◌,
}
use volo.Base.Bytes.{Bytes, codes}
use volo.Http.Sse.{lf}
use volo.Http.Sse.Pending.{SseEvent, EventBuffer, empty, has_field, dispatch, add_line}

-- The body is the list of the frames that are still to come.
pub record SseReader : Type 0 where
  pub buffer : Bytes
  pub last_event_id : Bytes
  pub is_first_line : Bool
  pub pending : EventBuffer

unfoldable pub new : SseReader
new = record { buffer = []; last_event_id = []; is_first_line = true; pending = empty }

unfoldable pub or_default : Option Bytes → Bytes
or_default none = []
or_default (some id) = id

pub data Rejected : Type 0 where
  error_status invalid_content_type : Rejected

unfoldable pub starts_with : Bytes → Bytes → Bool
starts_with [] text = true
starts_with (p ∷ prefix) [] = false
starts_with (p ∷ prefix) (t ∷ text) = p == t && starts_with prefix text

-- Whether the status is a success, and the content type if it is a text, are the response's.
unfoldable pub into_sse : Bool → Option Bytes → Rejected ⊎ SseReader
into_sse false content_type = inl error_status
into_sse true content_type =
    if starts_with (codes "text/event-stream") (or_default content_type)
    then inr new
    else inl invalid_content_type

-- The bytes before the first `\n` or `\r`, that character, and the bytes behind it.
unfoldable pub push_line : ℕ → Option (Bytes × ℕ × Bytes) → Option (Bytes × ℕ × Bytes)
push_line b none = none
push_line b (some (line, terminator, rest)) = some (b ∷ line, terminator, rest)

unfoldable pub find_line : Bytes → Option (Bytes × ℕ × Bytes)
find_line [] = none
find_line (b ∷ bytes) =
    let rest = find_line bytes in
    if b == 10 || b == 13 then some ([], b, bytes) else push_line b rest

unfoldable pub strip_lf : Bytes → Bytes
strip_lf [] = []
strip_lf (b ∷ bytes) = if b == 10 then bytes else b ∷ bytes

unfoldable pub after_terminator : ℕ → Bytes → Bytes
after_terminator terminator rest = if terminator == 13 then strip_lf rest else rest

unfoldable pub strip_bom : Bytes → Bytes
strip_bom (a ∷ b ∷ c ∷ bytes) =
    if a == 239
    then if b == 187 then if c == 191 then bytes else a ∷ b ∷ c ∷ bytes else a ∷ b ∷ c ∷ bytes
    else a ∷ b ∷ c ∷ bytes
strip_bom bytes = bytes

unfoldable pub first_line : Bool → Bytes → Bytes
first_line true line = strip_bom line
first_line false line = line

-- `last_event_id`, once the event is dispatched.
unfoldable pub committed_id : SseReader → Bytes
committed_id r = if r.pending.bit_id then or_default r.pending.id else r.last_event_id

unfoldable pub dispatch_pending : SseReader → SseEvent × SseReader
dispatch_pending r =
    (dispatch r.pending, record r { last_event_id = committed_id r; pending = empty })

unfoldable pub on_blank : SseReader → Option SseEvent × SseReader
on_blank r =
    if has_field r.pending
    then (let (e, after) = dispatch_pending r in (some e, after))
    else (none, r)

unfoldable pub process_line : Bytes → SseReader → Option SseEvent × SseReader
process_line [] r = on_blank r
process_line (c ∷ line) r = (none, record r { pending = add_line (c ∷ line) r.pending })

pub data Frame (E : Type 0) : Type 0 where
  data_frame : Bytes → Frame E
  trailers_frame : Frame E
  error_frame : E → Frame E

pub data Outcome (E : Type 0) : Type 0 where
  given : SseEvent → Outcome E
  finished : Outcome E
  failed : E → Outcome E

pub record Read (E : Type 0) : Type 0 where
  pub outcome : Outcome E
  pub frames : List (Frame E)
  pub reader : SseReader

unfoldable pub on_processed :
    Option SseEvent × SseReader
    → (SseReader → Option SseEvent × SseReader)
    → Option SseEvent × SseReader
on_processed (some e, r) go_on = (some e, r)
on_processed (none, r) go_on = go_on r

unfoldable pub on_line :
    SseReader
    → Option (Bytes × SseReader)
    → (SseReader → Option SseEvent × SseReader)
    → Option SseEvent × SseReader
on_line r none go_on = (none, r)
on_line r (some (line, after)) go_on = on_processed (process_line line after) go_on

module _ {E : Type 0} where
  unfoldable pub on_drained :
      List (Frame E) → Option SseEvent × SseReader → (SseReader → Read E) → Read E
  on_drained frames (some e, r) go_on = record { outcome = given e; frames = frames; reader = r }
  on_drained frames (none, r) go_on = go_on r

  unfoldable pub flush : SseReader → Read E
  flush r =
      if has_field r.pending
      then (let (e, after) = dispatch_pending r in
          record { outcome = given e; frames = []; reader = after })
      else record { outcome = finished; frames = []; reader = r }

  unfoldable pub on_frame : List (Frame E) → Frame E → SseReader → (SseReader → Read E) → Read E
  on_frame frames (data_frame bytes) r go_on = go_on (record r { buffer = r.buffer ++ bytes })
  on_frame frames trailers_frame r go_on = go_on r
  on_frame frames (error_frame e) r go_on = record {
    outcome = failed e;
    frames = frames;
    reader = r;
  }

-- `String::from_utf8_lossy` is the argument.
module _ (lossy : Bytes → Bytes) where
  unfoldable pub line_of : SseReader → Option (Bytes × ℕ × Bytes) → Option (Bytes × SseReader)
  line_of r none = none
  line_of r (some (line, terminator, rest)) = some (
    lossy (first_line r.is_first_line line),
    record r { buffer = after_terminator terminator rest; is_first_line = false },
  )

  unfoldable pub next_line : SseReader → Option (Bytes × SseReader)
  next_line r = line_of r (find_line r.buffer)

  -- Each line is shorter than the buffer it is taken from, which is the fuel.
  unfoldable pub drain_on : ℕ → SseReader → Option SseEvent × SseReader
  drain_on zero r = (none, r)
  drain_on (suc fuel) r = on_line r (next_line r) (drain_on fuel)

  unfoldable pub drain : SseReader → Option SseEvent × SseReader
  drain r = drain_on (suc (length r.buffer)) r

  module _ {E : Type 0} where
    unfoldable pub at_end : Bytes → SseReader → Read E
    at_end [] r = flush r
    at_end (b ∷ bytes) r = on_drained [] (drain (record r { buffer = r.buffer ++ lf })) flush

    unfoldable pub read : List (Frame E) → SseReader → Read E
    read [] r = on_drained [] (drain r) (λ after. at_end after.buffer after)
    read (f ∷ frames) r =
        on_drained (f ∷ frames) (drain r) (λ after. on_frame frames f after (read frames))
