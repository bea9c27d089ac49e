-- ===== src/Http/Sse/RoundTrip.antt =====
-- volo-http/src/server/response/sse.rs and volo-http/src/client/sse.rs: what a server's events are
-- to a client.
use volo.Base.{ℕ, ◌≡◌, Bool, List, [], ◌∷◌, ◌++◌, Option, none, some, if◌then◌else◌}
use volo.Base.Bytes.{Bytes, concat}
use volo.Http.Sse.{lf}
use volo.Http.Sse.Server.{
  Event, KeepAliveStream, Poll, ready, failed, pending, ended, Setter, set_all, new, poll_frame,
}
use volo.Http.Sse.Pending.{SseEvent, has_field, filter_empty}
use volo.Http.Sse.Reader
use volo.Http.Sse.Reader.{Outcome}
use volo.Http.Sse.Messages.{IsLine, events_of, bytes_of, AreMessages}
use volo.Http.Sse.Built.{note_all, nothing, pending_of, all_lines, Kept}
use volo.Http.Sse.Writes.{AllSent}

unfoldable pub is_any : SseEvent → Bool
is_any e = has_field (pending_of e)

-- An event without a field is none, and an empty id is none.
unfoldable pub shown : SseEvent → List SseEvent
shown e = if is_any e then record e { id = filter_empty e.id } ∷ [] else []

module _ (format : ℕ → Bytes) (lossy : Bytes → Bytes) where
  -- An event that the application has built, whose lines `from_utf8_lossy` keeps.
  pub record Message : Type 0 where
    pub setters : List Setter
    pub event : Event
    pub built : set_all format setters new ≡ some event
    pub sent : AllSent format setters
    pub kept : Kept lossy (all_lines format setters)

  -- One poll of the body: the time, whether the timer has gone off, and the event that is ready.
  pub record Turn : Type 0 where
    pub now : ℕ
    pub is_ready : Bool
    pub message : Option Message

  unfoldable pub tell : Option Message → List SseEvent → List SseEvent
  tell none rest = rest
  tell (some m) rest = shown (note_all m.setters nothing) ++ rest

  -- The events that the turns should tell the client.
  unfoldable pub told : List Turn → List SseEvent
  told [] = []
  told (t ∷ turns) = tell t.message (told turns)

  -- The keep-alive message is one line that is a comment.
  unfoldable pub IsQuiet : Option KeepAliveStream → Type 0
  IsQuiet none = Unit {0}
  IsQuiet (some k) =
      (text : Bytes) × ((k.keep_alive.event ≡ (58 ∷ text) ++ (lf ++ lf)) × IsLine lossy (58 ∷ text))

  module _ (E : Type 0) where
    unfoldable pub poll_of : Option Message → Poll Event E
    poll_of none = pending
    poll_of (some m) = ready m.event

    unfoldable pub send : Poll Bytes E → List Bytes → List Bytes
    send (ready b) rest = b ∷ rest
    send pending rest = rest
    send ended rest = rest
    send (failed e) rest = rest

    -- The frames that the polls of the body give.
    unfoldable pub serve : List Turn → Option KeepAliveStream → List Bytes
    serve [] k = []
    serve (t ∷ turns) k =
        let p = poll_frame t.now t.is_ready (poll_of t.message) k in send p.0 (serve turns p.1)

    record Served (turns : List Turn) (frames : List Bytes) : Type 0 where
      messages : List (List Bytes)
      are : AreMessages lossy messages
      bytes : concat frames ≡ bytes_of messages
      events : events_of messages ≡ told turns
