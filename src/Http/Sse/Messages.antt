-- ===== src/Http/Sse/Messages.antt =====
-- volo-http/src/client/sse.rs: the events of a body that is a list of messages, each of them lines
-- that end in a blank one.
use volo.Base.{
  ℕ, zero, suc, ◌<◌, ◌≡◌, refl, sym, ◌∙◌, ap, Bool, true, false, List, [], ◌∷◌, ◌++◌, none, some,
  map, arith, length, append_assoc, append-nil, Bool-cases, inl, inr, if◌then◌else◌,
}
use volo.Base.Bytes.{Bytes, concat}
use volo.Http.Sse.{lf, is_break}
use volo.Http.Sse.Pending.{SseEvent, EventBuffer, empty, has_field, dispatch, add_line}
use volo.Http.Sse.Reader.{
  SseReader, strip_bom, find_line, first_line, process_line, on_blank, dispatch_pending,
  committed_id, next_line, line_of, on_line, drain_on, Frame, data_frame, Outcome, given, finished,
  on_processed, drain, flush, at_end, on_drained, on_frame, read,
}
use volo.Http.Sse.Settled.{add_lines, add_lines-Settled}
use volo.Http.Sse.Drain.{drain_line}
use volo.Http.Sse.Lines.{reader_at, fill, Steps, take_line}

unfoldable pub join : List Bytes → Bytes
join [] = []
join (l ∷ ls) = (l ++ lf) ++ join ls

-- A line of a message: one that is not blank, that begins with an ASCII character and that
-- `from_utf8_lossy` keeps.
unfoldable pub IsLine : (Bytes → Bytes) → Bytes → Type 0
IsLine lossy [] = ⊥
IsLine lossy (c ∷ l) = (c < 128) × ((is_break (c ∷ l) ≡ false) × (lossy (c ∷ l) ≡ c ∷ l))

unfoldable pub AreLines : (Bytes → Bytes) → List Bytes → Type 0
AreLines lossy [] = Unit {0}
AreLines lossy (l ∷ ls) = IsLine lossy l × AreLines lossy ls

strip_bom_ascii : (c : ℕ) (l : Bytes) → c < 128 → strip_bom (c ∷ l) ≡ c ∷ l
unfolding strip_bom
strip_bom_ascii c [] h = refl
strip_bom_ascii c (a ∷ []) h = refl
strip_bom_ascii c (a ∷ b ∷ l) h = ground arith

pub first_line_ascii :
    (first : Bool) (c : ℕ) (l : Bytes) → c < 128 → first_line first (c ∷ l) ≡ c ∷ l
unfolding first_line
first_line_ascii true c l h = strip_bom_ascii c l h
first_line_ascii false c l h = refl

first_line_blank : (first : Bool) → first_line first [] ≡ []
unfolding first_line strip_bom
first_line_blank true = refl
first_line_blank false = refl

on_blank-none : (r : SseReader) → has_field r.pending ≡ false → on_blank r ≡ (none, r)
unfolding on_blank
on_blank-none r h = rw (h) refl

-- What the lines of a message are, put before the other events.
unfoldable pub events_of : List (List Bytes) → List SseEvent
events_of [] = []
events_of (ls ∷ messages) =
    let p = add_lines ls empty in
    let rest = events_of messages in if has_field p then dispatch p ∷ rest else rest

unfoldable pub bytes_of : List (List Bytes) → Bytes
bytes_of [] = []
bytes_of (ls ∷ messages) = join ls ++ (lf ++ bytes_of messages)

unfoldable pub AreMessages : (Bytes → Bytes) → List (List Bytes) → Type 0
AreMessages lossy [] = Unit {0}
AreMessages lossy (ls ∷ messages) = AreLines lossy ls × AreMessages lossy messages

module _ (lossy : Bytes → Bytes) (E : Type 0) where
  take_lines :
      (ls : List Bytes) (rest : Bytes) (chunks : List Bytes) (r : SseReader)
      → AreLines lossy ls
      → r.buffer ++ concat chunks ≡ join ls ++ rest
      → Steps lossy E chunks r (add_lines ls r.pending) rest
  unfolding add_lines join IsLine AreLines process_line
  take_lines [] rest chunks r are same = record {
    chunks_left = chunks;
    buf = r.buffer;
    first = r.is_first_line;
    same = refl;
    left = same;
  }
  take_lines ([] ∷ ls) rest chunks r are same = absurd are.0
  take_lines ((c ∷ l) ∷ ls) rest chunks r are same =
      let g =
        take_line lossy E (c ∷ l) (c ∷ l) (join ls ++ rest) chunks r (add_line (c ∷ l) r.pending)
          are.0.1.0 (ap lossy (first_line_ascii r.is_first_line c l are.0.0) ∙ are.0.1.1)
          (λ buf. refl) (same ∙ append_assoc ((c ∷ l) ++ lf) (join ls) rest) in
      let k =
        take_lines ls rest g.chunks_left
          (reader_at g.buf r.last_event_id g.first (add_line (c ∷ l) r.pending)) are.1 g.left in
      record {
        chunks_left = k.chunks_left;
        buf = k.buf;
        first = k.first;
        same = g.same ∙ k.same;
        left = k.left;
      }

  -- The reader gives an event, and leaves the bytes behind it.
  record Gives (chunks : List Bytes) (r : SseReader) (e : SseEvent) (rest : Bytes) : Type 0 where
    chunks_left : List Bytes
    buf : Bytes
    last : Bytes
    same : read lossy {E = E} (map data_frame chunks) r ≡ record {
      outcome = given e;
      frames = map data_frame chunks_left;
      reader = reader_at buf last false empty;
    }
    left : buf ++ concat chunks_left ≡ rest

  pub read_given :
      (frames : List (Frame E)) (r s : SseReader) (e : SseEvent)
      → drain lossy r ≡ (some e, s)
      → read lossy frames r ≡ record { outcome = given e; frames = frames; reader = s }
  unfolding read on_drained
  read_given [] r s e h = rw (h) refl
  read_given (f ∷ frames) r s e h = rw (h) refl

  drain_blank :
      (r : SseReader) (left : Bytes)
      → lossy [] ≡ []
      → find_line r.buffer ≡ some ([], 10, left)
      → drain lossy r
        ≡ on_processed (on_blank (record r { buffer = left; is_first_line = false })) (drain lossy)
  unfolding process_line
  drain_blank r left kept h =
      drain_line lossy r [] left h ∙ rw (first_line_blank r.is_first_line, kept) refl

  pub drain_event :
      (r : SseReader) (left : Bytes)
      → lossy [] ≡ []
      → find_line r.buffer ≡ some ([], 10, left)
      → has_field r.pending ≡ true
      → drain lossy r ≡ (some (dispatch r.pending), reader_at left (committed_id r) false empty)
  unfolding on_blank dispatch_pending on_processed committed_id
  drain_event r left kept h set = drain_blank r left kept h ∙ rw (set) refl

  blank-Gives :
      (rest : Bytes) (chunks : List Bytes) (r : SseReader)
      → lossy [] ≡ []
      → has_field r.pending ≡ true
      → r.buffer ++ concat chunks ≡ lf ++ rest
      → Gives chunks r (dispatch r.pending) rest
  unfolding is_break
  blank-Gives rest chunks r kept set same =
      let g = fill lossy {E = E} [] rest chunks r refl same in
      let drained = drain_event (record r { buffer = g.buffer }) g.left kept g.line set in
      record {
        chunks_left = g.chunks;
        buf = g.left;
        last = committed_id (record r { buffer = g.buffer });
        same = g.same ∙ read_given _ _ _ _ drained;
        left = g.left_same;
      }

  blank_skips :
      (rest : Bytes) (chunks : List Bytes) (r : SseReader)
      → lossy [] ≡ []
      → has_field r.pending ≡ false
      → r.buffer ++ concat chunks ≡ lf ++ rest
      → Steps lossy E chunks r r.pending rest
  unfolding is_break process_line
  blank_skips rest chunks r kept unset same =
      take_line lossy E [] [] rest chunks r r.pending refl
        (ap lossy (first_line_blank r.is_first_line) ∙ kept) (λ buf. on_blank-none _ unset) same

  -- The results of the first `n` reads.
  unfoldable pub collect : ℕ → List (Frame E) → SseReader → List (Outcome E)
  collect zero frames r = []
  collect (suc n) frames r =
      let given = read lossy frames r in given.outcome ∷ collect n given.frames given.reader

  collect_same :
      (n : ℕ) (f g : List (Frame E)) (r s : SseReader)
      → read lossy f r ≡ read lossy g s
      → collect (suc n) f r ≡ collect (suc n) g s
  unfolding collect
  collect_same n f g r s h = rw (h) refl

  ends :
      (chunks : List Bytes) (last : Bytes) (first : Bool)
      → concat chunks ≡ []
      → collect 1 (map data_frame chunks) (reader_at [] last first empty) ≡ finished ∷ []
  unfolding collect read on_drained on_frame at_end flush has_field empty drain drain_on on_line
      next_line line_of find_line
  ends [] last first h = refl
  ends ([] ∷ chunks) last first h = ends chunks last first h
  ends ((b ∷ c) ∷ chunks) last first h = absurd cc

  collect_given :
      (n : ℕ) (frames mid left : List (Frame E)) (r s t : SseReader) (e : SseEvent)
      (rest : List (Outcome E))
      → read lossy frames r ≡ read lossy mid s
      → read lossy mid s ≡ record { outcome = given e; frames = left; reader = t }
      → collect n left t ≡ rest
      → collect (suc n) frames r ≡ given e ∷ rest
  unfolding collect
  collect_given n frames mid left r s t e rest h g k = rw (h, g) (ap (◌∷◌ (given e)) k)

  pub collect_messages :
      (messages : List (List Bytes)) (chunks : List Bytes) (buf last : Bytes) (first : Bool)
      → lossy [] ≡ []
      → AreMessages lossy messages
      → buf ++ concat chunks ≡ bytes_of messages
      → collect
          (suc (length (events_of messages)))
          (map data_frame chunks)
          (reader_at buf last first empty)
        ≡ map given (events_of messages) ++ (finished ∷ [])
  unfolding events_of bytes_of AreMessages
  collect_messages [] chunks [] last first kept are same = ends chunks last first same
  collect_messages [] chunks (b ∷ buf) last first kept are same = absurd cc
  collect_messages (ls ∷ messages) chunks buf last first kept are same =
      let g =
        take_lines ls (lf ++ bytes_of messages) chunks (reader_at buf last first empty) are.0
          same in
      let settled = add_lines-Settled ls empty (λ e. refl) in
      elim (Bool-cases (has_field (add_lines ls empty))) [
        | inl set ↦
            let k =
              blank-Gives (bytes_of messages) g.chunks_left
                (reader_at g.buf last g.first (add_lines ls empty)) kept set g.left in
            rw (set) (
              collect_given _ _ _ _ _ _ _ _ _ g.same k.same
                (collect_messages messages k.chunks_left k.buf k.last false kept are.1 k.left))
        | inr unset ↦
            let k =
              blank_skips (bytes_of messages) g.chunks_left
                (reader_at g.buf last g.first (add_lines ls empty)) kept unset g.left in
            rw (unset) (
              collect_same (length (events_of messages)) _ _ _ _ (
                g.same
                ∙ k.same
                ∙ ap
                    (λ p.
                      read lossy (map data_frame k.chunks_left) (reader_at k.buf last k.first p))
                    (settled unset))
              ∙ collect_messages messages k.chunks_left k.buf last k.first kept are.1 k.left)
      ]

  -- The body ends with an event that no blank line has followed.
  flushes :
      (chunks : List Bytes) (buf last : Bytes) (first : Bool) (p : EventBuffer)
      → has_field p ≡ true
      → buf ++ concat chunks ≡ []
      → (read lossy {E = E} (map data_frame chunks) (reader_at buf last first p)).outcome
        ≡ given (dispatch p)
  unfolding read on_drained on_frame at_end flush drain drain_on on_line next_line line_of find_line
      dispatch_pending
  flushes [] [] last first p set h = rw (set) refl
  flushes ([] ∷ chunks) [] last first p set h = flushes chunks [] last first p set h
  flushes ((b ∷ c) ∷ chunks) [] last first p set h = absurd cc
  flushes chunks (b ∷ buf) last first p set h = absurd cc

  -- Lines that no blank line ends are one event, whatever messages they were written for.
  pub read_unended :
      (ls : List Bytes) (chunks : List Bytes) (last : Bytes) (first : Bool)
      → AreLines lossy ls
      → has_field (add_lines ls empty) ≡ true
      → concat chunks ≡ join ls
      → (read lossy {E = E} (map data_frame chunks) (reader_at [] last first empty)).outcome
        ≡ given (dispatch (add_lines ls empty))
  read_unended ls chunks last first are set cut =
      let g =
        take_lines ls [] chunks (reader_at [] last first empty) are
          (cut ∙ sym (append-nil (join ls))) in
      ap (λ r. r.outcome) g.same
      ∙ flushes g.chunks_left g.buf last g.first (add_lines ls empty) set g.left
