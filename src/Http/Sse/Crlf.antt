-- ===== src/Http/Sse/Crlf.antt =====
-- volo-http/src/client/sse.rs: a line that ends in CRLF, of which a frame has the first half.
use volo.Base.{ℕ, ◌≡◌, refl, ◌∙◌, ap, true, false, List, [], ◌∷◌, ◌++◌}
use volo.Base.Bytes.{Bytes}
use volo.Http.Sse.Pending.{empty, has_field, dispatch, add_line}
use volo.Http.Sse.Reader
use volo.Http.Sse.Reader.{
  SseReader, Frame, data_frame, given, find_line, first_line, strip_lf, after_terminator,
  process_line, on_processed, drain, read,
}
use volo.Http.Sse.Drain.{find_line_cr, drain_line_at}
use volo.Http.Sse.Lines.{reader_at, read_waits, read_same}
use volo.Http.Sse.Messages.{IsLine, first_line_ascii, drain_event, read_given}

module _ (lossy : Bytes → Bytes) (E : Type 0) where
  -- The line is taken, and nothing is left in the buffer.
  drain_cr :
      (c : ℕ) (l : Bytes)
      → IsLine lossy (c ∷ l)
      → drain lossy (reader_at ((c ∷ l) ++ (13 ∷ [])) [] true empty)
        ≡ drain lossy (reader_at [] [] false (add_line (c ∷ l) empty))
  unfolding IsLine process_line on_processed after_terminator strip_lf
  drain_cr c l is =
      drain_line_at lossy (reader_at ((c ∷ l) ++ (13 ∷ [])) [] true empty) (c ∷ l) [] 13
        (find_line_cr (c ∷ l) is.1.0)
      ∙ rw (first_line_ascii true c l is.0, is.1.1) refl

  -- Where a line that sets a field of an event ends in CRLF, and one frame ends between the two
  -- characters, the reader takes the line feed of the next frame for a blank line: it gives the
  -- event at once, with this line alone, whatever the next frame goes on with.
  pub read-split_crlf :
      (c : ℕ) (l rest : Bytes) (frames : List (Frame E))
      → lossy [] ≡ []
      → IsLine lossy (c ∷ l)
      → has_field (add_line (c ∷ l) empty) ≡ true
      → (read lossy
          (data_frame ((c ∷ l) ++ (13 ∷ [])) ∷ data_frame (10 ∷ rest) ∷ frames)
          Reader.new).outcome
        ≡ given (dispatch (add_line (c ∷ l) empty))
  unfolding Reader.new find_line
  read-split_crlf c l rest frames kept is set =
      let pending = add_line (c ∷ l) empty in
      let next = data_frame (10 ∷ rest) ∷ frames in
      let first = read_waits lossy (reader_at [] [] true empty) ((c ∷ l) ++ (13 ∷ [])) next refl in
      let line =
        read_same lossy next (reader_at ((c ∷ l) ++ (13 ∷ [])) [] true empty)
          (reader_at [] [] false pending) (drain_cr c l is) in
      let second = read_waits lossy (reader_at [] [] false pending) (10 ∷ rest) frames refl in
      let blank = drain_event lossy E (reader_at (10 ∷ rest) [] false pending) rest kept refl set in
      ap (λ r. r.outcome) (first ∙ line ∙ second ∙ read_given lossy E frames _ _ _ blank)
