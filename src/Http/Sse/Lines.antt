-- ===== src/Http/Sse/Lines.antt =====
-- volo-http/src/client/sse.rs: the lines of a body that is cut into frames anywhere.
use volo.Base.{
  ◌≤◌, ◌≡◌, refl, sym, ◌∙◌, ap, Bool, false, List, [], ◌∷◌, ◌++◌, none, some, map, arith, leb,
  leb→le, length, length-append, drop, append_assoc, take-append-drop, split_prefix, Bool-cases,
  inl, inr,
}
use volo.Base.Bytes.{Bytes, concat}
use volo.Http.Sse.{lf, is_break}
use volo.Http.Sse.Pending.{EventBuffer}
use volo.Http.Sse.Reader.{
  SseReader, find_line, first_line, process_line, Frame, data_frame, on_processed, drain,
  on_drained, on_frame, read,
}
use volo.Http.Sse.Drain.{find_line_break, find_line-prefix, drain_line, drain-none}

abbrev pub reader_at : Bytes → Bytes → Bool → EventBuffer → SseReader
reader_at buf last first pending = record {
  buffer = buf;
  last_event_id = last;
  is_first_line = first;
  pending = pending;
}

module _ (lossy : Bytes → Bytes) where
  module _ {E : Type 0} where
    pub read_waits :
        (r : SseReader) (c : Bytes) (frames : List (Frame E))
        → find_line r.buffer ≡ none
        → read lossy (data_frame c ∷ frames) r
          ≡ read lossy frames (record r { buffer = r.buffer ++ c })
    unfolding read on_drained on_frame
    read_waits r c frames h = rw (drain-none lossy r h) refl

    pub read_same :
        (frames : List (Frame E)) (r s : SseReader)
        → drain lossy r ≡ drain lossy s
        → read lossy frames r ≡ read lossy frames s
    unfolding read
    read_same [] r s h = rw (h) refl
    read_same (f ∷ frames) r s h = rw (h) refl

    -- The frames are read until the line is complete, and `left` is behind it.
    pub record Filled (frames : List (Frame E)) (r : SseReader) (l rest : Bytes) : Type 0 where
      pub chunks : List Bytes
      pub buffer : Bytes
      pub left : Bytes
      pub same :
          read lossy frames r ≡ read lossy (map data_frame chunks) (record r { buffer = buffer })
      pub line : find_line buffer ≡ some (l, 10, left)
      pub left_same : left ++ concat chunks ≡ rest

    Filled-enough :
        (l rest : Bytes) (chunks : List Bytes) (r : SseReader)
        → is_break l ≡ false
        → r.buffer ++ concat chunks ≡ (l ++ lf) ++ rest
        → length (l ++ lf) ≤ length r.buffer
        → Filled (map data_frame chunks) r l rest
    Filled-enough l rest chunks r h same enough =
        let (front, back) = split_prefix (l ++ lf) r.buffer (concat chunks) rest same enough in
        let left = drop (length (l ++ lf)) r.buffer in
        let whole : r.buffer ≡ l ++ (10 ∷ left) =
          sym (take-append-drop (length (l ++ lf)) r.buffer)
          ∙ ap (λ f. f ++ left) front
          ∙ append_assoc l lf left in
        record {
          chunks = chunks;
          buffer = r.buffer;
          left = left;
          same = refl;
          line = ap find_line whole ∙ find_line_break l left h;
          left_same = back;
        }

    pub fill :
        (l rest : Bytes) (chunks : List Bytes) (r : SseReader)
        → is_break l ≡ false
        → r.buffer ++ concat chunks ≡ (l ++ lf) ++ rest
        → Filled (map data_frame chunks) r l rest
    fill l rest [] r h same =
        Filled-enough l rest [] r h same
          (omega (arith, length-append r.buffer [], length-append (l ++ lf) rest, ap length same))
    fill l rest (c ∷ chunks) r h same = elim (Bool-cases (leb (length r.buffer) (length l))) [
      | inl short ↦
          let g =
            fill l rest chunks (record r { buffer = r.buffer ++ c }) h
              (append_assoc r.buffer c (concat chunks) ∙ same) in
          record {
            chunks = g.chunks;
            buffer = g.buffer;
            left = g.left;
            same =
                read_waits r c (map data_frame chunks) (
                  find_line-prefix l r.buffer (c ++ concat chunks) rest h
                    (same ∙ append_assoc l lf rest) (leb→le _ _ short))
                ∙ g.same;
            line = g.line;
            left_same = g.left_same;
          }
      | inr enough ↦ Filled-enough l rest (c ∷ chunks) r h same (ground (arith, length-append l lf))
    ]

  module _ (E : Type 0) where
    -- The reader has taken the lines up to `rest`, and given no event.
    pub record Steps (chunks : List Bytes) (r : SseReader) (pending : EventBuffer) (rest : Bytes)
        : Type 0 where
      pub chunks_left : List Bytes
      pub buf : Bytes
      pub first : Bool
      pub same :
          read lossy {E = E} (map data_frame chunks) r
          ≡ read lossy (map data_frame chunks_left) (reader_at buf r.last_event_id first pending)
      pub left : buf ++ concat chunks_left ≡ rest

    pub take_line :
        (l line rest : Bytes) (chunks : List Bytes) (r : SseReader) (pending : EventBuffer)
        → is_break l ≡ false
        → lossy (first_line r.is_first_line l) ≡ line
        → ((buf : Bytes)
            → process_line line (reader_at buf r.last_event_id false r.pending)
              ≡ (none, reader_at buf r.last_event_id false pending))
        → r.buffer ++ concat chunks ≡ (l ++ lf) ++ rest
        → Steps chunks r pending rest
    unfolding on_processed
    take_line l line rest chunks r pending h kept done same =
        let g = fill l rest chunks r h same in
        record {
          chunks_left = g.chunks;
          buf = g.left;
          first = false;
          same =
              g.same
              ∙ read_same (map data_frame g.chunks) (record r { buffer = g.buffer })
                  (reader_at g.left r.last_event_id false pending)
                  (drain_line lossy (record r { buffer = g.buffer }) l g.left g.line
                    ∙ rw (kept, done g.left) refl);
          left = g.left_same;
        }
