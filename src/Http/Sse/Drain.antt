-- ===== src/Http/Sse/Drain.antt =====
-- volo-http/src/client/sse.rs: the loop over the complete lines of the buffer.
use volo.Base.{
  ◌==◌, ◌||◌, ℕ, zero, suc, ◌≤◌, ◌<◌, ◌≡◌, refl, sym, ◌∙◌, ap, false, [], ◌∷◌, ◌++◌, Option, none,
  some, arith, length, Option-cases, inl, inr, if◌then◌else◌,
}
use volo.Base.Bytes.{Bytes}
use volo.Http.Sse.{is_break}
use volo.Http.Sse.Pending.{SseEvent}
use volo.Http.Sse.Reader.{
  SseReader, find_line, push_line, strip_lf, after_terminator, first_line, process_line, on_blank,
  dispatch_pending, line_of, next_line, on_processed, on_line, drain_on, drain,
}

pub find_line_break :
    (l rest : Bytes) → is_break l ≡ false → find_line (l ++ (10 ∷ rest)) ≡ some (l, 10, rest)
unfolding is_break find_line push_line
find_line_break [] rest h = refl
find_line_break (b ∷ l) rest h = ground (arith, find_line_break l rest)

pub find_line_cr : (l : Bytes) → is_break l ≡ false → find_line (l ++ (13 ∷ [])) ≡ some (l, 13, [])
unfolding is_break find_line push_line
find_line_cr [] h = refl
find_line_cr (b ∷ l) h = ground (arith, find_line_cr l)

-- No line is complete before its end has come.
pub find_line-prefix :
    (l buf more rest : Bytes)
    → is_break l ≡ false
    → buf ++ more ≡ l ++ (10 ∷ rest)
    → length buf ≤ length l
    → find_line buf ≡ none
unfolding is_break find_line push_line
find_line-prefix l [] more rest h same short = refl
find_line-prefix [] (c ∷ buf) more rest h same short = absurd (omega arith)
find_line-prefix (b ∷ l) (c ∷ buf) more rest h same short =
    let tail : buf ++ more ≡ l ++ (10 ∷ rest) = cc in
    let head : c ≡ b = cc in
    let e : is_break l ≡ false = ground arith in
    let r = find_line-prefix l buf more rest e tail (omega arith) in ground (arith, r, head)

find_line_shorter :
    (buf l rest : Bytes) (t : ℕ) → find_line buf ≡ some (l, t, rest) → length rest < length buf
unfolding find_line push_line
find_line_shorter [] l rest t h = absurd cc
find_line_shorter (b ∷ buf) l rest t h = elim (Option-cases (find_line buf)) [
  | inl e ↦ ground (arith, e, h)
  | inr ((l', t', rest'), e) ↦
      let small = find_line_shorter buf l' rest' t' e in
      let h' : (if b == 10 || b == 13 then some ([], b, buf) else some (b ∷ l', t', rest'))
          ≡ some (l, t, rest) =
        sym (ap (λ o. if b == 10 || b == 13 then some ([], b, buf) else push_line b o) e) ∙ h in
      ground (arith, small, h')
]

strip_lf_le : (bytes : Bytes) → length (strip_lf bytes) ≤ length bytes
unfolding strip_lf
strip_lf_le [] = omega arith
strip_lf_le (b ∷ bytes) = ground arith

after_terminator_le : (t : ℕ) (rest : Bytes) → length (after_terminator t rest) ≤ length rest
unfolding after_terminator
after_terminator_le t rest = ground (arith, strip_lf_le rest)

-- The lines, with the blank ones, change nothing but what is pending and the last id.
process_line-buffer :
    (l : Bytes) (r s : SseReader) (o : Option SseEvent)
    → process_line l r ≡ (o, s)
    → s.buffer ≡ r.buffer
unfolding process_line on_blank dispatch_pending
process_line-buffer [] r s o h = ground (arith, h)
process_line-buffer (c ∷ l) r s o h = cc

on_processed_same :
    (p : Option SseEvent × SseReader) (f g : SseReader → Option SseEvent × SseReader)
    → ((s : SseReader) → s.buffer ≡ p.1.buffer → f s ≡ g s)
    → on_processed p f ≡ on_processed p g
unfolding on_processed
on_processed_same (some e, s) f g h = refl
on_processed_same (none, s) f g h = h s refl

module _ (lossy : Bytes → Bytes) where
  line_of_shorter :
      (r s : SseReader) (l : Bytes) (o : Option (Bytes × ℕ × Bytes))
      → find_line r.buffer ≡ o
      → line_of lossy r o ≡ some (l, s)
      → length s.buffer < length r.buffer
  unfolding line_of
  line_of_shorter r s l none e h = absurd cc
  line_of_shorter r s l (some (line, t, rest)) e h =
      let same : s.buffer ≡ after_terminator t rest = cc in
      omega (
        arith,
        ap length same,
        after_terminator_le t rest,
        find_line_shorter r.buffer line rest t e,
      )

  on_line_enough :
      (n m : ℕ) (r : SseReader) (o : Option (Bytes × SseReader))
      → ((t : SseReader)
          → length t.buffer < n
          → length t.buffer < m
          → drain_on lossy n t ≡ drain_on lossy m t)
      → next_line lossy r ≡ o
      → length r.buffer < suc n
      → length r.buffer < suc m
      → on_line r o (drain_on lossy n) ≡ on_line r o (drain_on lossy m)
  unfolding on_line next_line
  on_line_enough n m r none same e hn hm = refl
  on_line_enough n m r (some (l, s)) same e hn hm =
      on_processed_same (process_line l s) (drain_on lossy n) (drain_on lossy m) (λ t held.
        let shorter = line_of_shorter r s l (find_line r.buffer) refl e in
        let kept = process_line-buffer l s (process_line l s).1 (process_line l s).0 refl in
        same t (omega (arith, ap length held, ap length kept, shorter))
          (omega (arith, ap length held, ap length kept, shorter)))

  drain_on_enough :
      (n m : ℕ) (r : SseReader)
      → length r.buffer < n
      → length r.buffer < m
      → drain_on lossy n r ≡ drain_on lossy m r
  unfolding drain_on
  drain_on_enough zero m r hn hm = absurd (omega arith)
  drain_on_enough (suc n) zero r hn hm = absurd (omega arith)
  drain_on_enough (suc n) (suc m) r hn hm =
      on_line_enough n m r (next_line lossy r) (drain_on_enough n m) refl hn hm

  -- One line is taken, and the rest of the buffer is drained.
  pub drain_line_at :
      (r : SseReader) (l rest : Bytes) (t : ℕ)
      → find_line r.buffer ≡ some (l, t, rest)
      → drain lossy r
        ≡ on_processed
            (process_line
              (lossy (first_line r.is_first_line l))
              (record r { buffer = after_terminator t rest; is_first_line = false }))
            (drain lossy)
  unfolding drain drain_on on_line next_line line_of
  drain_line_at r l rest t h =
      let after : SseReader = record r {
        buffer = after_terminator t rest;
        is_first_line = false;
      } in
      let line = lossy (first_line r.is_first_line l) in
      let shorter = find_line_shorter r.buffer l rest t h in
      let fits = after_terminator_le t rest in
      let kept =
        process_line-buffer line after (process_line line after).1 (process_line line after).0
          refl in
      rw (h) (
        on_processed_same (process_line line after) (drain_on lossy (length r.buffer)) (drain lossy)
          (λ s held.
            drain_on_enough (length r.buffer) (suc (length s.buffer)) s
              (omega (arith, ap length held, ap length kept, fits, shorter)) (omega arith)))

  pub drain_line :
      (r : SseReader) (l rest : Bytes)
      → find_line r.buffer ≡ some (l, 10, rest)
      → drain lossy r
        ≡ on_processed
            (process_line
              (lossy (first_line r.is_first_line l))
              (record r { buffer = rest; is_first_line = false }))
            (drain lossy)
  unfolding after_terminator
  drain_line r l rest h = drain_line_at r l rest 10 h

  pub drain-none : (r : SseReader) → find_line r.buffer ≡ none → drain lossy r ≡ (none, r)
  unfolding drain drain_on on_line next_line line_of
  drain-none r h = rw (h) refl
