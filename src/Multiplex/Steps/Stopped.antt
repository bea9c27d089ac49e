-- ===== src/Multiplex/Steps/Stopped.antt =====
-- volo-thrift/src/transport/multiplex/thrift_transport.rs: once the reading task has ended.
use volo.Base.{ℕ, ◌≡◌, refl, sym, ◌∙◌, ap, ◌⊎◌, inl, inr, Bool, true, false, none, some}
use volo.Base.Maps.{lookup, nat_eq}
use volo.Multiplex.{
  empty, connection_dirty, err, Phase, locking, writing, waiting, cancelled, connection_dirty,
  written, returned, stopped, Transport, Requests, set_at, is_empty, move, check_read_error,
  check_read_closed, register, begin_write, end_write, settle_write, forget, receive, cancel,
  cancel_write, check_write_error, read_failed, read_message,
}
use volo.Multiplex.Steps.{
  awaits, IsFresh, Step, checks_error, checks_closed, registers, locks, writes, settles, forgets,
  receives, cancels, cancels_write, loops, fails, ends, delivers, Reach, here, next,
}
use volo.Multiplex.Steps.Matched.{IsMatched, Step-IsMatched, Reach-IsMatched}
use volo.Multiplex.Steps.Answers.{read_eof-phase, deliver_to-phase}
use volo.Multiplex.Steps.Stranded.{
  IsStranded, apart, not_so, moved-IsStranded, dropping-IsStranded, register-IsStranded,
  begin_write-IsStranded, receive-IsStranded, cancel-IsStranded,
}

module _ {X E : Type 0} (seq_of : X → ℕ) (r : Requests) where
  Step-IsStranded :
      {c : ℕ} {s t : Transport X E}
      → ((k : ℕ) → r.seq_id k ≡ r.seq_id c → k ≡ c)
      → Step seq_of r s t
      → IsMatched seq_of r s
      → IsStranded seq_of r c s
      → IsStranded seq_of r c t ⊎ (t.phase c ≡ cancelled)
  unfolding check_read_error check_read_closed end_write settle_write forget cancel_write move
  Step-IsStranded alone (checks_error d at) m h =
      inl (moved-IsStranded seq_of r d _ (not_so at (λ e. cc)) h)
  Step-IsStranded alone (checks_closed d at) m h =
      inl (moved-IsStranded seq_of r d _ (not_so at (λ e. cc)) h)
  Step-IsStranded alone (registers d at) m h =
      inl (register-IsStranded seq_of r (r.oneway d) d refl m alone (not_so at (λ e. cc)) h)
  Step-IsStranded {s} alone (locks d at free) m h =
      inl (begin_write-IsStranded seq_of r s.dirty d refl (not_so at (λ e. cc)) h)
  Step-IsStranded {s} alone (writes d result at) m h = inl (record {
    ended = h.ended;
    waits = (moved-IsStranded seq_of r d (written result) (not_so at (λ e. cc)) h).waits;
    nothing = h.nothing;
  })
  Step-IsStranded alone (settles d none at) m h =
      inl (moved-IsStranded seq_of r d _ (not_so at (λ e. cc)) h)
  Step-IsStranded alone (settles d (some e) at) m h = inl (record {
    ended = h.ended;
    waits = (moved-IsStranded seq_of r d _ (not_so at (λ e. cc)) h).waits;
    nothing = h.nothing;
  })
  Step-IsStranded alone (forgets d e at) m h =
      inl (dropping-IsStranded seq_of r d _ _ m alone (not_so at (λ e. cc)) h)
  Step-IsStranded alone (receives d at) m h = inl (receive-IsStranded seq_of r d h)
  Step-IsStranded alone (cancels d at) m h = cancel-IsStranded seq_of r d h
  Step-IsStranded alone (cancels_write d at) m h = inl (record {
    ended = h.ended;
    waits = (moved-IsStranded seq_of r d cancelled (not_so at (λ e. cc)) h).waits;
    nothing = h.nothing;
  })
  Step-IsStranded alone (loops at) m h = let never = sym at ∙ h.ended in absurd cc
  Step-IsStranded alone (fails at) m h = let never = sym at ∙ h.ended in absurd cc
  Step-IsStranded alone (ends at) m h = let never = sym at ∙ h.ended in absurd cc
  Step-IsStranded alone (delivers x at) m h = let never = sym at ∙ h.ended in absurd cc

  register-phase :
      (d : ℕ) (s : Transport X E) (b : Bool)
      → r.oneway d ≡ b
      → (register r d s).phase ≡ set_at d locking s.phase
  unfolding register move
  register-phase d s true is = rw (is) refl
  register-phase d s false is = rw (is) refl

  begin_write-phase :
      (c : ℕ) {p : Phase X E} (d : ℕ) (s : Transport X E) (b : Bool)
      → s.dirty ≡ b
      → ((q : Phase X E) → set_at d q s.phase c ≡ p)
      → (begin_write d s).phase c ≡ p
  unfolding begin_write
  begin_write-phase c d s true is h = rw (is) (h (returned (err connection_dirty)))
  begin_write-phase c d s false is h = rw (is) (h writing)

  Step-cancelled :
      {c : ℕ} {s t : Transport X E}
      → Step seq_of r s t
      → s.phase c ≡ cancelled
      → t.phase c ≡ cancelled
  unfolding check_read_error check_read_closed end_write settle_write forget receive cancel
      cancel_write check_write_error read_failed read_message move awaits
  Step-cancelled {s} (checks_error d at) h = (apart s.phase d _ cancelled (not_so at (λ e. cc)) h).1
  Step-cancelled {s} (checks_closed d at) h =
      (apart s.phase d _ cancelled (not_so at (λ e. cc)) h).1
  Step-cancelled {c} {s} (registers d at) h =
      ap (λ f. f c) (register-phase d s (r.oneway d) refl)
      ∙ (apart s.phase d locking cancelled (not_so at (λ e. cc)) h).1
  Step-cancelled {c} {s} (locks d at free) h =
      begin_write-phase c d s s.dirty refl
        (λ q. (apart s.phase d q cancelled (not_so at (λ e. cc)) h).1)
  Step-cancelled {s} (writes d result at) h =
      (apart s.phase d _ cancelled (not_so at (λ e. cc)) h).1
  Step-cancelled {s} (settles d none at) h = (apart s.phase d _ cancelled (not_so at (λ e. cc)) h).1
  Step-cancelled {s} (settles d (some e) at) h =
      (apart s.phase d _ cancelled (not_so at (λ e. cc)) h).1
  Step-cancelled {s} (forgets d e at) h = (apart s.phase d _ cancelled (not_so at (λ e. cc)) h).1
  Step-cancelled {s} (receives d at) h = (apart s.phase d _ cancelled (not_so at (λ e. cc)) h).1
  Step-cancelled {s} (cancels d at) h =
      (apart s.phase d _ cancelled (λ e. let never = sym (ap awaits e) ∙ at in absurd cc) h).1
  Step-cancelled {s} (cancels_write d at) h =
      (apart s.phase d _ cancelled (not_so at (λ e. cc)) h).1
  Step-cancelled (loops at) h = h
  Step-cancelled (fails at) h = h
  Step-cancelled {c} {s} (ends at) h =
      ap (λ f. f c) (read_eof-phase seq_of r s (is_empty s.tx_map) refl) ∙ h
  Step-cancelled {c} {s} (delivers m at) h =
      ap (λ f. f c) (deliver_to-phase seq_of r (seq_of m) m s (lookup (seq_of m) s.tx_map)) ∙ h

  Reach-IsStranded :
      {c : ℕ} {t u : Transport X E}
      → ((k : ℕ) → r.seq_id k ≡ r.seq_id c → k ≡ c)
      → IsMatched seq_of r t
      → IsStranded seq_of r c t
      → Reach seq_of r t u
      → IsMatched seq_of r u × (IsStranded seq_of r c u ⊎ (u.phase c ≡ cancelled))
  Reach-IsStranded alone m h here = (m, inl h)
  Reach-IsStranded alone m h (next run st) =
      let (matched, now) = Reach-IsStranded alone m h run in
      (
        Step-IsMatched seq_of r st matched,
        elim now [
          | inl still ↦ Step-IsStranded alone st matched still
          | inr gone ↦ inr (Step-cancelled st gone)
        ],
      )

  -- A call whose sequence id no other call uses, that waits when the reading task has ended and
  -- nothing was sent to it: whatever the other calls do from then on, it waits until it is dropped
  -- by its caller.
  pub stranded-Waits :
      {s t u : Transport X E} {c : ℕ}
      → IsFresh s
      → Reach seq_of r s t
      → ((k : ℕ) → r.seq_id k ≡ r.seq_id c → k ≡ c)
      → t.reader ≡ stopped
      → t.phase c ≡ waiting
      → t.slot c ≡ empty
      → Reach seq_of r t u
      → (u.phase c ≡ waiting) ⊎ (u.phase c ≡ cancelled)
  stranded-Waits {c} f run alone ended waits nothing later =
      let start : IsStranded seq_of r c _ = record {
        ended = ended;
        waits = waits;
        nothing = nothing;
      } in
      elim (Reach-IsStranded alone (Reach-IsMatched seq_of r f run) start later).1 [
        | inl still ↦ inl still.waits
        | inr gone ↦ inr gone
      ]
