-- ===== src/Multiplex/Steps/Answers.antt =====
-- volo-thrift/src/transport/multiplex/thrift_transport.rs: what the reading task reads ends the calls
-- that it is for.
use volo.Base.{
  ℕ, ◌≡◌, ◌≢◌, refl, sym, ◌∙◌, ap, Bool, true, false, [], ◌∷◌, Option, none, some, ==_iff,
}
use volo.Base.Maps.{Map, lookup, nat_eq, lookup-remove}
use volo.Multiplex.{
  response, closed, broken, Slot, empty, dropped, sent, connection_error, recv_error, Outcome, ok,
  err, Phase, waiting, returned, reading, Transport, Requests, is_empty, move, received, receive,
  read_failed, read_eof, deliver_to, read_message,
}
use volo.Multiplex.Steps.{IsFresh, fails, ends, delivers, Reach}
use volo.Multiplex.Steps.Cells.{set_at_self}
use volo.Multiplex.Steps.Kept.{enrolled, AreKept, Step-AreKept, Reach-AreKept}

empty-none : (k : ℕ) (m : Map ℕ ℕ) → is_empty m ≡ true → lookup k m ≡ none
unfolding is_empty lookup
empty-none k [] h = refl
empty-none k (kv ∷ m) h = absurd cc

module _ {X E : Type 0} (seq_of : X → ℕ) (r : Requests) where
  read_eof-none :
      (k : ℕ) (s : Transport X E) (b : Bool)
      → is_empty s.tx_map ≡ b
      → lookup k (read_eof s).tx_map ≡ none
  unfolding read_eof lookup
  read_eof-none k s true is = rw (is) (empty-none k s.tx_map is)
  read_eof-none k s false is = rw (is) refl

  pub read_eof-phase :
      (s : Transport X E) (b : Bool) → is_empty s.tx_map ≡ b → (read_eof s).phase ≡ s.phase
  unfolding read_eof
  read_eof-phase s true is = rw (is) refl
  read_eof-phase s false is = rw (is) refl

  pub deliver_to-phase :
      (k : ℕ) (m : X) (s : Transport X E) (o : Option ℕ) → (deliver_to k m o s).phase ≡ s.phase
  unfolding deliver_to
  deliver_to-phase k m s none = refl
  deliver_to-phase k m s (some c) = refl

  deliver_to-none :
      (k : ℕ) (m : X) (s : Transport X E) (o : Option ℕ)
      → lookup k s.tx_map ≡ o
      → lookup k (deliver_to k m o s).tx_map ≡ none
  unfolding deliver_to
  deliver_to-none k m s none is = is
  deliver_to-none k m s (some c) is = lookup-remove k k s.tx_map ∙ rw ((==_iff k k).1 refl) refl

  -- The call ends as soon as it looks at its channel.
  abbrev pub EndsNext : ℕ → Transport X E → Type 0
  EndsNext c s = (o : Outcome X E) × ((receive c s).phase c ≡ returned o)

  received-EndsNext :
      (c : ℕ) (v : Slot X) (s : Transport X E) → s.slot c ≡ v → v ≢ empty → EndsNext c s
  unfolding receive received move
  received-EndsNext c empty s is h = absurd (h refl)
  received-EndsNext c dropped s is h = (err recv_error, set_at_self c _ s.phase ∙ ap received is)
  received-EndsNext c (sent (response m)) s is h =
      (ok (some m), set_at_self c _ s.phase ∙ ap received is)
  received-EndsNext c (sent closed) s is h = (ok none, set_at_self c _ s.phase ∙ ap received is)
  received-EndsNext c (sent broken) s is h =
      (err connection_error, set_at_self c _ s.phase ∙ ap received is)

  gone :
      (c : ℕ) (s : Transport X E)
      → lookup (r.seq_id c) s.tx_map ≡ none
      → r.oneway c ≡ false
      → s.phase c ≡ waiting
      → AreKept r s
      → EndsNext c s
  unfolding enrolled
  gone c s absent two at h =
      received-EndsNext c (s.slot c) s refl
        (λ free. let never = sym absent ∙ h c two (ap enrolled at) free in absurd cc)

  -- While the reading task reads, whatever comes for a call that waits ends it: an error of the
  -- connection, its end, or a message with the call's sequence id. So it is in every state that the
  -- calls and the task reach in any order, also where sequence ids are used twice, writes fail or
  -- calls are dropped.
  pub read-EndsNext :
      {s t : Transport X E} {c : ℕ}
      → IsFresh s
      → Reach seq_of r s t
      → t.reader ≡ reading
      → r.oneway c ≡ false
      → t.phase c ≡ waiting
      → EndsNext c (read_failed t)
        × EndsNext c (read_eof t)
        × ((m : X) → seq_of m ≡ r.seq_id c → EndsNext c (read_message seq_of m t))
  unfolding read_failed read_message lookup
  read-EndsNext {t} {c} f run at two still =
      let kept = Reach-AreKept seq_of r f run in
      let waits = λ (p : ℕ → Phase X E) (e : p ≡ t.phase). ap (λ q. q c) e ∙ still in
      (
        gone c (read_failed t) refl two still (Step-AreKept seq_of r {s = t} (fails at) kept),
        gone c (read_eof t) (read_eof-none (r.seq_id c) t _ refl) two
            (waits _ (read_eof-phase t _ refl)) (Step-AreKept seq_of r {s = t} (ends at) kept),
        λ m same.
            gone c (read_message seq_of m t)
              (ap (λ k. lookup k (read_message seq_of m t).tx_map) (sym same)
                ∙ deliver_to-none (seq_of m) m t _ refl)
              two (waits _ (deliver_to-phase (seq_of m) m t _))
              (Step-AreKept seq_of r {s = t} (delivers m at) kept),
      )
