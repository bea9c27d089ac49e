-- ===== src/Multiplex/Steps/Matched.antt =====
-- volo-thrift/src/transport/multiplex/thrift_transport.rs and client.rs: a call is answered with the
-- message of its own sequence id.
use volo.Base.{
  ℕ, ◌≡◌, refl, sym, ◌∙◌, subst, inl, inr, Bool, true, false, Option, none, some, Bool-cases,
  if◌then◌else◌,
}
use volo.Base.Maps.{lookup, nat_eq}
use volo.Multiplex.{
  response, closed, broken, Slot, empty, dropped, sent, ClientError, encode_error, connection_error,
  connection_closed, Outcome, ok, err, Phase, open_checked, registering, locking, waiting,
  forgetting, returned, Transport, Requests, is_empty, move, check_read_error, check_read_closed,
  register, begin_write, end_write, settle_write, forget, received, receive, cancel, cancel_write,
  check_write_error, read_failed, read_eof, deliver_to, read_message, call_result,
}
use volo.Multiplex.Steps.{
  IsFresh, Step, checks_error, checks_closed, registers, locks, writes, settles, forgets, receives,
  cancels, cancels_write, loops, fails, ends, delivers, Reach, here, next,
}
use volo.Multiplex.Steps.Cells.{holds-set_at}
use volo.Multiplex.Steps.Owned.{
  Owned, Owned-insert, Owned-remove, Carries, IsOwn, drop_sender-Carries, send_all-Carries,
}

module _ {X E : Type 0} (seq_of : X → ℕ) (r : Requests) where
  -- Only a call that awaits an answer waits, and it ends with a message of its own.
  abbrev Allowed : ℕ → Phase X E → Type 0
  Allowed c waiting = r.oneway c ≡ false
  Allowed c (returned (ok (some m))) = (seq_of m ≡ r.seq_id c) × (r.oneway c ≡ false)
  Allowed c _ = Unit

received-Allowed :
    {X : Type 0} (E : Type 0) (seq_of : X → ℕ) (r : Requests) (c : ℕ) (v : Slot X)
    → r.oneway c ≡ false
    → Carries seq_of r c v
    → Allowed seq_of r c (received {E = E} v)
unfolding received
received-Allowed E seq_of r c empty two h = two
received-Allowed E seq_of r c dropped two h = tt
received-Allowed E seq_of r c (sent (response m)) two h = (h, two)
received-Allowed E seq_of r c (sent closed) two h = tt
received-Allowed E seq_of r c (sent broken) two h = tt

settle_write-Allowed :
    {X : Type 0} (E : Type 0) (seq_of : X → ℕ) (r : Requests) (b : Bool) (c : ℕ)
    → r.oneway c ≡ b
    → Allowed {E = E} seq_of r c (if b then returned (ok none) else waiting)
settle_write-Allowed E seq_of r true c h = tt
settle_write-Allowed E seq_of r false c h = h

module _ {X E : Type 0} (seq_of : X → ℕ) (r : Requests) where
  -- A sender is kept under the sequence id of its call, and what it sends has that id.
  pub record IsMatched (s : Transport X E) : Type 0 where
    pub owned : Owned r s.tx_map
    pub carries : (c : ℕ) → Carries seq_of r c (s.slot c)
    pub allowed : (c : ℕ) → Allowed seq_of r c (s.phase c)

  move-IsMatched :
      {s : Transport X E} (c : ℕ) (p : Phase X E)
      → Allowed seq_of r c p
      → IsMatched s
      → IsMatched (move c p s)
  unfolding move
  move-IsMatched c p new h = record {
    owned = h.owned;
    carries = h.carries;
    allowed = holds-set_at (Allowed seq_of r) c p _ new h.allowed;
  }

  register-IsMatched : {s : Transport X E} (c : ℕ) → IsMatched s → IsMatched (register r c s)
  unfolding register move
  register-IsMatched {s} c h = elim (Bool-cases (r.oneway c)) [
    | inl one ↦ rw (one) (move-IsMatched c locking tt h)
    | inr two ↦ rw (two) (record {
      owned = Owned-insert r c s.tx_map h.owned;
      carries = drop_sender-Carries seq_of r _ s.slot h.carries;
      allowed = holds-set_at (Allowed seq_of r) c locking s.phase tt h.allowed;
    })
  ]

  deliver_to-IsMatched :
      {s : Transport X E} (m : X) (o : Option ℕ)
      → ((c : ℕ) → o ≡ some c → r.seq_id c ≡ seq_of m)
      → IsMatched s
      → IsMatched (deliver_to (seq_of m) m o s)
  unfolding deliver_to
  deliver_to-IsMatched m none own h = record {
    owned = h.owned;
    carries = h.carries;
    allowed = h.allowed;
  }
  deliver_to-IsMatched {s} m (some c) own h = record {
    owned = Owned-remove r (seq_of m) s.tx_map h.owned;
    carries =
        holds-set_at (Carries seq_of r) c (sent (response m)) s.slot (sym (own c refl)) h.carries;
    allowed = h.allowed;
  }

  check-Allowed :
      (b : Bool) (c : ℕ) (e : ClientError E) (p : Phase X E)
      → Allowed seq_of r c p
      → Allowed seq_of r c (if b then returned (err e) else p)
  check-Allowed true c e p h = tt
  check-Allowed false c e p h = h

  begin_write-IsMatched :
      {s : Transport X E} (b : Bool) (c : ℕ)
      → s.dirty ≡ b
      → IsMatched s
      → IsMatched (begin_write c s)
  unfolding begin_write
  begin_write-IsMatched true c is h = rw (is) (record {
    owned = h.owned;
    carries = h.carries;
    allowed = holds-set_at (Allowed seq_of r) c _ _ tt h.allowed;
  })
  begin_write-IsMatched false c is h = rw (is) (record {
    owned = h.owned;
    carries = h.carries;
    allowed = holds-set_at (Allowed seq_of r) c _ _ tt h.allowed;
  })

  failed-Allowed :
      (b : Bool) (c : ℕ) (e : E)
      → Allowed seq_of r c (if b then returned (err (encode_error e)) else forgetting e)
  failed-Allowed true c e = tt
  failed-Allowed false c e = tt

  read_eof-IsMatched :
      {s : Transport X E} (b : Bool) → is_empty s.tx_map ≡ b → IsMatched s → IsMatched (read_eof s)
  unfolding read_eof lookup
  read_eof-IsMatched {s} true is h =
      rw (is) (record { owned = h.owned; carries = h.carries; allowed = h.allowed })
  read_eof-IsMatched {s} false is h = rw (is) (record {
    owned = λ k c e. absurd cc;
    carries = send_all-Carries seq_of r closed s.tx_map s.slot (λ c. tt) h.carries;
    allowed = h.allowed;
  })

  pub Step-IsMatched : {s t : Transport X E} → Step seq_of r s t → IsMatched s → IsMatched t
  unfolding check_read_error check_read_closed end_write settle_write forget receive cancel
      cancel_write check_write_error read_failed read_message lookup
  Step-IsMatched {s} (checks_error c at) h =
      move-IsMatched c _ (check-Allowed s.read_error c connection_error open_checked tt) h
  Step-IsMatched {s} (checks_closed c at) h =
      move-IsMatched c _ (check-Allowed s.read_closed c connection_closed registering tt) h
  Step-IsMatched {s} (registers c at) h = register-IsMatched c h
  Step-IsMatched {s} (locks c at free) h = begin_write-IsMatched s.dirty c refl h
  Step-IsMatched {s} (writes c result at) h = record {
    owned = h.owned;
    carries = h.carries;
    allowed = holds-set_at (Allowed seq_of r) c _ _ tt h.allowed;
  }
  Step-IsMatched {s} (settles c none at) h =
      move-IsMatched c _ (settle_write-Allowed E seq_of r (r.oneway c) c refl) h
  Step-IsMatched {s} (settles c (some e) at) h = record {
    owned = h.owned;
    carries = h.carries;
    allowed = holds-set_at (Allowed seq_of r) c _ _ (failed-Allowed (r.oneway c) c e) h.allowed;
  }
  Step-IsMatched {s} (forgets c e at) h = record {
    owned = Owned-remove r (r.seq_id c) _ h.owned;
    carries = drop_sender-Carries seq_of r _ _ h.carries;
    allowed = holds-set_at (Allowed seq_of r) c _ _ tt h.allowed;
  }
  Step-IsMatched {s} (receives c at) h =
      move-IsMatched c _
        (received-Allowed E seq_of r c (s.slot c) (subst (Allowed seq_of r c) at (h.allowed c))
          (h.carries c))
        h
  Step-IsMatched {s} (cancels c at) h = move-IsMatched c _ tt h
  Step-IsMatched {s} (cancels_write c at) h = record {
    owned = h.owned;
    carries = h.carries;
    allowed = holds-set_at (Allowed seq_of r) c _ _ tt h.allowed;
  }
  Step-IsMatched {s} (loops at) h = record {
    owned = h.owned;
    carries = h.carries;
    allowed = h.allowed;
  }
  Step-IsMatched {s} (fails at) h = record {
    owned = λ k c e. absurd cc;
    carries = send_all-Carries seq_of r broken s.tx_map s.slot (λ c. tt) h.carries;
    allowed = h.allowed;
  }
  Step-IsMatched {s} (ends at) h = read_eof-IsMatched (is_empty s.tx_map) refl h
  Step-IsMatched {s} (delivers m at) h = deliver_to-IsMatched m _ (h.owned (seq_of m)) h

  fresh-IsMatched : {s : Transport X E} → IsFresh s → IsMatched s
  fresh-IsMatched f = record {
    owned = λ k c e. let missing = sym (f.no_senders k) ∙ e in absurd cc;
    carries = λ c. subst (Carries seq_of r c) (sym (f.no_answers c)) tt;
    allowed = λ c. subst (Allowed seq_of r c) (sym (f.at_start c)) tt;
  }

  pub Reach-IsMatched : {s t : Transport X E} → IsFresh s → Reach seq_of r s t → IsMatched t
  Reach-IsMatched f here = fresh-IsMatched f
  Reach-IsMatched f (next run step) = Step-IsMatched step (Reach-IsMatched f run)

  result-IsOwn :
      (c : ℕ) (b : Bool) (o : Outcome X E) (v : Option X)
      → r.oneway c ≡ b
      → Allowed seq_of r c (returned o)
      → call_result b o ≡ ok v
      → IsOwn seq_of r c v
  unfolding call_result
  result-IsOwn c true (err e) v is h at = absurd cc
  result-IsOwn c false (err e) v is h at = absurd cc
  result-IsOwn c true (ok none) v is h at =
      let same : none ≡ v = cc in subst (IsOwn seq_of r c) same is
  result-IsOwn c false (ok none) v is h at = absurd cc
  result-IsOwn c true (ok (some m)) v is h at =
      let same : some m ≡ v = cc in subst (IsOwn seq_of r c) same (h.1, h.0)
  result-IsOwn c false (ok (some m)) v is h at =
      let same : some m ≡ v = cc in subst (IsOwn seq_of r c) same (h.1, h.0)

  -- However the calls on a connection, the task that reads and what the peer answers are
  -- interleaved, with calls that are dropped anywhere, writes that fail and sequence ids that are
  -- used twice: if a call succeeds, then it was one-way and was given nothing, or it was given a
  -- message with its own sequence id.
  pub call-IsOwn :
      {s t : Transport X E} {c : ℕ} {o : Outcome X E} {v : Option X}
      → IsFresh s
      → Reach seq_of r s t
      → t.phase c ≡ returned o
      → call_result (r.oneway c) o ≡ ok v
      → IsOwn seq_of r c v
  call-IsOwn {c} {o} {v} f run at result =
      result-IsOwn c (r.oneway c) o v refl
        (subst (Allowed seq_of r c) at ((Reach-IsMatched f run).allowed c)) result
