-- ===== src/Multiplex/Steps/Stranded.antt =====
-- volo-thrift/src/transport/multiplex/thrift_transport.rs: a call that waits when the reading task has
-- ended, and the parts of `send` of other calls.
use volo.Base.{
  ℕ, ◌≡◌, ◌≢◌, refl, sym, ◌∙◌, ap, ◌⊎◌, inl, inr, Bool, true, false, Option, none, some, ◌==◌,
  ==_iff, Bool-cases,
}
use volo.Base.Maps.{Map, lookup, nat_eq}
use volo.Multiplex.{
  empty, dropped, connection_dirty, err, Phase, locking, writing, waiting, cancelled, returned,
  stopped, Transport, Requests, set_at, drop_sender, move, register, begin_write, received, receive,
  cancel,
}
use volo.Multiplex.Steps.Cells.{holds-set_at, set_at_self, set_at_other}
use volo.Multiplex.Steps.Matched.{IsMatched}

pub apart :
    {A : Type 0} {c : ℕ} (f : ℕ → A) (d : ℕ) (q v : A)
    → f d ≢ v
    → f c ≡ v
    → (d ≢ c) × (set_at d q f c ≡ v)
apart {c = c} f d q v other at =
    let away : d ≢ c = λ same. other (ap f same ∙ at) in (away, set_at_other d c q f away ∙ at)

-- A step that takes a cell for what it is not.
pub not_so : {A : Type 0} {a p v : A} → a ≡ p → p ≢ v → a ≢ v
not_so at other = λ e. other (sym at ∙ e)

module _ {X E : Type 0} (seq_of : X → ℕ) (r : Requests) where
  -- A call waits with nothing in its channel, and nobody reads.
  pub record IsStranded (c : ℕ) (s : Transport X E) : Type 0 where
    pub ended : s.reader ≡ stopped
    pub waits : s.phase c ≡ waiting
    pub nothing : s.slot c ≡ empty

  drop_sender-nothing :
      (c : ℕ) (s : Transport X E) (d : ℕ)
      → IsMatched seq_of r s
      → ((k : ℕ) → r.seq_id k ≡ r.seq_id c → k ≡ c)
      → d ≢ c
      → s.slot c ≡ empty
      → drop_sender (lookup (r.seq_id d) s.tx_map) s.slot c ≡ empty
  unfolding drop_sender
  drop_sender-nothing c s d m alone other free = found (lookup (r.seq_id d) s.tx_map) refl
    where
      found : (o : Option ℕ) → lookup (r.seq_id d) s.tx_map ≡ o → drop_sender o s.slot c ≡ empty
      found none e = free
      found (some k) e =
          set_at_other k c dropped s.slot
            (λ same. other (alone d (sym (m.owned (r.seq_id d) k e) ∙ ap r.seq_id same)))
          ∙ free

  -- The step of another call leaves the call stranded.
  pub moved-IsStranded :
      {c : ℕ} {s : Transport X E} (d : ℕ) (q : Phase X E)
      → s.phase d ≢ waiting
      → IsStranded c s
      → IsStranded c (move d q s)
  unfolding move
  moved-IsStranded {c} {s} d q other h = record {
    ended = h.ended;
    waits = (apart s.phase d q waiting other h.waits).1;
    nothing = h.nothing;
  }

  pub dropping-IsStranded :
      {c : ℕ} {s : Transport X E} (d : ℕ) (q : Phase X E) (m : Map ℕ ℕ)
      → IsMatched seq_of r s
      → ((k : ℕ) → r.seq_id k ≡ r.seq_id c → k ≡ c)
      → s.phase d ≢ waiting
      → IsStranded c s
      → IsStranded c (record s {
        slot = drop_sender (lookup (r.seq_id d) s.tx_map) s.slot;
        tx_map = m;
        phase = set_at d q s.phase;
      })
  dropping-IsStranded {c} {s} d q m matched alone other h =
      let (away, stays) = apart s.phase d q waiting other h.waits in
      record {
        ended = h.ended;
        waits = stays;
        nothing = drop_sender-nothing c s d matched alone away h.nothing;
      }

  pub register-IsStranded :
      {c : ℕ} {s : Transport X E} (b : Bool) (d : ℕ)
      → r.oneway d ≡ b
      → IsMatched seq_of r s
      → ((k : ℕ) → r.seq_id k ≡ r.seq_id c → k ≡ c)
      → s.phase d ≢ waiting
      → IsStranded c s
      → IsStranded c (register r d s)
  unfolding register move
  register-IsStranded true d one m alone other h = rw (one) (moved-IsStranded d locking other h)
  register-IsStranded false d one m alone other h =
      rw (one) (dropping-IsStranded d locking _ m alone other h)

  pub begin_write-IsStranded :
      {c : ℕ} {s : Transport X E} (b : Bool) (d : ℕ)
      → s.dirty ≡ b
      → s.phase d ≢ waiting
      → IsStranded c s
      → IsStranded c (begin_write d s)
  unfolding begin_write move
  begin_write-IsStranded true d is other h = rw (is) (record {
    ended = h.ended;
    waits = (moved-IsStranded d (returned (err connection_dirty)) other h).waits;
    nothing = h.nothing;
  })
  begin_write-IsStranded false d is other h = rw (is) (record {
    ended = h.ended;
    waits = (moved-IsStranded d writing other h).waits;
    nothing = h.nothing;
  })

  pub receive-IsStranded :
      {c : ℕ} {s : Transport X E} (d : ℕ) → IsStranded c s → IsStranded c (receive d s)
  unfolding receive move received
  receive-IsStranded {c} {s} d h = record {
    ended = h.ended;
    waits =
        holds-set_at (λ k p. k ≡ c → p ≡ waiting) d (received (s.slot d)) s.phase
          (λ same. ap received (ap s.slot same ∙ h.nothing)) (λ k same. ap s.phase same ∙ h.waits) c
          refl;
    nothing = h.nothing;
  }

  pub cancel-IsStranded :
      {c : ℕ} {s : Transport X E} (d : ℕ)
      → IsStranded c s
      → IsStranded c (cancel d s) ⊎ ((cancel d s).phase c ≡ cancelled)
  unfolding cancel move set_at
  cancel-IsStranded {c} {s} d h = elim (Bool-cases (d == c)) [
    | inl same ↦ inr (
        ap (set_at d cancelled s.phase) (sym ((==_iff d c).0 same))
        ∙ set_at_self d cancelled s.phase)
    | inr other ↦ inl (record { ended = h.ended; waits = rw (other) h.waits; nothing = h.nothing })
  ]
