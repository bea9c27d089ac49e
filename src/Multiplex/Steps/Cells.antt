-- ===== src/Multiplex/Steps/Cells.antt =====
-- volo-thrift/src/transport/multiplex/thrift_transport.rs: what a part of `send` leaves of the other
-- calls' cells.
use volo.Base.{
  ℕ, ◌≡◌, refl, sym, subst, ◌∙◌, ap, ◌⊎◌, inl, inr, ◌≢◌, Bool, true, false, [], ◌∷◌, Option, none,
  some, ◌==◌, ==_iff, Bool-cases, if◌then◌else◌,
}
use volo.Base.Maps.{Map, lookup, nat_eq}
use volo.Multiplex.{Answer, Slot, empty, dropped, sent, set_at, drop_sender, send_all}

module _ {A : Type 0} where
  pub set_at_self : (c : ℕ) (v : A) (f : ℕ → A) → set_at c v f c ≡ v
  unfolding set_at
  set_at_self c v f = rw ((==_iff c c).1 refl) refl

  pub set_at-cases :
      (c d : ℕ) (v w : A) (f : ℕ → A) → set_at c v f d ≡ w → ((c ≡ d) × (v ≡ w)) ⊎ (f d ≡ w)
  unfolding set_at
  set_at-cases c d v w f h = elim (Bool-cases (c == d)) [
    | inl same ↦ inl ((==_iff c d).0 same, sym (rw (same) refl) ∙ h)
    | inr other ↦ inr (sym (rw (other) refl) ∙ h)
  ]

  pub set_at_other : (c d : ℕ) (v : A) (f : ℕ → A) → c ≢ d → set_at c v f d ≡ f d
  unfolding set_at
  set_at_other c d v f h = elim (Bool-cases (c == d)) [
    | inl same ↦ absurd (h ((==_iff c d).0 same))
    | inr other ↦ rw (other) refl
  ]

  -- A property of every cell, at one that is set.
  pub holds-set_at {κ} :
      (P : ℕ → A → Type κ) (c : ℕ) (v : A) (f : ℕ → A)
      → P c v
      → ((d : ℕ) → P d (f d))
      → (d : ℕ) → P d (set_at c v f d)
  unfolding set_at
  holds-set_at P c v f new h d = elim (Bool-cases (c == d)) [
    | inl same ↦ rw (same) (subst (λ k. P k v) ((==_iff c d).0 same) new)
    | inr other ↦ rw (other) (h d)
  ]

  pub set_at-elsewhere :
      (c d : ℕ) (v w : A) (f : ℕ → A) → v ≢ w → set_at c v f d ≡ w → (f d ≡ w) × (c ≢ d)
  set_at-elsewhere c d v w f new h = elim (set_at-cases c d v w f h) [
    | inl (same, e) ↦ absurd (new e)
    | inr before ↦ (before, λ same. new (sym (set_at_self c v f) ∙ ap (set_at c v f) same ∙ h))
  ]

module _ {X : Type 0} where
  pub drop_sender-sent :
      (o : Option ℕ) (f : ℕ → Slot X) (c : ℕ) (a : Answer X)
      → drop_sender o f c ≡ sent a
      → f c ≡ sent a
  unfolding drop_sender
  drop_sender-sent none f c a h = h
  drop_sender-sent (some d) f c a h = elim (set_at-cases d c dropped (sent a) f h) [
    | inl (same, never) ↦ absurd cc
    | inr before ↦ before
  ]

  pub drop_sender-empty :
      (o : Option ℕ) (f : ℕ → Slot X) (c : ℕ)
      → drop_sender o f c ≡ empty
      → (f c ≡ empty) × (o ≢ some c)
  unfolding drop_sender
  drop_sender-empty none f c h = (h, λ k. cc)
  drop_sender-empty (some d) f c h =
      let (before, other) = set_at-elsewhere d c dropped empty f (λ e. cc) h in
      (before, λ e. other cc)

  -- An answer to every sender in the map.
  pub send_all-sent :
      (a b : Answer X) (m : Map ℕ ℕ) (f : ℕ → Slot X) (c : ℕ)
      → send_all a m f c ≡ sent b
      → (f c ≡ sent b) ⊎ (a ≡ b)
  unfolding send_all
  send_all-sent a b [] f c h = inl h
  send_all-sent a b ((k, d) ∷ m) f c h = elim (send_all-sent a b m (set_at d (sent a) f) c h) [
    | inl first ↦ elim (set_at-cases d c (sent a) (sent b) f first) [
      | inl (same, e) ↦ inr cc
      | inr before ↦ inl before
    ]
    | inr e ↦ inr e
  ]

  pub send_all-empty :
      (a : Answer X) (m : Map ℕ ℕ) (f : ℕ → Slot X) (c k : ℕ)
      → send_all a m f c ≡ empty
      → (f c ≡ empty) × (lookup k m ≢ some c)
  unfolding send_all lookup
  send_all-empty a [] f c k h = (h, λ e. cc)
  send_all-empty a ((j, d) ∷ m) f c k h =
      let (before, rest) = send_all-empty a m (set_at d (sent a) f) c k h in
      let (first, other) = set_at-elsewhere d c (sent a) empty f (λ e. cc) before in
      (first, not_here other rest (j == k))
    where
      not_here :
          d ≢ c → lookup k m ≢ some c → (b : Bool) → (if b then some d else lookup k m) ≢ some c
      not_here other rest true = λ e. other cc
      not_here other rest false = rest
