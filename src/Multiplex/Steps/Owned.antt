-- ===== src/Multiplex/Steps/Owned.antt =====
-- volo-thrift/src/transport/multiplex/thrift_transport.rs: whose sender is kept, and what is sent.
use volo.Base.{
  ℕ, ◌≡◌, refl, sym, ◌∙◌, subst, Bool, true, false, [], ◌∷◌, Option, none, some, ◌==◌, ==_iff,
  if◌then◌else◌,
}
use volo.Base.Maps.{Map, lookup, insert, remove, nat_eq, lookup-insert, lookup-remove-some}
use volo.Multiplex.{Answer, response, Slot, dropped, sent, Requests, drop_sender, send_all}
use volo.Multiplex.Steps.Cells.{holds-set_at}

module _ (r : Requests) where
  abbrev pub Owned : Map ℕ ℕ → Type 0
  Owned m = (k c : ℕ) → lookup k m ≡ some c → r.seq_id c ≡ k

  pub Owned-insert : (c : ℕ) (m : Map ℕ ℕ) → Owned m → Owned (insert (r.seq_id c) c m)
  Owned-insert c m h k d at = found (r.seq_id c == k) refl (sym (lookup-insert _ k c m) ∙ at)
    where
      found :
          (b : Bool)
          → (r.seq_id c == k) ≡ b
          → (if b then some c else lookup k m) ≡ some d
          → r.seq_id d ≡ k
      found true same e =
          let mine : c ≡ d = cc in subst (λ x. r.seq_id x ≡ k) mine ((==_iff _ k).0 same)
      found false other e = h k d e

  pub Owned-remove : (j : ℕ) (m : Map ℕ ℕ) → Owned m → Owned (remove j m)
  Owned-remove j m h k d at = h k d (lookup-remove-some j k d m at)

module _ {X : Type 0} (seq_of : X → ℕ) (r : Requests) where
  abbrev pub Carries : ℕ → Slot X → Type 0
  Carries c (sent (response m)) = seq_of m ≡ r.seq_id c
  Carries c _ = Unit

  -- What a call is given: nothing if it is one-way, and else a message of its own sequence id.
  abbrev pub IsOwn : ℕ → Option X → Type 0
  IsOwn c none = r.oneway c ≡ true
  IsOwn c (some m) = (r.oneway c ≡ false) × (seq_of m ≡ r.seq_id c)

  pub drop_sender-Carries :
      (o : Option ℕ) (f : ℕ → Slot X)
      → ((c : ℕ) → Carries c (f c))
      → (c : ℕ) → Carries c (drop_sender o f c)
  unfolding drop_sender
  drop_sender-Carries none f h = h
  drop_sender-Carries (some d) f h = holds-set_at Carries d dropped f tt h

  pub send_all-Carries :
      (a : Answer X) (m : Map ℕ ℕ) (f : ℕ → Slot X)
      → ((c : ℕ) → Carries c (sent a))
      → ((c : ℕ) → Carries c (f c))
      → (c : ℕ) → Carries c (send_all a m f c)
  unfolding send_all
  send_all-Carries a [] f new h = h
  send_all-Carries a ((k, d) ∷ m) f new h =
      send_all-Carries a m _ new (holds-set_at Carries d (sent a) f (new d) h)
