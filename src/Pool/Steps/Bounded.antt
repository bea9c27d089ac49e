-- ===== src/Pool/Steps/Bounded.antt =====
-- volo-thrift/src/transport/pool/mod.rs: the number of idle connections of a key.
use volo.Base.{
  ℕ, ◌≤◌, ◌≡◌, refl, Bool, true, false, List, [], ◌∷◌, ◌++◌, Option, none, some, ltb, if◌then◌else◌,
  length, length-append, arith, ap, inl, inr, ◌&&◌,
}
use volo.Base.Maps.{Eq, lookup, insert, lookup-insert-some}
use volo.Pool.{Poolable, Channels, IdleEntry, WaiterList, Inner}
use volo.Pool.Steps.{or_default, push_idle, set_waiters, keep, put_to, put, is_some}

module _ {T : Type 0} where
  or_default-bounded :
      (max : ℕ) (o : Option (List (IdleEntry T)))
      → ((list : List (IdleEntry T)) → o ≡ some list → length list ≤ max)
      → length (or_default o) ≤ max
  unfolding or_default
  or_default-bounded max none h = omega arith
  or_default-bounded max (some list) h = h list refl

  push-bounded :
      (max : ℕ) (list : List (IdleEntry T)) (i : IdleEntry T)
      → length list ≤ max
      → length (if ltb (length list) max then list ++ (i ∷ []) else list) ≤ max
  push-bounded max list i h = ground (arith, length-append list (i ∷ []))

module _ {K T W : Type 0} ⦃e : Eq K⦄ where
  -- No key has more idle connections than the configuration allows.
  abbrev pub IsBounded : Inner K T W → Type 0
  IsBounded s =
      (key : K) (list : List (IdleEntry T))
      → lookup key s.idle ≡ some list
      → length list ≤ s.max_idle_per_key

  insert-IsBounded :
      (key : K) (new : List (IdleEntry T)) (s : Inner K T W)
      → IsBounded s
      → length new ≤ s.max_idle_per_key
      → IsBounded (record s { idle = insert key new s.idle })
  insert-IsBounded key new s h small k list at =
      elim (lookup-insert-some key k new list s.idle at) [
        | inl same ↦ omega (arith, ap length same)
        | inr before ↦ h k list before
      ]

  push_idle-IsBounded :
      (key : K) (t : T) (now : ℕ) (s : Inner K T W)
      → IsBounded s
      → IsBounded (push_idle key t now s)
  unfolding push_idle
  push_idle-IsBounded key t now s h =
      insert-IsBounded key _ s h
        (push-bounded s.max_idle_per_key _ _ (or_default-bounded s.max_idle_per_key _ (h key)))

  module _ (poolable : Poolable T) (channels : Channels W) where
    keep-IsBounded :
        (key : K) (now : ℕ) (o : Option T) (s : Inner K T W)
        → IsBounded s
        → IsBounded (keep poolable channels key now o s)
    unfolding keep
    keep-IsBounded key now none s h = h
    keep-IsBounded key now (some t) s h = kept (poolable.can_share t && is_some (lookup key s.idle))
      where
        kept : (b : Bool) → IsBounded (if b then s else push_idle key t now s)
        kept true = h
        kept false = push_idle-IsBounded key t now s h

    put_to-IsBounded :
        (key : K) (t : T) (now : ℕ) (s : Inner K T W) (o : Option (WaiterList W))
        → IsBounded s
        → IsBounded ((put_to poolable channels key t now s o).0)
    unfolding put_to set_waiters
    put_to-IsBounded key t now s none h = keep-IsBounded key now (some t) s h
    put_to-IsBounded key t now s (some ws) h = keep-IsBounded key now _ _ h

    -- Where no key has more idle connections than its limit, none has more after a connection was
    -- put back.
    pub put-IsBounded :
        (key : K) (t : T) (now : ℕ) (s : Inner K T W)
        → IsBounded s
        → IsBounded ((put poolable channels key t now s).0)
    unfolding put
    put-IsBounded key t now s h = put_to-IsBounded key t now s (lookup key s.waiters) h
