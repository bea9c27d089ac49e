-- ===== src/Pool/Steps/Reach.antt =====
-- volo-thrift/src/transport/pool/mod.rs: the states that the pool reaches.
use volo.Base.{
  ℕ, ◌+◌, ◌^◌, ◌<◌, ◌≡◌, refl, sym, ◌∙◌, ap, subst, Bool, true, false, ◌&&◌, List, [], Option, none,
  some, inl, inr, Bool-cases,
}
use volo.Base.Maps.{Eq, Map, lookup, insert, remove, lookup-insert-some, lookup-remove-some}
use volo.Pool.{Reservation, shared, unique, Poolable, Channels, IdleEntry, WaiterList, Inner}
use volo.Pool.Waiters.{is_empty, deliver}
use volo.Pool.Steps.{
  Ver, multiplex, ping_pong, is_some, clear_expired, connected, connecting, drop_connecting,
  push_idle, set_waiters, keep, put_to, put, take_idle, take_from, settle, settle_in, waiters_of,
  register, drop_checkout, leave_from,
}
use volo.Balance.{contains}
use volo.Pool.Steps.Tokens.{
  IsOrdered, default-IsOrdered, insert_waiter-IsOrdered, remove_waiter-IsOrdered, IsRising-deliver,
}

waiters_of-IsOrdered :
    {W : Type 0} (o : Option (WaiterList W))
    → ((ws : WaiterList W) → o ≡ some ws → IsOrdered ws)
    → IsOrdered (waiters_of o)
unfolding waiters_of
waiters_of-IsOrdered none h = default-IsOrdered _
waiters_of-IsOrdered (some ws) h = h ws refl

module _ {K W : Type 0} ⦃e : Eq K⦄ where
  -- Each key's callers wait under tokens that rise in the order in which they came.
  unfoldable pub AreOrdered : Map K (WaiterList W) → Type 0
  AreOrdered m = (key : K) (ws : WaiterList W) → lookup key m ≡ some ws → IsOrdered ws

  AreOrdered-insert :
      (key : K) (new : WaiterList W) (m : Map K (WaiterList W))
      → AreOrdered m
      → IsOrdered new
      → AreOrdered (insert key new m)
  unfolding AreOrdered
  AreOrdered-insert key new m h is k ws at = elim (lookup-insert-some key k new ws m at) [
    | inl same ↦ subst IsOrdered same is
    | inr before ↦ h k ws before
  ]

  AreOrdered-remove :
      (key : K) (m : Map K (WaiterList W)) → AreOrdered m → AreOrdered (remove key m)
  unfolding AreOrdered
  AreOrdered-remove key m h k ws at = h k ws (lookup-remove-some key k ws m at)

module _ {K T W : Type 0} ⦃e : Eq K⦄ (poolable : Poolable T) (channels : Channels W) where
  -- One step of the pool under its lock. Fewer than 2 ^ 64 callers have waited under a list.
  pub data Step (s : Inner K T W) : Inner K T W → Type 0 where
    expire : (now : ℕ) → Step s (clear_expired now s)
    start : (key : K) (ver : Ver) → Step s (connecting key ver s).0
    finish : (key : K) (reports : Bool) → Step s (drop_connecting (key, reports) s)
    give : (key : K) (t : T) (now : ℕ) → Step s (put poolable channels key t now s).0
    take : (key : K) (now : ℕ) → Step s (take_idle poolable channels key now s).0
    keep_shared :
        (key : K) (now : ℕ) (i : IdleEntry T) → Step s (settle poolable channels key now i s).0
    wait :
        (key : K) (w : W)
        → (waiters_of (lookup key s.waiters)).counter + 1 < 2 ^ 64
        → Step s (register key w s).0
    leave : (key : K) (token : ℕ) (clean : Bool) → Step s (drop_checkout key token clean s)

  pub data Reach (s : Inner K T W) : Inner K T W → Type 0 where
    here : Reach s s
    next : {t u : Inner K T W} → Reach s t → Step t u → Reach s u

  keep-waiters :
      (key : K) (now : ℕ) (o : Option T) (s : Inner K T W)
      → (keep poolable channels key now o s).waiters ≡ s.waiters
  unfolding keep push_idle
  keep-waiters key now none s = refl
  keep-waiters key now (some t) s =
      elim (Bool-cases (poolable.can_share t && is_some (lookup key s.idle))) [
        | inl h ↦ rw (h) refl
        | inr h ↦ rw (h) refl
      ]

  put_to-AreOrdered :
      (key : K) (t : T) (now : ℕ) (s : Inner K T W) (o : Option (WaiterList W))
      → ((ws : WaiterList W) → o ≡ some ws → IsOrdered ws)
      → AreOrdered s.waiters
      → AreOrdered (put_to poolable channels key t now s o).0.waiters
  unfolding put_to set_waiters IsOrdered
  put_to-AreOrdered key t now s none is h =
      subst AreOrdered (sym (keep-waiters key now (some t) s)) h
  put_to-AreOrdered key t now s (some ws) is h =
      let d = deliver poolable channels ws.inner t in
      let left : WaiterList W = record ws { inner = d.left } in
      let after = set_waiters key left s in
      subst AreOrdered (sym (keep-waiters key now d.value after))
        (elim (Bool-cases (is_empty left)) [
          | inl gone ↦ rw (gone) (AreOrdered-remove key s.waiters h)
          | inr kept ↦ rw (kept) (
              AreOrdered-insert key left s.waiters h
                (IsRising-deliver poolable channels 0 ws.counter ws.inner t (is ws refl)))
        ])

  connecting-waiters :
      (key : K) (ver : Ver) (s : Inner K T W) → (connecting key ver s).0.waiters ≡ s.waiters
  unfolding connecting
  connecting-waiters key ping_pong s = refl
  connecting-waiters key multiplex s = elim (Bool-cases (contains key s.connecting)) [
    | inl h ↦ rw (h) refl
    | inr h ↦ rw (h) refl
  ]

  take_from-waiters :
      (key : K) (now : ℕ) (s : Inner K T W) (o : Option (List (IdleEntry T)))
      → (take_from poolable channels key now s o).0.waiters ≡ s.waiters
  unfolding take_from
  take_from-waiters key now s none = refl
  take_from-waiters key now s (some list) = refl

  settle_in-waiters :
      (key : K) (now : ℕ) (s : Inner K T W) (r : Reservation T) (o : Option (List (IdleEntry T)))
      → (settle_in poolable channels key now s r o).0.waiters ≡ s.waiters
  unfolding settle_in
  settle_in-waiters key now s (unique t) o = refl
  settle_in-waiters key now s (shared a b) none = refl
  settle_in-waiters key now s (shared a b) (some list) = refl

  leave_from-AreOrdered :
      (key : K) (token : ℕ) (s : Inner K T W) (o : Option (WaiterList W))
      → ((ws : WaiterList W) → o ≡ some ws → IsOrdered ws)
      → AreOrdered s.waiters
      → AreOrdered (leave_from key token s o).waiters
  unfolding leave_from
  leave_from-AreOrdered key token s none is h = h
  leave_from-AreOrdered key token s (some ws) is h =
      AreOrdered-insert key _ _ h (remove_waiter-IsOrdered token ws (is ws refl))

  Step-AreOrdered : {s t : Inner K T W} → Step s t → AreOrdered s.waiters → AreOrdered t.waiters
  unfolding drop_checkout AreOrdered clear_expired drop_connecting connected put take_idle settle
      register
  Step-AreOrdered (expire now) h = h
  Step-AreOrdered (start key ver) h = subst AreOrdered (sym (connecting-waiters key ver _)) h
  Step-AreOrdered (finish key true) h = AreOrdered-remove key _ h
  Step-AreOrdered (finish key false) h = h
  Step-AreOrdered (give key t now) h = put_to-AreOrdered key t now _ _ (h key) h
  Step-AreOrdered (take key now) h = subst AreOrdered (sym (take_from-waiters key now _ _)) h
  Step-AreOrdered (keep_shared key now i) h =
      subst AreOrdered (sym (settle_in-waiters key now _ _ _)) h
  Step-AreOrdered (wait key w room) h =
      AreOrdered-insert key _ _ h
        (insert_waiter-IsOrdered w _ (waiters_of-IsOrdered _ (h key)) room)
  Step-AreOrdered (leave key token false) h = h
  Step-AreOrdered (leave key token true) h = leave_from-AreOrdered key token _ _ (h key) h

  -- The tokens of a list of waiters are all different: in every state that the pool reaches from
  -- one without waiters, by any steps of any callers in any order, with fewer than 2 ^ 64
  -- registrations in a list, each key's callers wait under tokens that rise in the order in which
  -- they came, below the list's counter.
  pub Reach-AreOrdered : {s t : Inner K T W} → s.waiters ≡ [] → Reach s t → AreOrdered t.waiters
  unfolding AreOrdered lookup
  Reach-AreOrdered fresh here =
      λ key ws at. let missing = sym (ap (lookup key) fresh) ∙ at in absurd cc
  Reach-AreOrdered fresh (next r step) = Step-AreOrdered step (Reach-AreOrdered fresh r)
