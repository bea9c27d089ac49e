-- ===== src/Pool/Steps.antt =====
-- volo-thrift/src/transport/pool/mod.rs: the steps of the pool under its lock.
pub mod Bounded
pub mod Expired
pub mod Tokens
pub mod Reach
pub mod Stale
use volo.Base.{
  ℕ, Bool, true, false, not, ◌&&◌, List, [], ◌∷◌, ◌++◌, Option, none, some, ltb, if◌then◌else◌,
  length,
}
use volo.Base.Maps.{Eq, Map, lookup, insert, remove}
use volo.Balance.{contains}
use volo.Pool.{Reservation, shared, unique, Poolable, Channels, IdleEntry, WaiterList, Inner}
use volo.Pool.Waiters.{default, is_empty, insert_waiter, remove_waiter, Delivery, deliver}
use volo.Pool.Idle.{clear_lists, Found, checked_out, entry, nothing, take_shared, take_entry}

pub data Ver : Type 0 where
  ping_pong multiplex : Ver

-- A connection that was given out; `pooled` says whether it holds a reference to its pool.
pub record Pooled (K T : Type 0) : Type 0 where
  pub key : K
  pub t : T
  pub pooled : Bool

unfoldable pub or_default {ℓ} : {A : Type ℓ} → Option (List A) → List A
or_default none = []
or_default (some xs) = xs

unfoldable pub is_some {ℓ} : {A : Type ℓ} → Option A → Bool
is_some none = false
is_some (some a) = true

module _ {K : Type 0} ⦃e : Eq K⦄ where
  unfoldable pub remove_key : K → List K → List K
  remove_key key [] = []
  remove_key key (k ∷ ks) = if e.beq k key then remove_key key ks else k ∷ remove_key key ks

unfoldable pub waiters_of : {W : Type 0} → Option (WaiterList W) → WaiterList W
waiters_of none = default
waiters_of (some ws) = ws

module _ {K T W : Type 0} ⦃e : Eq K⦄ where
  unfoldable pub clear_expired : ℕ → Inner K T W → Inner K T W
  clear_expired now s = record s { idle = clear_lists s.timeout now s.idle }

  unfoldable pub connected : K → Inner K T W → Inner K T W
  connected key s = record s {
    connecting = remove_key key s.connecting;
    waiters = remove key s.waiters;
  }

  -- The key, and whether dropping the `Connecting` reports to the pool.
  unfoldable pub connecting : K → Ver → Inner K T W → Inner K T W × Option (K × Bool)
  connecting key multiplex s =
      if contains key s.connecting
      then (s, none)
      else (record s { connecting = key ∷ s.connecting }, some (key, true))
  connecting key ping_pong s = (s, some (key, false))

  unfoldable pub drop_connecting : K × Bool → Inner K T W → Inner K T W
  drop_connecting (key, true) s = connected key s
  drop_connecting (key, false) s = s

  unfoldable pub push_idle : K → T → ℕ → Inner K T W → Inner K T W
  push_idle key t now s =
      let list = or_default (lookup key s.idle) in
      record s {
        idle =
            insert key
              (if ltb (length list) s.max_idle_per_key
                then list ++ (record { inner = t; idle_at = now } ∷ [])
                else list)
              s.idle;
      }

  unfoldable pub set_waiters : K → WaiterList W → Inner K T W → Inner K T W
  set_waiters key ws s = record s {
    waiters = if is_empty ws then remove key s.waiters else insert key ws s.waiters;
  }

  module _ (poolable : Poolable T) (channels : Channels W) where
    unfoldable pub keep : K → ℕ → Option T → Inner K T W → Inner K T W
    keep key now none s = s
    keep key now (some t) s =
        if poolable.can_share t && is_some (lookup key s.idle) then s else push_idle key t now s

    unfoldable pub put_to :
        K → T → ℕ → Inner K T W → Option (WaiterList W) → Inner K T W × List (W × T)
    put_to key t now s none = (keep key now (some t) s, [])
    put_to key t now s (some ws) =
        let d = deliver poolable channels ws.inner t in
        (keep key now d.value (set_waiters key (record ws { inner = d.left }) s), d.sent)

    -- The state, and what was sent to the waiters.
    unfoldable pub put : K → T → ℕ → Inner K T W → Inner K T W × List (W × T)
    put key t now s = put_to key t now s (lookup key s.waiters)

    unfoldable pub pooled_reserved :
        K → ℕ → Reservation T → Inner K T W → (Inner K T W × List (W × T)) × Pooled K T
    pooled_reserved key now (shared to_insert to_return) s =
        let (s, sent) = put key to_insert now s in
        ((connected key s, sent), record { key = key; t = to_return; pooled = false })
    pooled_reserved key now (unique value) s =
        ((s, []), record { key = key; t = value; pooled = true })

    -- A new connection, whose `Connecting` is told to report no more where it is shared.
    unfoldable pub pooled : K → T → ℕ → Inner K T W → (Inner K T W × List (W × T)) × Pooled K T
    pooled key value now s = pooled_reserved key now (poolable.reserve value) s

    unfoldable pub reuse : K → T → Pooled K T
    reuse key value = record { key = key; t = value; pooled = not (poolable.can_share value) }

    -- `Pooled::reuse`: `reusable` is the answer of the connection, `alive` whether the pool is.
    unfoldable pub give_back :
        Pooled K T → Bool → Bool → ℕ → Inner K T W → Inner K T W × List (W × T)
    give_back p reusable alive now s =
        if reusable && (p.pooled && alive) then put p.key p.t now s else (s, [])

    -- The first part of `get`: from the idle connections of the key.
    unfoldable pub take_from :
        K → ℕ → Inner K T W → Option (List (IdleEntry T)) → Inner K T W × Found T
    take_from key now s none = (s, nothing)
    take_from key now s (some list) =
        let (left, found) = take_shared poolable (some s.timeout) now list in
        (record s { idle = insert key left s.idle }, found)

    unfoldable pub take_idle : K → ℕ → Inner K T W → Inner K T W × Found T
    take_idle key now s = take_from key now s (lookup key s.idle)

    -- The second part: an entry that is reusable.
    unfoldable pub settle_in :
        K → ℕ → Inner K T W → Reservation T → Option (List (IdleEntry T)) → Inner K T W × Pooled K T
    settle_in key now s (unique t) list = (s, reuse key t)
    settle_in key now s (shared to_reinsert to_return) none = (s, reuse key to_return)
    settle_in key now s (shared to_reinsert to_return) (some list) = (
      record s {
        idle = insert key (list ++ (record { inner = to_reinsert; idle_at = now } ∷ [])) s.idle;
      },
      reuse key to_return,
    )

    unfoldable pub settle : K → ℕ → IdleEntry T → Inner K T W → Inner K T W × Pooled K T
    settle key now found s = settle_in key now s (poolable.reserve found.inner) (lookup key s.idle)

  -- The last part: no idle connection, so the caller waits, under a token.
  unfoldable pub register : K → W → Inner K T W → Inner K T W × ℕ
  register key sender s =
      let (ws, token) = insert_waiter sender (waiters_of (lookup key s.waiters)) in
      (record s { waiters = insert key ws s.waiters }, token)

  unfoldable pub leave_from : K → ℕ → Inner K T W → Option (WaiterList W) → Inner K T W
  leave_from key token s none = s
  leave_from key token s (some ws) = record s {
    waiters = insert key (remove_waiter token ws) s.waiters;
  }

  -- `Checkout::drop`: `clean` is down once a connection has been received.
  unfoldable pub drop_checkout : K → ℕ → Bool → Inner K T W → Inner K T W
  drop_checkout key token false s = s
  drop_checkout key token true s = leave_from key token s (lookup key s.waiters)
