-- ===== src/Pool/Idle.antt =====
-- volo-thrift/src/transport/pool/mod.rs: the idle connections of a key.
use volo.Base.{
  ℕ, ◌-◌, ◌≡◌, refl, ap, Bool, true, false, List, [], ◌∷◌, ◌++◌, Option, none, some, ltb,
  if◌then◌else◌, Bool-cases, inl, inr,
}
use volo.Base.Maps.{Map}
use volo.Pool.{Poolable, IdleEntry}

-- `Expiration::expires`, and the test of `clear_expired`: a difference of times stops at 0.
unfoldable pub expires : Option ℕ → ℕ → ℕ → Bool
expires none now instant = false
expires (some timeout) now instant = ltb timeout (now - instant)

module _ {T : Type 0} where
  unfoldable pub retain_fresh : ℕ → ℕ → List (IdleEntry T) → List (IdleEntry T)
  retain_fresh timeout now [] = []
  retain_fresh timeout now (e ∷ es) =
      let rest = retain_fresh timeout now es in
      if ltb timeout (now - e.idle_at) then rest else e ∷ rest

  unfoldable pub keep_list :
      {K : Type 0}
      → K
      → List (IdleEntry T)
      → Map K (List (IdleEntry T))
      → Map K (List (IdleEntry T))
  keep_list key [] rest = rest
  keep_list key (e ∷ es) rest = (key, e ∷ es) ∷ rest

  unfoldable pub clear_lists :
      {K : Type 0} → ℕ → ℕ → Map K (List (IdleEntry T)) → Map K (List (IdleEntry T))
  clear_lists timeout now [] = []
  clear_lists timeout now ((key, values) ∷ idle) =
      keep_list key (retain_fresh timeout now values) (clear_lists timeout now idle)

-- What a `get` finds under the lock: a shared connection that it returns at once, an entry whose
-- connection it has yet to test, or nothing.
pub data Found (T : Type 0) : Type 0 where
  checked_out : T → Found T
  entry : IdleEntry T → Found T
  nothing : Found T

module _ {T : Type 0} (poolable : Poolable T) (expiration : Option ℕ) (now : ℕ) where
  abbrev pub AllExpired : List (IdleEntry T) → Type 0
  AllExpired [] = Unit {0}
  AllExpired (e ∷ es) = (expires expiration now e.idle_at ≡ true) × AllExpired es

  -- The second loop: entries that have expired are dropped.
  unfoldable pub take_entry : List (IdleEntry T) → List (IdleEntry T) × Found T
  take_entry [] = ([], nothing)
  take_entry (e ∷ list) =
      let rest = take_entry list in
      if expires expiration now e.idle_at then rest else (list, entry e)

  unfoldable pub check_out :
      IdleEntry T → List (IdleEntry T) → Option T → List (IdleEntry T) × Found T
  check_out e list (some conn) = (record e { idle_at = now } ∷ list, checked_out conn)
  check_out e list none = take_entry (e ∷ list)

  -- The first loop, over connections that can be shared.
  unfoldable pub take_shared : List (IdleEntry T) → List (IdleEntry T) × Found T
  take_shared [] = ([], nothing)
  take_shared (e ∷ list) =
      let rest = take_shared list in
      if poolable.can_share e.inner
      then (if expires expiration now e.idle_at
          then rest
          else check_out e list (poolable.try_checkout e.inner))
      else take_entry (e ∷ list)

  -- What is found among some entries: one of them that has not expired, or nothing where all
  -- have. The entries that are left are the others behind it.
  pub data IsFound (list : List (IdleEntry T)) : List (IdleEntry T) × Found T → Type 0 where
    found_shared :
        (dropped left : List (IdleEntry T)) (e : IdleEntry T) (conn : T)
        → list ≡ dropped ++ (e ∷ left)
        → AllExpired dropped
        → expires expiration now e.idle_at ≡ false
        → poolable.try_checkout e.inner ≡ some conn
        → IsFound list (record e { idle_at = now } ∷ left, checked_out conn)
    found_entry :
        (dropped left : List (IdleEntry T)) (e : IdleEntry T)
        → list ≡ dropped ++ (e ∷ left)
        → AllExpired dropped
        → expires expiration now e.idle_at ≡ false
        → IsFound list (left, entry e)
    found_nothing : AllExpired list → IsFound list ([], nothing)

  -- An entry that has expired is dropped, and the search goes on.
  IsFound-cons :
      (e : IdleEntry T) (list : List (IdleEntry T)) (r : List (IdleEntry T) × Found T)
      → expires expiration now e.idle_at ≡ true
      → IsFound list r
      → IsFound (e ∷ list) r
  IsFound-cons e list _ h (found_shared dropped left f conn same old fresh out) =
      found_shared (e ∷ dropped) left f conn (ap (λ l. e ∷ l) same) (h, old) fresh out
  IsFound-cons e list _ h (found_entry dropped left f same old fresh) =
      found_entry (e ∷ dropped) left f (ap (λ l. e ∷ l) same) (h, old) fresh
  IsFound-cons e list _ h (found_nothing old) = found_nothing (h, old)

  take_entry-IsFound : (list : List (IdleEntry T)) → IsFound list (take_entry list)
  unfolding take_entry
  take_entry-IsFound [] = found_nothing tt
  take_entry-IsFound (e ∷ list) = elim (Bool-cases (expires expiration now e.idle_at)) [
    | inl h ↦ rw h (IsFound-cons e list _ h (take_entry-IsFound list))
    | inr h ↦ rw h (found_entry [] list e refl tt h)
  ]

  check_out-IsFound :
      (e : IdleEntry T) (list : List (IdleEntry T)) (o : Option T)
      → expires expiration now e.idle_at ≡ false
      → poolable.try_checkout e.inner ≡ o
      → IsFound (e ∷ list) (check_out e list o)
  unfolding check_out
  check_out-IsFound e list none h k = take_entry-IsFound (e ∷ list)
  check_out-IsFound e list (some conn) h k = found_shared [] list e conn refl tt h k

  -- What the two loops of `get` find among the idle connections of a key: a connection that has
  -- not expired, behind connections that have all expired, and these are dropped; or nothing, and
  -- then every connection has expired. A connection that is checked out at once stays in the pool,
  -- with its time set to now; any other that is found leaves the pool.
  pub take_shared-IsFound : (list : List (IdleEntry T)) → IsFound list (take_shared list)
  unfolding take_shared
  take_shared-IsFound [] = found_nothing tt
  take_shared-IsFound (e ∷ list) = elim (Bool-cases (poolable.can_share e.inner)) [
    | inr h ↦ rw h (take_entry-IsFound (e ∷ list))
    | inl h ↦ elim (Bool-cases (expires expiration now e.idle_at)) [
      | inl k ↦ rw (h, k) (IsFound-cons e list _ k (take_shared-IsFound list))
      | inr k ↦ rw (h, k) (check_out-IsFound e list _ k refl)
    ]
  ]
