-- ===== src/Multiplex/Pooled.antt =====
-- volo-thrift/src/transport/multiplex/thrift_transport.rs: the transport as a connection of the pool,
-- volo-thrift/src/transport/pool/mod.rs.
mod Runs
use volo.Base.{
  ℕ, ◌≡◌, ◌≢◌, refl, sym, ◌∙◌, ap, subst, Bool, true, false, List, [], ◌∷◌, Option, none, some,
}
use volo.Multiplex.{Reader, stopped, Transport, Requests, try_checkout}
use volo.Multiplex.Steps.{IsFresh, Reach}
use volo.Multiplex.Steps.Retired.{stopped-reusable}
use volo.Pool.{Reservation, shared, Poolable, IdleEntry}
use volo.Pool.Idle.{
  expires, Found, checked_out, entry, nothing, take_shared, IsFound, found_shared, found_entry,
  found_nothing, take_shared-IsFound,
}

module _ {X E : Type 0} where
  -- A clone is the same connection.
  unfoldable pub same_handle : ℕ → Option (Transport X E) → Option ℕ
  same_handle t none = none
  same_handle t (some s) = some t

  -- A connection is a number, and its state what the pool finds when it asks.
  unfoldable pub poolable : (ℕ → Transport X E) → Poolable ℕ
  poolable state = record {
    reserve = λ t. shared t t;
    can_share = λ t. true;
    try_checkout = λ t. same_handle t (try_checkout (state t));
  }

  same_handle-some :
      (t c : ℕ) (o : Option (Transport X E)) → same_handle t o ≡ some c → (t ≡ c) × (o ≢ none)
  unfolding same_handle
  same_handle-some t c none h = absurd cc
  same_handle-some t c (some s) h = (cc, λ e. cc)

module _ {X E : Type 0} (seq_of : X → ℕ) (r : ℕ → Requests) (start state : ℕ → Transport X E)
    (expiration : Option ℕ) (now : ℕ) where
  found-running :
      (list : List (IdleEntry ℕ)) (out : List (IdleEntry ℕ) × Found ℕ) (c : ℕ)
      → ((t : ℕ) → IsFresh (start t))
      → ((t : ℕ) → Reach seq_of (r t) (start t) (state t))
      → IsFound (poolable state) expiration now list out
      → out.1 ≡ checked_out c
      → (state c).reader ≢ stopped
  unfolding poolable
  found-running list _ c fresh run (found_shared dropped left e conn same old young got) at =
      let (handle, given) = same_handle-some e.inner conn (try_checkout (state e.inner)) got in
      let is : conn ≡ c = cc in
      subst (λ t. (state t).reader ≢ stopped) (handle ∙ is)
        (λ ended. given (stopped-reusable seq_of (r e.inner) (fresh e.inner) (run e.inner) ended).1)
  found-running list _ c fresh run (found_entry dropped left e same old young) at = absurd cc
  found-running list _ c fresh run (found_nothing old) at = absurd cc

  -- Whatever the calls on the connections of the pool have done before, in any order: a connection
  -- that a new call is given at once from the idle connections of its key is one whose reading
  -- task has not ended.
  pub take_shared-running :
      (list : List (IdleEntry ℕ)) (c : ℕ)
      → ((t : ℕ) → IsFresh (start t))
      → ((t : ℕ) → Reach seq_of (r t) (start t) (state t))
      → (take_shared (poolable state) expiration now list).1 ≡ checked_out c
      → (state c).reader ≢ stopped
  take_shared-running list c fresh run at =
      found-running list _ c fresh run (take_shared-IsFound (poolable state) expiration now list) at
