-- ===== src/Pool/Steps/Tokens.antt =====
-- volo-thrift/src/transport/pool/mod.rs: the tokens under which the callers of a key wait.
use volo.Base.{
  ℕ, suc, ◌+◌, ◌%◌, ◌^◌, ◌≤◌, ◌<◌, ◌≡◌, refl, Bool, true, false, List, [], ◌∷◌, ◌++◌, inl, inr,
  arith, ◌==◌, Bool-cases,
}
use volo.Pool.{Reservation, shared, unique, Poolable, Channels, WaiterList}
use volo.Pool.Waiters.{
  default, remove_token, insert_waiter, remove_waiter, Delivery, add_sent, hand, offer, deliver,
}

module _ {W : Type 0} where
  -- The tokens rise from `lo`, and stay below `hi`.
  unfoldable pub IsRising : ℕ → ℕ → List (ℕ × W) → Type 0
  IsRising lo hi [] = lo ≤ hi
  IsRising lo hi ((i, w) ∷ ws) = (lo ≤ i) × IsRising (suc i) hi ws

  pub IsRising-from :
      (lo mid hi : ℕ) (ws : List (ℕ × W)) → lo ≤ mid → IsRising mid hi ws → IsRising lo hi ws
  unfolding IsRising
  IsRising-from lo mid hi [] h r = omega arith
  IsRising-from lo mid hi ((i, w) ∷ ws) h r = (omega (arith, r.0), r.1)

  IsRising-bound : (lo hi : ℕ) (ws : List (ℕ × W)) → IsRising lo hi ws → lo ≤ hi
  unfolding IsRising
  IsRising-bound lo hi [] r = r
  IsRising-bound lo hi ((i, w) ∷ ws) r = omega (arith, r.0, IsRising-bound (suc i) hi ws r.1)

  pub IsRising-remove_token :
      (index lo hi : ℕ) (ws : List (ℕ × W))
      → IsRising lo hi ws
      → IsRising lo hi (remove_token index ws)
  unfolding IsRising remove_token
  IsRising-remove_token index lo hi [] r = r
  IsRising-remove_token index lo hi ((i, w) ∷ ws) r =
      let rest = IsRising-remove_token index (suc i) hi ws r.1 in
      elim (Bool-cases (i == index)) [
        | inl e ↦
            rw (e) (IsRising-from lo (suc i) hi (remove_token index ws) (omega (arith, r.0)) rest)
        | inr e ↦ rw (e) (r.0, rest)
      ]

  -- A token that is too large is not there.
  remove_token_above : (lo hi : ℕ) (ws : List (ℕ × W)) → IsRising lo hi ws → remove_token hi ws ≡ ws
  unfolding IsRising remove_token
  remove_token_above lo hi [] r = refl
  remove_token_above lo hi ((i, w) ∷ ws) r =
      let below = IsRising-bound (suc i) hi ws r.1 in
      ground (arith, below, remove_token_above (suc i) hi ws r.1)

  IsRising-snoc :
      (lo hi : ℕ) (ws : List (ℕ × W)) (w : W)
      → IsRising lo hi ws
      → IsRising lo (suc hi) (ws ++ ((hi, w) ∷ []))
  unfolding IsRising
  IsRising-snoc lo hi [] w r = (r, omega arith)
  IsRising-snoc lo hi ((i, v) ∷ ws) w r = (r.0, IsRising-snoc (suc i) hi ws w r.1)

  -- The tokens of the waiters are those of a counter that has not wrapped.
  unfoldable pub IsOrdered : WaiterList W → Type 0
  IsOrdered ws = IsRising 0 ws.counter ws.inner

  pub insert_waiter-IsOrdered :
      (w : W) (ws : WaiterList W)
      → IsOrdered ws
      → ws.counter + 1 < 2 ^ 64
      → IsOrdered (insert_waiter w ws).0
  unfolding IsOrdered insert_waiter
  insert_waiter-IsOrdered w ws r small =
      let same : (ws.counter + 1) % 2 ^ 64 ≡ suc ws.counter = omega arith in
      rw (same, remove_token_above 0 ws.counter ws.inner r)
        (IsRising-snoc 0 ws.counter ws.inner w r)

  pub remove_waiter-IsOrdered :
      (index : ℕ) (ws : WaiterList W) → IsOrdered ws → IsOrdered (remove_waiter index ws)
  unfolding IsOrdered remove_waiter
  remove_waiter-IsOrdered index ws r = IsRising-remove_token index 0 ws.counter ws.inner r

pub default-IsOrdered : (W : Type 0) → IsOrdered {W = W} default
unfolding IsOrdered default IsRising
default-IsOrdered W = omega arith

module _ {T W : Type 0} (poolable : Poolable T) (channels : Channels W) where
  IsRising-hand :
      (lo hi : ℕ) (w : W) (ws : List (ℕ × W)) (more : T → Delivery T W) (taken : Bool)
      (o : Reservation T)
      → IsRising lo hi ws
      → ((t : T) → IsRising lo hi (more t).left)
      → IsRising lo hi (hand poolable channels w ws more taken o).left
  unfolding hand add_sent
  IsRising-hand lo hi w ws more true (shared to_keep to_send) r h = h to_keep
  IsRising-hand lo hi w ws more false (shared to_keep to_send) r h = h to_send
  IsRising-hand lo hi w ws more true (unique t) r h = r
  IsRising-hand lo hi w ws more false (unique t) r h = h t

  IsRising-offer :
      (lo hi : ℕ) (w : W) (ws : List (ℕ × W)) (more : T → Delivery T W) (closed : Bool) (t : T)
      → IsRising lo hi ws
      → ((t : T) → IsRising lo hi (more t).left)
      → IsRising lo hi (offer poolable channels w ws more closed t).left
  unfolding offer
  IsRising-offer lo hi w ws more true t r h = h t
  IsRising-offer lo hi w ws more false t r h = IsRising-hand lo hi w ws more _ _ r h

  pub IsRising-deliver :
      (lo hi : ℕ) (ws : List (ℕ × W)) (t : T)
      → IsRising lo hi ws
      → IsRising lo hi (deliver poolable channels ws t).left
  unfolding deliver IsRising
  IsRising-deliver lo hi [] t r = r
  IsRising-deliver lo hi ((i, w) ∷ ws) t r = IsRising-from lo (suc i) hi _ (omega (arith, r.0)) (
      IsRising-offer (suc i) hi w ws (deliver poolable channels ws) (channels.is_closed w) t r.1
        (λ u. IsRising-deliver (suc i) hi ws u r.1))
