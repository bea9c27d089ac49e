-- ===== src/Pool/Waiters.antt =====
-- volo-thrift/src/transport/pool/mod.rs: the waiters of a key, and a connection that is handed to
-- them.
use volo.Base.{
  ℕ, ◌+◌, ◌%◌, ◌^◌, ◌≡◌, refl, Bool, true, false, not, ◌&&◌, List, [], ◌∷◌, ◌++◌, Option, none,
  some, ◌==◌, if◌then◌else◌,
}
use volo.Pool.{Reservation, shared, unique, Poolable, Channels, WaiterList}

module _ {W : Type 0} where
  unfoldable pub default : WaiterList W
  default = record { inner = []; counter = 0 }

  unfoldable pub is_empty : WaiterList W → Bool
  is_empty ws = elim ws.inner [ [] ↦ true | x ∷ xs ↦ false ]

  unfoldable pub remove_token : ℕ → List (ℕ × W) → List (ℕ × W)
  remove_token index [] = []
  remove_token index ((i, w) ∷ ws) =
      if i == index then remove_token index ws else (i, w) ∷ remove_token index ws

  -- A linked hash map moves a key that it has to the back.
  unfoldable pub insert_waiter : W → WaiterList W → WaiterList W × ℕ
  insert_waiter sender ws = (
    record {
      inner = remove_token ws.counter ws.inner ++ ((ws.counter, sender) ∷ []);
      counter = (ws.counter + 1) % 2 ^ 64;
    },
    ws.counter,
  )

  unfoldable pub remove_waiter : ℕ → WaiterList W → WaiterList W
  remove_waiter index ws = record ws { inner = remove_token index ws.inner }

-- The waiters that are left, the value that is left, and what was sent, in order.
pub record Delivery (T W : Type 0) : Type 0 where
  pub left : List (ℕ × W)
  pub value : Option T
  pub sent : List (W × T)

module _ {T W : Type 0} (poolable : Poolable T) (channels : Channels W) where
  unfoldable pub add_sent : W → T → Delivery T W → Delivery T W
  add_sent w t d = record d { sent = (w, t) ∷ d.sent }

  -- A value that is not taken comes back, in place of what was kept of it.
  unfoldable pub hand : W → List (ℕ × W) → (T → Delivery T W) → Bool → Reservation T → Delivery T W
  hand w ws more true (shared to_keep to_send) = add_sent w to_send (more to_keep)
  hand w ws more false (shared to_keep to_send) = more to_send
  hand w ws more true (unique t) = record { left = ws; value = none; sent = (w, t) ∷ [] }
  hand w ws more false (unique t) = more t

  unfoldable pub offer : W → List (ℕ × W) → (T → Delivery T W) → Bool → T → Delivery T W
  offer w ws more true t = more t
  offer w ws more false t = hand w ws more (channels.accepts w) (poolable.reserve t)

  -- `while let Some(waiter) = waiters.pop()`.
  unfoldable pub deliver : List (ℕ × W) → T → Delivery T W
  deliver [] t = record { left = []; value = some t; sent = [] }
  deliver ((i, w) ∷ ws) t = offer w ws (deliver ws) (channels.is_closed w) t

  -- The first waiter that takes a value, and those behind it.
  unfoldable pub first_open : List (ℕ × W) → Option (W × List (ℕ × W))
  first_open [] = none
  first_open ((i, w) ∷ ws) =
      if not (channels.is_closed w) && channels.accepts w then some (w, ws) else first_open ws

  unfoldable pub delivery_of : T → Option (W × List (ℕ × W)) → Delivery T W
  delivery_of t none = record { left = []; value = some t; sent = [] }
  delivery_of t (some (w, ws)) = record { left = ws; value = none; sent = (w, t) ∷ [] }

  offered :
      (w : W) (ws : List (ℕ × W)) (t : T) (closed accepts : Bool)
      → poolable.reserve t ≡ unique t
      → channels.is_closed w ≡ closed
      → channels.accepts w ≡ accepts
      → deliver ws t ≡ delivery_of t (first_open ws)
      → offer w ws (deliver ws) (channels.is_closed w) t
        ≡ delivery_of t (
            if not (channels.is_closed w) && channels.accepts w
            then some (w, ws)
            else first_open ws)
  unfolding offer hand delivery_of
  offered w ws t true accepts h c a rest = rw c rest
  offered w ws t false true h c a rest = rw (c, a, h) refl
  offered w ws t false false h c a rest = rw (c, a, h) rest

  -- A connection that is not shared goes to the waiter that has waited longest of those whose
  -- receiver takes it, and to that one only; the waiters before it are dropped and those behind
  -- it keep their places. It is kept exactly when no waiter takes it.
  pub deliver-first_open :
      (ws : List (ℕ × W)) (t : T)
      → poolable.reserve t ≡ unique t
      → deliver ws t ≡ delivery_of t (first_open ws)
  unfolding deliver first_open delivery_of
  deliver-first_open [] t h = refl
  deliver-first_open ((i, w) ∷ ws) t h = offered w ws t _ _ h refl refl (deliver-first_open ws t h)
