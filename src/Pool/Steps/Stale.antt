-- ===== src/Pool/Steps/Stale.antt =====
-- volo-thrift/src/transport/pool/mod.rs: a checkout that is dropped after its list of waiters.
use volo.Base.{ℕ, ◌≡◌, refl, ◌∙◌, ap, true, false, [], ◌∷◌, none, some}
use volo.Base.Maps.{Eq, Map, lookup, insert, remove, lookup-insert, lookup-remove}
use volo.Pool.{unique, Poolable, Channels, WaiterList, Inner}
use volo.Pool.Waiters.{
  default, is_empty, insert_waiter, remove_waiter, remove_token, deliver, offer, hand,
}
use volo.Pool.Steps.{
  set_waiters, keep, put_to, put, waiters_of, register, leave_from, drop_checkout,
}

abbrev lone : {W : Type 0} → W → WaiterList W
lone w = record { inner = (0, w) ∷ []; counter = 1 }

module _ {K : Type 0} ⦃e : Eq K⦄ where
  beq_self : (k : K) → e.beq k k ≡ true
  beq_self k = (e.beq_iff k k).1 refl

module _ {K V : Type 0} ⦃e : Eq K⦄ where
  lookup-insert_self : (k : K) (v : V) (m : Map K V) → lookup k (insert k v m) ≡ some v
  lookup-insert_self k v m = lookup-insert k k v m ∙ rw (beq_self k) refl

  lookup-remove_self : (k : K) (m : Map K V) → lookup k (remove k m) ≡ none
  lookup-remove_self k m = lookup-remove k k m ∙ rw (beq_self k) refl

module _ {K T W : Type 0} ⦃e : Eq K⦄ where
  register-lone :
      (key : K) (w : W) (s : Inner K T W)
      → lookup key s.waiters ≡ none
      → register key w s ≡ (record s { waiters = insert key (lone w) s.waiters }, 0)
  unfolding register waiters_of insert_waiter default remove_token
  register-lone key w s h = rw (h) refl

  drop-lone :
      (key : K) (w : W) (s : Inner K T W)
      → lookup key s.waiters ≡ some (lone w)
      → drop_checkout key 0 true s
        ≡ record s { waiters = insert key (record { inner = []; counter = 1 }) s.waiters }
  unfolding drop_checkout leave_from remove_waiter remove_token
  drop-lone key w s h = rw (h) refl

  module _ (poolable : Poolable T) (channels : Channels W) where
    put-lone :
        (key : K) (a : W) (t : T) (now : ℕ) (s : Inner K T W)
        → lookup key s.waiters ≡ some (lone a)
        → poolable.reserve t ≡ unique t
        → channels.is_closed a ≡ false
        → channels.accepts a ≡ true
        → put poolable channels key t now s
          ≡ (record s { waiters = remove key s.waiters }, (a, t) ∷ [])
    unfolding put put_to deliver offer hand set_waiters is_empty keep
    put-lone key a t now s h r c k = rw (h, c, r, k) refl

    -- A caller waits, is sent a connection that is not shared, and is dropped before it has
    -- received it, when another caller has begun to wait for the same key: both waited under the
    -- same token, since the list was dropped in between and its counter with it, and so the drop of
    -- the first caller takes the second one off the list. The second caller waits no more, and no
    -- connection that is put back later is sent to it.
    pub drop_checkout_stale :
        (key : K) (a b : W) (t : T) (now : ℕ) (s : Inner K T W)
        → lookup key s.waiters ≡ none
        → poolable.reserve t ≡ unique t
        → channels.is_closed a ≡ false
        → channels.accepts a ≡ true
        → let (s, first) = register key a s in
          let (s, sent) = put poolable channels key t now s in
          let (s, second) = register key b s in
          (sent ≡ (a, t) ∷ [])
          × ((first ≡ second)
              × ((waiters_of (lookup key (drop_checkout key first true s).waiters)).inner ≡ []))
    unfolding waiters_of
    drop_checkout_stale key a b t now s h r c k =
        let first = register-lone key a s h in
        let m = insert key (lone a) s.waiters in
        let given =
          put-lone key a t now (record s { waiters = m })
            (lookup-insert_self key (lone a) s.waiters) r c k in
        let second =
          register-lone key b (record s { waiters = remove key m }) (lookup-remove_self key m) in
        let left = insert key (lone b) (remove key m) in
        let dropped =
          drop-lone key b (record s { waiters = left })
            (lookup-insert_self key (lone b) (remove key m)) in
        rw (first, given, second, dropped)
          (refl, (refl, ap (λ o. (waiters_of o).inner) (lookup-insert_self key _ left)))
