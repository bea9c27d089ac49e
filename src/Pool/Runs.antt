-- ===== src/Pool/Runs.antt =====
-- volo-thrift/src/transport/pool/mod.rs: connections that are numbers, of which the even ones are
-- shared.
use volo.Base.{
  true, arith, ◌+◌, ◌^◌, ◌<◌, ℕ, ◌≡◌, refl, not, [], ◌∷◌, none, some, ltb, ◌==◌, if◌then◌else◌,
}
use volo.Base.Maps.{nat_eq, lookup, insert}
use volo.Pool.{Reservation, unique, Poolable, Channels, IdleEntry, Inner}
use volo.Pool.Waiters.{
  default, insert_waiter, remove_token, deliver, delivery_of, first_open, deliver-first_open,
}
use volo.Pool.Idle.{take_shared, IsFound, take_shared-IsFound}
use volo.Pool.Steps.{put, clear_expired, register, waiters_of, drop_checkout}
use volo.Pool.Steps.Reach.{Reach, here, next, wait, give, AreOrdered, Reach-AreOrdered}
use volo.Pool.Steps.Stale.{drop_checkout_stale}
use volo.Pool.Steps.Expired.{all_idle, young, IsTight, clear_expired-young}
use volo.Pool.Steps.Bounded.{IsBounded, put-IsBounded}

abbrev poolable : Poolable ℕ
poolable = record {
  reserve = λ t. if ltb t 100 then unique t else Reservation.shared t t;
  can_share = λ t. not (ltb t 100);
  try_checkout = λ t. if ltb t 100 then none else some t;
}

-- Waiter 1 is gone, and waiter 2 goes while the pool sends.
abbrev channels : Channels ℕ
channels = record { is_closed = λ w. w == 1; accepts = λ w. not (w == 2) }

deliver-first_open_example :
    deliver poolable channels ((0, 1) ∷ (1, 2) ∷ (2, 3) ∷ (3, 4) ∷ []) 50
    ≡ delivery_of poolable channels 50
        (first_open poolable channels ((0, 1) ∷ (1, 2) ∷ (2, 3) ∷ (3, 4) ∷ []))
deliver-first_open_example =
    deliver-first_open poolable channels ((0, 1) ∷ (1, 2) ∷ (2, 3) ∷ (3, 4) ∷ []) 50 refl

abbrev idle_at : ℕ → ℕ → IdleEntry ℕ
idle_at t time = record { inner = t; idle_at = time }

take_shared-IsFound_example :
    IsFound poolable
      (some 15)
      40
      (idle_at 7 10 ∷ idle_at 8 30 ∷ idle_at 9 35 ∷ [])
      (take_shared poolable (some 15) 40 (idle_at 7 10 ∷ idle_at 8 30 ∷ idle_at 9 35 ∷ []))
take_shared-IsFound_example =
    take_shared-IsFound poolable (some 15) 40 (idle_at 7 10 ∷ idle_at 8 30 ∷ idle_at 9 35 ∷ [])

abbrev empty_pool : Inner ℕ ℕ ℕ
empty_pool = record { connecting = []; idle = []; waiters = []; timeout = 15; max_idle_per_key = 1 }

empty_pool-IsBounded : IsBounded empty_pool
unfolding lookup
empty_pool-IsBounded key list at = absurd cc

put-IsBounded_example : IsBounded ((put poolable channels 3 50 20 empty_pool).0)
put-IsBounded_example = put-IsBounded poolable channels 3 50 20 empty_pool empty_pool-IsBounded

-- Connection 7 is too old at 40, and connection 8 is not.
abbrev aging_pool : Inner ℕ ℕ ℕ
aging_pool = record empty_pool {
  idle = (3, idle_at 7 10 ∷ idle_at 8 30 ∷ []) ∷ (4, idle_at 9 5 ∷ []) ∷ [];
}

clear_expired-young_example :
    (all_idle (clear_expired 40 aging_pool).idle ≡ young 15 40 (all_idle aging_pool.idle))
    × IsTight (clear_expired 40 aging_pool).idle
clear_expired-young_example = clear_expired-young 40 aging_pool

-- Two callers wait, and a connection comes for the first one.
abbrev one_waits : Inner ℕ ℕ ℕ
one_waits = (register 3 5 empty_pool).0

abbrev two_wait : Inner ℕ ℕ ℕ
two_wait = (register 3 6 one_waits).0

room : (waiters_of (lookup 3 one_waits.waiters)).counter + 1 < 2 ^ 64
unfolding waiters_of lookup register insert_waiter default remove_token insert
room = omega arith

fresh_room : (waiters_of (lookup 3 empty_pool.waiters)).counter + 1 < 2 ^ 64
unfolding waiters_of lookup default
fresh_room = omega arith

two_served : Reach poolable channels empty_pool (put poolable channels 3 50 20 two_wait).0
two_served = next (next (next here (wait 3 5 fresh_room)) (wait 3 6 room)) (give 3 50 20)

Reach-AreOrdered_example : AreOrdered (put poolable channels 3 50 20 two_wait).0.waiters
Reach-AreOrdered_example = Reach-AreOrdered poolable channels refl two_served

drop_checkout_stale_example :
    let (s, first) = register 3 5 empty_pool in
    let (s, sent) = put poolable channels 3 50 20 s in
    let (s, second) = register 3 6 s in
    (sent ≡ (5, 50) ∷ [])
    × ((first ≡ second)
        × ((waiters_of (lookup 3 (drop_checkout 3 first true s).waiters)).inner ≡ []))
unfolding lookup
drop_checkout_stale_example =
    drop_checkout_stale poolable channels 3 5 6 50 20 empty_pool refl refl refl refl
