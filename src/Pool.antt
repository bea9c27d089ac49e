-- ===== src/Pool.antt =====
-- volo-thrift/src/transport/pool/mod.rs: the pool of connections. The futures of a checkout and of
-- a connector run elsewhere; a step of the pool under its lock is a function on `Inner`. Times are
-- numbers, with the clock's value as an argument.
pub mod Waiters
pub mod Idle
pub mod Steps
mod Runs
use volo.Base.{ℕ, Bool, List, Option}
use volo.Base.Maps.{Map}

-- What `Poolable` gives: `Reservation` and the calls of a connection.
pub data Reservation (T : Type 0) : Type 0 where
  shared : T → T → Reservation T
  unique : T → Reservation T

pub record Poolable (T : Type 0) : Type 0 where
  pub reserve : T → Reservation T
  pub can_share : T → Bool
  pub try_checkout : T → Option T

-- The sending half `W` of a channel: whether its receiver is gone when the pool asks, and whether
-- it takes a value when the pool sends one.
pub record Channels (W : Type 0) : Type 0 where
  pub is_closed : W → Bool
  pub accepts : W → Bool

pub record IdleEntry (T : Type 0) : Type 0 where
  pub inner : T
  pub idle_at : ℕ

pub record WaiterList (W : Type 0) : Type 0 where
  pub inner : List (ℕ × W)
  pub counter : ℕ

pub record Inner (K T W : Type 0) : Type 0 where
  pub connecting : List K
  pub idle : Map K (List (IdleEntry T))
  pub waiters : Map K (WaiterList W)
  pub timeout : ℕ
  pub max_idle_per_key : ℕ
