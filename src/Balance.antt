-- ===== src/Balance.antt =====
-- volo/src/discovery and volo/src/loadbalance: instances, their changes, and two load balancers.
-- An address is of any type `A` with an equality test.
pub mod Discovery
pub mod Random
pub mod Hash
mod Runs
use volo.Base.{ℕ, Bool, true, false, ◌||◌, List, [], ◌∷◌, Option}
use volo.Base.Bytes.{Bytes}
use volo.Base.Maps.{Map, Eq}

pub record Instance (A : Type 0) : Type 0 where
  pub address : A
  pub weight : ℕ
  pub tags : Map Bytes Bytes

-- `HashSet::contains`, on the list of what was inserted.
unfoldable pub contains {ℓ} : {A : Type ℓ} ⦃e : Eq A⦄ → A → List A → Bool
contains a [] = false
contains ⦃e⦄ a (x ∷ xs) = e.beq x a || contains a xs
