-- ===== src/Balance/Random.antt =====
-- volo/src/loadbalance/random.rs: the weighted random balancer. The random number and the standard
-- library's binary search are arguments; sums of weights do not reach 2 ^ 64.
pub mod Bounds
pub mod Cycle
use volo.Base.{
  ℕ, ◌+◌, Bool, true, false, List, [], ◌∷◌, Option, none, some, ltb, ◌==◌, if◌then◌else◌, length,
  get_elem?,
}
use volo.Base.Maps.{Map, Eq, lookup, insert}
use volo.Balance.{Instance}
use volo.Balance.Discovery.{Change, is_empty}

pub record WeightedInstances (A : Type 0) : Type 0 where
  pub sum_of_weights : ℕ
  pub prefix_sum_of_weights : List ℕ
  pub instances : List (Instance A)

-- `Result<usize, usize>` of `binary_search`.
pub data Search : Type 0 where
  found missing_at : ℕ → Search

unfoldable pub unwrap_or_index : Search → ℕ
unwrap_or_index (found i) = i
unwrap_or_index (missing_at i) = i

-- `panicked` is an index out of bounds.
pub data Picked {ℓ} (B : Type ℓ) : Type ℓ where
  picked : B → Picked B
  nothing : Picked B
  panicked : Picked B

module _ {A : Type 0} where
  unfoldable pub sum_from : ℕ → List (Instance A) → ℕ
  sum_from sum [] = sum
  sum_from sum (i ∷ is) = sum_from (sum + i.weight) is

  unfoldable pub prefix_sums : ℕ → List (Instance A) → List ℕ
  prefix_sums sum [] = []
  prefix_sums sum (i ∷ is) = (sum + i.weight) ∷ prefix_sums (sum + i.weight) is

  unfoldable pub from_instances : List (Instance A) → WeightedInstances A
  from_instances instances = record {
    sum_of_weights = sum_from 0 instances;
    prefix_sum_of_weights = prefix_sums 0 instances;
    instances = instances;
  }

  unfoldable pub at_index : List (Instance A) → ℕ → Picked (ℕ × Instance A)
  at_index instances index = elim (get_elem? instances index) [
    | none ↦ panicked
    | some i ↦ picked (index, i)
  ]

pub record InstancePicker (A : Type 0) : Type 0 where
  pub shared_instances : WeightedInstances A
  pub sum_of_weights : ℕ
  pub last_offset : Option ℕ
  pub iter_times : ℕ

abbrev pub Next : Type 0 → Type 0
Next A = InstancePicker A × Picked A

unfoldable pub next_offset : ℕ → ℕ → ℕ
next_offset len last_offset = if last_offset + 1 == len then 0 else last_offset + 1

module _ {A : Type 0} (binary_search : List ℕ → ℕ → Search) where
  -- `roll` is the value of `random_range(0..sum_of_weight)`.
  unfoldable pub pick_one : ℕ → ℕ → List ℕ → List (Instance A) → Picked (ℕ × Instance A)
  pick_one roll sum_of_weight prefix_sum_of_weights instances =
      if sum_of_weight == 0
      then nothing
      else if is_empty instances
      then nothing
      else at_index instances (unwrap_or_index (binary_search prefix_sum_of_weights (roll + 1)))

  unfoldable pub next_first : InstancePicker A → Picked (ℕ × Instance A) → Next A
  next_first p (picked (offset, i)) = (record p { last_offset = some offset }, picked i.address)
  next_first p nothing = (p, nothing)
  next_first p panicked = (p, panicked)

  unfoldable pub next_address : InstancePicker A → Picked (ℕ × Instance A) → Next A
  next_address p (picked (offset, i)) = (p, picked i.address)
  next_address p nothing = (p, nothing)
  next_address p panicked = (p, panicked)

  unfoldable pub next_from : ℕ → InstancePicker A → Option ℕ → Next A
  next_from roll p none = next_first p (
      pick_one roll p.sum_of_weights p.shared_instances.prefix_sum_of_weights
        p.shared_instances.instances)
  next_from roll p (some last_offset) =
      let instances = p.shared_instances.instances in
      let offset = next_offset (length instances) last_offset in
      if ltb (length instances) p.iter_times
      then (p, nothing)
      else next_address (record p { last_offset = some offset }) (at_index instances offset)

  unfoldable pub next : ℕ → InstancePicker A → Next A
  next roll p =
      if is_empty p.shared_instances.instances
      then (p, nothing)
      else next_from roll (record p { iter_times = p.iter_times + 1 }) p.last_offset

unfoldable pub new_picker : {A : Type 0} → WeightedInstances A → InstancePicker A
new_picker weighted_list = record {
  shared_instances = weighted_list;
  sum_of_weights = weighted_list.sum_of_weights;
  last_offset = none;
  iter_times = 0;
}

abbrev pub Router : Type 0 → Type 0 → Type 0
Router K A = Map K (WeightedInstances A)

-- The router of a `WeightedRandomBalance`: the instances known for each key. `discover` is the
-- discovery's answer for the endpoint of the key, without a result where it fails.
module _ {A K : Type 0} ⦃e : Eq K⦄ where
  unfoldable pub discovered :
      K → Router K A → Option (List (Instance A)) → Router K A × Option (InstancePicker A)
  discovered key router none = (router, none)
  discovered key router (some instances) =
      let w = from_instances instances in (insert key w router, some (new_picker w))

  unfoldable pub picker_for :
      K
      → Option (List (Instance A))
      → Router K A
      → Option (WeightedInstances A)
      → Router K A × Option (InstancePicker A)
  picker_for key discover router (some w) = (router, some (new_picker w))
  picker_for key discover router none = discovered key router discover

  unfoldable pub get_picker :
      K → Option (List (Instance A)) → Router K A → Router K A × Option (InstancePicker A)
  get_picker key discover router = picker_for key discover router (lookup key router)

  unfoldable pub rebalance : Change K A → Router K A → Router K A
  rebalance changes router = elim (lookup changes.key router) [
    | none ↦ router
    | some old ↦ insert changes.key (from_instances changes.all) router
  ]
