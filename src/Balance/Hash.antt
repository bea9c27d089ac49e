-- ===== src/Balance/Hash.antt =====
-- volo/src/loadbalance/consistent_hash.rs: the consistent-hash balancer. The text of an address,
-- murmur3 and the standard library's unstable sort are arguments.
pub mod Distinct
use volo.Base.{
  ℕ, ◌+◌, ◌-◌, ◌*◌, ◌/◌, ◌%◌, ◌^◌, zero, suc, min, Bool, true, false, not, List, [], ◌∷◌, ◌++◌,
  Option, none, some, ltb, leb, ◌==◌, if◌then◌else◌, length, get_elem?, set,
}
use volo.Base.Bytes.{Bytes}
use volo.Base.Maps.{Eq, Map, lookup, insert}
use volo.Balance.{Instance, contains}
use volo.Balance.Discovery.{Change, is_empty}
use volo.Balance.Random.{Picked, picked, nothing, panicked}

pub record ConsistentHashOption : Type 0 where
  pub replicas : ℕ
  pub virtual_factor : ℕ
  pub weighted : Bool

unfoldable pub default : ConsistentHashOption
default = record { replicas = 1; virtual_factor = 100; weighted = true }

pub record VirtualNode (A : Type 0) : Type 0 where
  pub real_node : Instance A
  pub hash : ℕ

pub record WeightedInstances (A : Type 0) : Type 0 where
  pub real_nodes : List (Instance A)
  pub virtual_nodes : List (VirtualNode A)

pub record InstancePicker (A : Type 0) : Type 0 where
  pub shared_instances : WeightedInstances A
  pub request_hash : ℕ
  pub last_pick : Option ℕ
  pub used : List A
  pub replicas : ℕ

abbrev pub Next : Type 0 → Type 0
Next A = InstancePicker A × Picked A

-- The decimal digits, on fuel: a `u32` has at most ten.
unfoldable pub digits : ℕ → ℕ → Bytes
digits zero n = []
digits (suc fuel) n =
    let rest = digits fuel (n / 10) in if n == 0 then [] else rest ++ ((48 + n % 10) ∷ [])

-- `to_string` of a `u32`.
unfoldable pub decimal : ℕ → Bytes
decimal n = if n == 0 then 48 ∷ [] else digits 10 n

-- The `while` loop, which writes a serial number from the end: the buffer, and where it starts. It
-- runs on fuel, since a `u32` has at most ten digits. The first argument after it is `pos`.
unfoldable pub write_serial : ℕ → ℕ → ℕ → Bytes → Bytes × ℕ
write_serial zero pos serial buf = (buf, pos)
write_serial (suc fuel) pos serial buf =
    let rest = write_serial fuel (pos - 1) (serial / 10) (set buf (pos - 1) (48 + serial % 10)) in
    if serial == 0 then (buf, pos) else rest

-- `for bytej in buf.iter_mut().take(pos).skip(start)`, on the number of turns.
unfoldable pub zeros : ℕ → ℕ → Bytes → Bytes
zeros zero start buf = buf
zeros (suc turns) start buf = zeros turns (suc start) (set buf start 48)

unfoldable pub pad : ℕ → Bytes × ℕ → Bytes
pad sharp_pos (buf, pos) = zeros (pos - (sharp_pos + 1)) (sharp_pos + 1) buf

unfoldable pub next_buf : ℕ → ℕ → Bytes → Bytes
next_buf sharp_pos serial buf = pad sharp_pos (write_serial 10 (length buf) serial buf)

-- The place of the first `#`, or 0.
unfoldable pub find_sharp : ℕ → Bytes → ℕ
find_sharp i [] = 0
find_sharp i (b ∷ buf) = if b == 35 then i else find_sharp (suc i) buf

unfoldable pub wrap : ℕ → ℕ → ℕ
wrap len index = if index == len then 0 else index

module _ {A : Type 0} (to_string : A → Bytes) (murmurhash3 : Bytes → ℕ) where
  -- `for i in start..start + count`.
  unfoldable pub serials : Instance A → ℕ → ℕ → ℕ → Bytes → List (VirtualNode A)
  serials i sharp_pos zero start buf = []
  serials i sharp_pos (suc count) start buf =
      let b = next_buf sharp_pos start buf in
      record { real_node = i; hash = murmurhash3 b } ∷ serials i sharp_pos count (suc start) b

  unfoldable pub vnode_lens : ConsistentHashOption → Instance A → ℕ
  vnode_lens option i =
      if option.weighted then option.virtual_factor * i.weight % 2 ^ 32 else option.virtual_factor

  unfoldable pub virtual_nodes_of : ConsistentHashOption → List (Instance A) → List (VirtualNode A)
  virtual_nodes_of option [] = []
  virtual_nodes_of option (i ∷ is) =
      let n = vnode_lens option i in
      let buf = to_string i.address ++ (35 ∷ decimal n) in
      serials i (find_sharp 0 buf) n 0 buf ++ virtual_nodes_of option is

  unfoldable pub build_weighted_instances :
      (List (VirtualNode A) → List (VirtualNode A))
      → ConsistentHashOption
      → List (Instance A)
      → WeightedInstances A
  build_weighted_instances sort option instances = record {
    real_nodes = instances;
    virtual_nodes = sort (virtual_nodes_of option instances);
  }

module _ {A : Type 0} where
  -- `partition_point(|vn| vn.hash < hash)`: on a sorted slice, the length of the prefix.
  unfoldable pub partition_point : ℕ → List (VirtualNode A) → ℕ
  partition_point hash [] = 0
  partition_point hash (v ∷ vs) = if ltb v.hash hash then suc (partition_point hash vs) else 0

  unfoldable pub take_first : InstancePicker A → ℕ → Option (VirtualNode A) → Next A
  take_first p index none = (record p { last_pick = some index }, panicked)
  take_first p index (some v) = (
    record p { last_pick = some index; used = v.real_node.address ∷ p.used },
    picked v.real_node.address,
  )

  unfoldable pub next_first : InstancePicker A → Next A
  next_first p =
      let virtual_nodes = p.shared_instances.virtual_nodes in
      let index = wrap (length virtual_nodes) (partition_point p.request_hash virtual_nodes) in
      take_first (record p { replicas = min p.replicas (length p.shared_instances.real_nodes) })
        index (get_elem? virtual_nodes index)

module _ {A : Type 0} ⦃e : Eq A⦄ where
  -- The node at an index is taken if it is not used; `rest` is the rest of the loop.
  unfoldable pub take_unused : InstancePicker A → ℕ → Option (VirtualNode A) → Next A → Next A
  take_unused p index none rest = (p, panicked)
  take_unused p index (some v) rest = if contains v.real_node.address p.used then rest else (
    record p { last_pick = some index; used = v.real_node.address ∷ p.used },
    picked v.real_node.address,
  )

  -- The loop `for _ in 0..virtual_nodes.len()`, with its number of turns.
  unfoldable pub search_unused : ℕ → InstancePicker A → ℕ → Next A
  search_unused zero p index = (p, nothing)
  search_unused (suc turns) p index =
      let i = wrap (length p.shared_instances.virtual_nodes) (index + 1) in
      take_unused p i (get_elem? p.shared_instances.virtual_nodes i) (search_unused turns p i)

  unfoldable pub next_from : InstancePicker A → Option ℕ → Next A
  next_from p none = next_first p
  next_from p (some last_pick) = search_unused (length p.shared_instances.virtual_nodes) p last_pick

  unfoldable pub next : InstancePicker A → Next A
  next p =
      if is_empty p.shared_instances.real_nodes
      then (p, nothing)
      else if leb p.replicas (length p.used)
      then (p, nothing)
      else next_from p p.last_pick

-- The balancer: `request_hash` is the one of the task's metainfo, and `discover` the instances of
-- the endpoint of the key, where the discovery gives them. `K` is the key of the discovery.
pub data Error : Type 0 where
  miss_request_hash discover_error : Error

pub data Chosen (A : Type 0) : Type 0 where
  picker : InstancePicker A → Chosen A
  failed : Error → Chosen A

unfoldable pub new_picker : {A : Type 0} → ℕ → ℕ → WeightedInstances A → InstancePicker A
new_picker replicas request_hash weighted_list = record {
  shared_instances = weighted_list;
  request_hash = request_hash;
  last_pick = none;
  used = [];
  replicas = replicas;
}

module _ {A K : Type 0} ⦃e : Eq K⦄ (build : List (Instance A) → WeightedInstances A)
    (replicas : ℕ) where
  unfoldable pub picker_for :
      K
      → ℕ
      → Map K (WeightedInstances A)
      → Option (List (Instance A))
      → Option (WeightedInstances A)
      → Map K (WeightedInstances A) × Chosen A
  picker_for key hash router discover (some w) = (router, picker (new_picker replicas hash w))
  picker_for key hash router none none = (router, failed discover_error)
  picker_for key hash router (some instances) none =
      (insert key (build instances) router, picker (new_picker replicas hash (build instances)))

  unfoldable pub get_picker :
      K
      → Option ℕ
      → Map K (WeightedInstances A)
      → Option (List (Instance A))
      → Map K (WeightedInstances A) × Chosen A
  get_picker key none router discover = (router, failed miss_request_hash)
  get_picker key (some hash) router discover =
      picker_for key hash router discover (lookup key router)

  unfoldable pub rebalance : Change K A → Map K (WeightedInstances A) → Map K (WeightedInstances A)
  rebalance changes router = elim (lookup changes.key router) [
    | none ↦ router
    | some old ↦ insert changes.key (build changes.all) router
  ]
