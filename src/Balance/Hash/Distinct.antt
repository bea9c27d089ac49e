-- ===== src/Balance/Hash/Distinct.antt =====
-- volo/src/loadbalance/consistent_hash.rs: the picks of one picker.
use volo.Base.{
  ℕ, ◌*◌, ◌%◌, ◌^◌, ap, zero, suc, ◌+◌, ◌≤◌, ◌<◌, ◌≡◌, refl, ◌∙◌, inl, inr, Bool, true, false, List,
  [], ◌∷◌, Option, none, some, leb, length, get_elem?, get_elem?-some, arith, Bool-cases,
}
use volo.Base.Bytes.{Bytes}
use volo.Base.Maps.{Eq}
use volo.Balance.{Instance, contains}
use volo.Balance.Discovery.{is_empty}
use volo.Balance.Random.{picked, nothing, panicked}
use volo.Balance.Hash.{
  VirtualNode, InstancePicker, Next, wrap, partition_point, take_first, next_first, take_unused,
  search_unused, next_from, next, ConsistentHashOption, virtual_nodes_of, serials, vnode_lens,
  build_weighted_instances, new_picker,
}

-- The last pick is the index of a virtual node, and nothing is used before the first.
abbrev pub IsPlace : {A : Type 0} → InstancePicker A → Option ℕ → Type 0
IsPlace p none = p.used ≡ []
IsPlace p (some i) = i < length p.shared_instances.virtual_nodes

wrap-lt : (n i : ℕ) → i < n → wrap n (i + 1) < n
unfolding wrap
wrap-lt n i h = ground arith

partition_point_le :
    {A : Type 0} (hash : ℕ) (vs : List (VirtualNode A)) → partition_point hash vs ≤ length vs
unfolding partition_point
partition_point_le hash [] = omega arith
partition_point_le hash (v ∷ vs) = ground (arith, partition_point_le hash vs)

wrap_first : (n i : ℕ) → i ≤ n → 0 < n → wrap n i < n
unfolding wrap
wrap_first n i h k = ground arith

module _ {A : Type 0} ⦃e : Eq A⦄ where
  -- What a call may do to a picker: it gives an address of a virtual node that was not used before,
  -- and notes it; or it gives nothing, and uses none.
  pub data Moves (p : InstancePicker A) : Next A → Type 0 where
    picks :
        (q : InstancePicker A) (i : ℕ) (v : VirtualNode A)
        → get_elem? p.shared_instances.virtual_nodes i ≡ some v
        → contains v.real_node.address p.used ≡ false
        → q.used ≡ v.real_node.address ∷ p.used
        → q.last_pick ≡ some i
        → q.shared_instances ≡ p.shared_instances
        → Moves p (q, picked v.real_node.address)
    rests : Moves p (p, nothing)

  take_unused-Moves :
      (p : InstancePicker A) (i : ℕ) (v : VirtualNode A) (rest : Next A) (b : Bool)
      → get_elem? p.shared_instances.virtual_nodes i ≡ some v
      → contains v.real_node.address p.used ≡ b
      → Moves p rest
      → Moves p (take_unused p i (get_elem? p.shared_instances.virtual_nodes i) rest)
  unfolding take_unused
  take_unused-Moves p i v rest true at used m = rw (at, used) m
  take_unused-Moves p i v rest false at used m = rw (at, used) (picks _ i v at used refl refl refl)

  search_unused-Moves :
      (turns : ℕ) (p : InstancePicker A) (i : ℕ)
      → i < length p.shared_instances.virtual_nodes
      → Moves p (search_unused turns p i)
  unfolding search_unused
  search_unused-Moves zero p i h = rests
  search_unused-Moves (suc turns) p i h =
      let n = wrap-lt (length p.shared_instances.virtual_nodes) i h in
      let (v, at) = get_elem?-some p.shared_instances.virtual_nodes _ n in
      take_unused-Moves p _ v _ _ at refl (search_unused-Moves turns p _ n)

  next_first-Moves :
      (p : InstancePicker A)
      → p.used ≡ []
      → 0 < length p.shared_instances.virtual_nodes
      → Moves p (next_first p)
  unfolding next_first take_first contains
  next_first-Moves p fresh some_node =
      let vs = p.shared_instances.virtual_nodes in
      let h = wrap_first (length vs) _ (partition_point_le p.request_hash vs) some_node in
      let (v, at) = get_elem?-some vs _ h in rw at (picks _ _ v at (rw fresh refl) refl refl refl)

  next_from-Moves :
      (p : InstancePicker A) (last_pick : Option ℕ)
      → IsPlace p last_pick
      → 0 < length p.shared_instances.virtual_nodes
      → Moves p (next_from p last_pick)
  unfolding next_from
  next_from-Moves p none h k = next_first-Moves p h k
  next_from-Moves p (some i) h k = search_unused-Moves _ p i h

  -- Where there is a virtual node, and the picker's last pick is the index of a virtual node, or
  -- is none and no address was given, a call does not panic: it gives the address of a virtual
  -- node that was not given before, and notes it, or it gives nothing and changes nothing.
  pub next-Moves :
      (p : InstancePicker A)
      → IsPlace p p.last_pick
      → 0 < length p.shared_instances.virtual_nodes
      → Moves p (next p)
  unfolding next
  next-Moves p h k = elim (Bool-cases (is_empty p.shared_instances.real_nodes)) [
    | inl none_real ↦ rw none_real rests
    | inr real ↦ elim (Bool-cases (leb p.replicas (length p.used))) [
      | inl all ↦ rw (real, all) rests
      | inr left ↦ rw (real, left) (next_from-Moves p p.last_pick h k)
    ]
  ]

  next_panics :
      (p : InstancePicker A)
      → p.last_pick ≡ none
      → is_empty p.shared_instances.real_nodes ≡ false
      → p.shared_instances.virtual_nodes ≡ []
      → length p.used < p.replicas
      → (next p).1 ≡ panicked
  unfolding next next_from next_first take_first
  next_panics p first real bare may =
      let b : leb p.replicas (length p.used) ≡ false = ground arith in
      rw (real, b, first, bare) refl

  abbrev pub IsWeightless : List (Instance A) → Type 0
  IsWeightless [] = Unit {0}
  IsWeightless (i ∷ is) = (i.weight ≡ 0) × IsWeightless is

  no_virtual_nodes :
      (to_string : A → Bytes) (murmurhash3 : Bytes → ℕ) (option : ConsistentHashOption)
      (instances : List (Instance A))
      → option.weighted ≡ true
      → IsWeightless instances
      → virtual_nodes_of to_string murmurhash3 option instances ≡ []
  unfolding virtual_nodes_of serials vnode_lens
  no_virtual_nodes to_string murmurhash3 option [] w h = refl
  no_virtual_nodes to_string murmurhash3 option (i ∷ is) w h =
      let none_here : option.virtual_factor * i.weight % 2 ^ 32 ≡ 0 = rw (h.0) (omega arith) in
      rw (w, none_here) (no_virtual_nodes to_string murmurhash3 option is w h.1)

  -- With the weighted option, at least one replica and one instance or more, all of weight 0, the
  -- first call of a new picker panics.
  pub next_weightless :
      (to_string : A → Bytes) (murmurhash3 : Bytes → ℕ)
      (sort : List (VirtualNode A) → List (VirtualNode A)) (option : ConsistentHashOption)
      (i : Instance A) (is : List (Instance A)) (hash : ℕ)
      → sort [] ≡ []
      → option.weighted ≡ true
      → 0 < option.replicas
      → IsWeightless (i ∷ is)
      → (next (
          new_picker option.replicas hash
            (build_weighted_instances to_string murmurhash3 sort option (i ∷ is)))).1
        ≡ panicked
  unfolding new_picker build_weighted_instances
  next_weightless to_string murmurhash3 sort option i is hash empty w may h =
      next_panics _ refl refl
        (ap sort (no_virtual_nodes to_string murmurhash3 option (i ∷ is) w h) ∙ empty) may
