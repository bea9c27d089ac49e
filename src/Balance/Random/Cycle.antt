-- ===== src/Balance/Random/Cycle.antt =====
-- volo/src/loadbalance/random.rs: the picks of `next` after the first.
use volo.Base.{
  ℕ, zero, suc, ◌+◌, ◌<◌, ◌≡◌, refl, sym, ◌∙◌, ap, List, [], ◌∷◌, ◌++◌, some, map, arith, true,
  false, length, length-append, get_elem?, append_assoc, append-nil, ltb, subst, Bool-cases, inl,
  inr,
}
use volo.Balance.{Instance}
use volo.Balance.Discovery.{is_empty}
use volo.Balance.Random.{
  Search, Picked, picked, nothing, WeightedInstances, InstancePicker, at_index, next_offset,
  next_address, next_from, next,
}

over : (n : ℕ) → ltb n (n + 1) ≡ true
over n = ground arith

next_within : (n i : ℕ) → i + 1 < n → next_offset n i ≡ i + 1
unfolding next_offset
next_within n i h = ground arith

next_wraps : (n i : ℕ) → i + 1 ≡ n → next_offset n i ≡ 0
unfolding next_offset
next_wraps n i h = ground arith

not_empty :
    {A : Type 0} (is : List (Instance A)) (i : ℕ) (y : Instance A)
    → get_elem? is i ≡ some y
    → is_empty is ≡ false
not_empty [] i y h = absurd cc
not_empty (x ∷ is) i y h = refl

get_elem?-append :
    {A : Type 0} (pre : List (Instance A)) (y : Instance A) (post : List (Instance A))
    → get_elem? (pre ++ (y ∷ post)) (length pre) ≡ some y
get_elem?-append [] y post = refl
get_elem?-append (x ∷ pre) y post = get_elem?-append pre y post

module _ {A : Type 0} (search : List ℕ → ℕ → Search) where
  -- The results of `n` calls, with the random numbers of the calls.
  pub nexts : ℕ → (ℕ → ℕ) → InstancePicker A → List (Picked A)
  nexts zero rolls p = []
  nexts (suc n) rolls p = let (q, r) = next search (rolls n) p in r ∷ nexts n rolls q

  abbrev pub after : WeightedInstances A → ℕ → ℕ → ℕ → InstancePicker A
  after w sum offset times = record {
    shared_instances = w;
    sum_of_weights = sum;
    last_offset = some offset;
    iter_times = times;
  }

  abbrev pub addresses_of : List (Instance A) → List (Picked A)
  addresses_of = map (λ i. picked i.address)

  next_step :
      (w : WeightedInstances A) (sum roll offset times : ℕ) (y : Instance A)
      → get_elem? w.instances (next_offset (length w.instances) offset) ≡ some y
      → is_empty w.instances ≡ false
      → ltb (length w.instances) (times + 1) ≡ false
      → next search roll (after w sum offset times)
        ≡ (after w sum (next_offset (length w.instances) offset) (times + 1), picked y.address)
  unfolding next next_from next_address at_index
  next_step w sum roll offset times y at some_one left = rw (some_one, left, at) refl

  next_ends :
      (w : WeightedInstances A) (sum roll offset : ℕ)
      → (next search roll (after w sum offset (length w.instances))).1 ≡ nothing
  unfolding next next_from
  next_ends w sum roll offset = elim (Bool-cases (is_empty w.instances)) [
    | inl none_left ↦ rw none_left refl
    | inr some_left ↦ rw (some_left, over (length w.instances)) refl
  ]

  -- The instances that the offsets after one visit.
  abbrev Follows : List (Instance A) → ℕ → List (Instance A) → Type 0
  Follows is offset [] = Unit {0}
  Follows is offset (y ∷ ys) =
      (get_elem? is (next_offset (length is) offset) ≡ some y)
      × Follows is (next_offset (length is) offset) ys

  visits :
      (w : WeightedInstances A) (sum offset times : ℕ) (rolls : ℕ → ℕ) (todo : List (Instance A))
      → Follows w.instances offset todo
      → times + length todo ≡ length w.instances
      → nexts (suc (length todo)) rolls (after w sum offset times)
        ≡ addresses_of todo ++ (nothing ∷ [])
  unfolding nexts
  visits w sum offset times rolls [] f e =
      let t : times ≡ length w.instances = omega arith in
      rw t (ap (λ r. r ∷ []) (next_ends w sum (rolls 0) offset))
  visits w sum offset times rolls (y ∷ todo) f e =
      let left : ltb (length w.instances) (times + 1) ≡ false = ground arith in
      rw
        (next_step w sum (rolls (suc (length todo))) offset times y f.0
          (not_empty w.instances _ y f.0) left)
        (ap (λ rs. picked y.address ∷ rs)
          (visits w sum (next_offset (length w.instances) offset) (times + 1) rolls todo f.1
            (omega arith)))

  Follows-append :
      (is pre : List (Instance A)) (x : Instance A) (ys rest more : List (Instance A))
      → is ≡ pre ++ (x ∷ (ys ++ rest))
      → Follows is (length pre + length ys) more
      → Follows is (length pre) (ys ++ more)
  Follows-append is pre x [] rest more e f =
      let same : length pre + 0 ≡ length pre = omega arith in subst (λ n. Follows is n more) same f
  Follows-append is pre x (y ∷ ys) rest more e f =
      let longer : List (Instance A) = pre ++ (x ∷ []) in
      let e2 : is ≡ longer ++ (y ∷ (ys ++ rest)) =
        e ∙ sym (append_assoc pre (x ∷ []) (y ∷ (ys ++ rest))) in
      let len : length longer ≡ length pre + 1 = length-append pre (x ∷ []) in
      let here : next_offset (length is) (length pre) ≡ length longer =
        next_within (length is) (length pre)
          (omega (arith, ap length e2, length-append longer (y ∷ (ys ++ rest)), len))
        ∙ sym len in
      let reached : length pre + suc (length ys) ≡ length longer + length ys = omega (arith, len) in
      subst (λ o. (get_elem? is o ≡ some y) × Follows is o (ys ++ more)) (sym here)
        (
          ap (λ l. get_elem? l (length longer)) e2 ∙ get_elem?-append longer y (ys ++ rest),
          Follows-append is longer y ys rest more e2 (subst (λ o. Follows is o more) reached f),
        )

  Follows-wrap :
      (is pre : List (Instance A)) (x : Instance A) (post : List (Instance A))
      → is ≡ pre ++ (x ∷ post)
      → Follows is (length pre + length post) pre
  Follows-wrap is [] x post e = tt
  Follows-wrap is (p ∷ pre) x post e =
      let wraps : next_offset (length is) (length (p ∷ pre) + length post) ≡ 0 =
        next_wraps _ _ (omega (arith, ap length e, length-append (p ∷ pre) (x ∷ post))) in
      subst (λ o. (get_elem? is o ≡ some p) × Follows is o pre) (sym wraps)
        (
          ap (λ l. get_elem? l 0) e,
          subst (Follows is 0) (append-nil pre) (Follows-append is [] p pre (x ∷ post) [] e tt),
        )

  -- After a first pick, the calls of `next` go once round the other instances, from the one behind
  -- the first pick to the end of the list and then from its start, and then give nothing.
  pub nexts-round :
      (w : WeightedInstances A) (sum : ℕ) (rolls : ℕ → ℕ) (pre : List (Instance A)) (x : Instance A)
      (post : List (Instance A))
      → w.instances ≡ pre ++ (x ∷ post)
      → nexts (suc (length (post ++ pre))) rolls (after w sum (length pre) 1)
        ≡ addresses_of (post ++ pre) ++ (nothing ∷ [])
  nexts-round w sum rolls pre x post e =
      let split : w.instances ≡ pre ++ (x ∷ (post ++ [])) =
        e ∙ ap (λ l. pre ++ (x ∷ l)) (sym (append-nil post)) in
      visits w sum (length pre) 1 rolls (post ++ pre)
        (Follows-append w.instances pre x post [] pre split (Follows-wrap w.instances pre x post e))
        (omega (arith, ap length e, length-append pre (x ∷ post), length-append post pre))
