-- ===== src/Balance/Random/Bounds.antt =====
-- volo/src/loadbalance/random.rs: the index that `pick_one` takes.
use volo.Base.{
  ℕ, zero, suc, ◌+◌, ◌≤◌, ◌<◌, ◌≡◌, refl, false, List, [], ◌∷◌, some, arith, ◌⊎◌, inl, inr, ◌==◌,
  ltb, ltb→lt, Bool-cases, length, get_elem?, get_elem?-some,
}
use volo.Balance.{Instance}
use volo.Balance.Random.{
  Search, found, missing_at, unwrap_or_index, Picked, picked, sum_from, prefix_sums, at_index,
  pick_one,
}

-- What the standard library says of `binary_search` on a sorted slice.
abbrev pub Rising : ℕ → List ℕ → Type 0
Rising low [] = Unit {0}
Rising low (x ∷ xs) = (low ≤ x) × Rising x xs

pub record IsBinarySearch (search : List ℕ → ℕ → Search) : Type 0 where
  pub hit : (xs : List ℕ) (w i : ℕ) → Rising 0 xs → search xs w ≡ found i → get_elem? xs i ≡ some w
  pub miss_before :
      (xs : List ℕ) (w i j v : ℕ)
      → Rising 0 xs
      → search xs w ≡ missing_at i
      → get_elem? xs j ≡ some v
      → j < i
      → v < w
  pub miss_after :
      (xs : List ℕ) (w i j v : ℕ)
      → Rising 0 xs
      → search xs w ≡ missing_at i
      → get_elem? xs j ≡ some v
      → i ≤ j
      → w < v

get_elem?-lt {ℓ} :
    {A : Type ℓ} (xs : List A) (i : ℕ) (a : A) → get_elem? xs i ≡ some a → i < length xs
get_elem?-lt [] i a h = cc
get_elem?-lt (x ∷ xs) zero a h = omega arith
get_elem?-lt (x ∷ xs) (suc i) a h = omega (arith, get_elem?-lt xs i a h)

pub Rising-le :
    (low : ℕ) (xs : List ℕ) (i v : ℕ) → Rising low xs → get_elem? xs i ≡ some v → low ≤ v
Rising-le low [] i v r h = cc
Rising-le low (x ∷ xs) zero v r h = ground arith
Rising-le low (x ∷ xs) (suc i) v r h = omega (arith, Rising-le x xs i v r.1 h)

Rising-mono :
    (low : ℕ) (xs : List ℕ) (i j u v : ℕ)
    → Rising low xs
    → i ≤ j
    → get_elem? xs i ≡ some u
    → get_elem? xs j ≡ some v
    → u ≤ v
Rising-mono low [] i j u v r h p q = cc
Rising-mono low (x ∷ xs) zero zero u v r h p q = ground arith
Rising-mono low (x ∷ xs) zero (suc j) u v r h p q = ground (arith, Rising-le x xs j v r.1 q)
Rising-mono low (x ∷ xs) (suc i) zero u v r h p q = absurd (omega arith)
Rising-mono low (x ∷ xs) (suc i) (suc j) u v r h p q =
    Rising-mono x xs i j u v r.1 (omega arith) p q

Search-cases : (s : Search) → ((i : ℕ) × (s ≡ found i)) ⊎ ((i : ℕ) × (s ≡ missing_at i))
Search-cases (found i) = inl (i, refl)
Search-cases (missing_at i) = inr (i, refl)

above-beq : (a b : ℕ) → a < b → (b == 0) ≡ false
above-beq a b h = ground arith

module _ {A : Type 0} where
  length-prefix_sums : (s : ℕ) (is : List (Instance A)) → length (prefix_sums s is) ≡ length is
  unfolding prefix_sums
  length-prefix_sums s [] = refl
  length-prefix_sums s (i ∷ is) = omega (arith, length-prefix_sums (s + i.weight) is)

  prefix_sums-Rising :
      (low s : ℕ) (is : List (Instance A)) → low ≤ s → Rising low (prefix_sums s is)
  unfolding prefix_sums
  prefix_sums-Rising low s [] h = tt
  prefix_sums-Rising low s (i ∷ is) h =
      (omega arith, prefix_sums-Rising (s + i.weight) (s + i.weight) is (omega arith))

  -- The last of the sums is the sum.
  prefix_sums_last :
      (s : ℕ) (i : Instance A) (is : List (Instance A))
      → get_elem? (prefix_sums s (i ∷ is)) (length is) ≡ some (sum_from s (i ∷ is))
  unfolding prefix_sums sum_from
  prefix_sums_last s i [] = refl
  prefix_sums_last s i (j ∷ is) = prefix_sums_last (s + i.weight) j is

  -- The pick at a roll: the instance at an index whose prefix sum reaches the roll, and no
  -- earlier sum is beyond it.
  pub record Picks (is : List (Instance A)) (roll : ℕ) (r : Picked (ℕ × Instance A)) : Type 0 where
    pub index : ℕ
    pub instance_at : Instance A
    pub sum : ℕ
    pub result : r ≡ picked (index, instance_at)
    pub in_bounds : get_elem? is index ≡ some instance_at
    pub sum_at : get_elem? (prefix_sums 0 is) index ≡ some sum
    pub reached : roll + 1 ≤ sum
    pub not_before : (j v : ℕ) → j < index → get_elem? (prefix_sums 0 is) j ≡ some v → v ≤ roll + 1

  module _ (search : List ℕ → ℕ → Search) (law : IsBinarySearch search) where
    Picks-found :
        (is : List (Instance A)) (roll i : ℕ)
        → search (prefix_sums 0 is) (roll + 1) ≡ found i
        → Picks is roll (at_index is i)
    unfolding at_index
    Picks-found is roll i h =
        let sorted = prefix_sums-Rising 0 0 is (omega arith) in
        let hit : get_elem? (prefix_sums 0 is) i ≡ some (roll + 1) = law.hit _ _ i sorted h in
        let (a, e) =
          get_elem?-some is i (omega (arith, get_elem?-lt _ i _ hit, length-prefix_sums 0 is)) in
        record {
          index = i;
          instance_at = a;
          sum = roll + 1;
          result = rw (e, at_index) refl;
          in_bounds = e;
          sum_at = hit;
          reached = omega arith;
          not_before = λ j v lt at. Rising-mono 0 _ j i v (roll + 1) sorted (omega arith) at hit;
        }

    miss_in_bounds :
        (x : Instance A) (is : List (Instance A)) (roll i : ℕ)
        → roll < sum_from 0 (x ∷ is)
        → search (prefix_sums 0 (x ∷ is)) (roll + 1) ≡ missing_at i
        → i ≤ length is
    miss_in_bounds x is roll i small h = elim (Bool-cases (ltb (length is) i)) [
      | inl past ↦ absurd (
          omega (
            arith,
            law.miss_before _ (roll + 1) i (length is) (sum_from 0 (x ∷ is))
                (prefix_sums-Rising 0 0 (x ∷ is) (omega arith)) h (prefix_sums_last 0 x is)
                (ltb→lt _ _ past),
          ))
      | inr in_range ↦ ground arith
    ]

    Picks-missing :
        (x : Instance A) (is : List (Instance A)) (roll i : ℕ)
        → roll < sum_from 0 (x ∷ is)
        → search (prefix_sums 0 (x ∷ is)) (roll + 1) ≡ missing_at i
        → Picks (x ∷ is) roll (at_index (x ∷ is) i)
    unfolding at_index
    Picks-missing x is roll i small h =
        let sorted = prefix_sums-Rising 0 0 (x ∷ is) (omega arith) in
        let bound = miss_in_bounds x is roll i small h in
        let (a, e) = get_elem?-some (x ∷ is) i (omega arith) in
        let (v, at_i) =
          get_elem?-some (prefix_sums 0 (x ∷ is)) i
            (omega (arith, length-prefix_sums 0 (x ∷ is))) in
        record {
          index = i;
          instance_at = a;
          sum = v;
          result = rw (e, at_index) refl;
          in_bounds = e;
          sum_at = at_i;
          reached = omega (arith, law.miss_after _ (roll + 1) i i v sorted h at_i (omega arith));
          not_before =
              λ j u lt at. omega (arith, law.miss_before _ (roll + 1) i j u sorted h at lt);
        }

    Picks-index :
        (x : Instance A) (is : List (Instance A)) (roll : ℕ)
        → roll < sum_from 0 (x ∷ is)
        → Picks
            (x ∷ is)
            roll
            (at_index (x ∷ is) (unwrap_or_index (search (prefix_sums 0 (x ∷ is)) (roll + 1))))
    unfolding unwrap_or_index
    Picks-index x is roll small = elim (Search-cases (search (prefix_sums 0 (x ∷ is)) (roll + 1))) [
      | inl (i, h) ↦ rw h (Picks-found (x ∷ is) roll i h)
      | inr (i, h) ↦ rw h (Picks-missing x is roll i small h)
    ]

    -- With a binary search that keeps the standard library's promise on sorted slices, and for
    -- every roll below the sum of the weights, `pick_one` neither panics nor returns nothing:
    -- it returns an index in bounds and the instance there. The prefix sum of the index is above
    -- the roll, and no earlier prefix sum is above the roll by more than one.
    pub pick_one-Picks :
        (is : List (Instance A)) (roll : ℕ)
        → roll < sum_from 0 is
        → Picks is roll (pick_one search roll (sum_from 0 is) (prefix_sums 0 is) is)
    unfolding pick_one sum_from
    pick_one-Picks [] roll small = absurd (omega arith)
    pick_one-Picks (x ∷ is) roll small =
        rw (above-beq roll (sum_from 0 (x ∷ is)) small) (Picks-index x is roll small)
