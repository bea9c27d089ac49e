-- ===== src/Balance/Runs.antt =====
-- volo/src/discovery and volo/src/loadbalance: three instances, whose addresses are numbers.
use Prim.Native.Nat.{compare, Ordering, lt, eq, gt}
use volo.Base.{
  ℕ, zero, suc, ◌<◌, ◌≤◌, ◌≡◌, ◌↔◌, refl, true, false, not, ◌&&◌, ◌||◌, List, [], ◌∷◌, ◌++◌, some,
  arith, length, get_elem?,
}
use volo.Base.Maps.{nat_eq}
use volo.Balance.{Instance, contains}
use volo.Balance.Discovery.{
  Change, addresses, diff_address, diff_address-exact, diff_address_changed,
}
use volo.Balance.Random.{
  Search, found, missing_at, sum_from, prefix_sums, pick_one, panicked, nothing, from_instances,
}
use volo.Balance.Random.Bounds.{IsBinarySearch, Rising, Rising-le, Picks, pick_one-Picks}
use volo.Balance.Random.Cycle.{nexts, after, addresses_of, nexts-round}
use volo.Balance.Hash.{InstancePicker, next, new_picker, build_weighted_instances}
use volo.Balance.Hash.Distinct.{Moves, next-Moves, next_weightless}

abbrev at_weight : ℕ → ℕ → Instance ℕ
at_weight a w = record { address = a; weight = w; tags = [] }

abbrev three : List (Instance ℕ)
three = at_weight 1 2 ∷ at_weight 2 0 ∷ at_weight 3 5 ∷ []

abbrev two : List (Instance ℕ)
two = at_weight 3 1 ∷ at_weight 4 1 ∷ []

diff_address-exact_example :
    let c : Change ℕ ℕ = (diff_address 9 three two).0 in
    (contains 4 (addresses c.added)
      ≡ contains 4 (addresses two) && not (contains 4 (addresses three)))
    × (contains 4 (addresses c.removed)
        ≡ contains 4 (addresses three) && not (contains 4 (addresses two)))
    × (contains 4 (addresses two) ≡ (
        contains 4 (addresses c.added)
        || (contains 4 (addresses three) && not (contains 4 (addresses c.removed)))))
    × (c.all ≡ two)
diff_address-exact_example = diff_address-exact 9 three two 4

diff_address_changed_example :
    ((diff_address {K = ℕ} 9 three two).1 ≡ false)
    ↔ ((a : ℕ) → contains a (addresses three) ≡ contains a (addresses two))
diff_address_changed_example = diff_address_changed {K = ℕ} 9 three two

-- A linear search, in place of the library's.
shift : Search → Search
shift (found i) = found (suc i)
shift (missing_at i) = missing_at (suc i)

step : Ordering → Search → Search
step lt s = shift s
step eq s = found 0
step gt s = missing_at 0

search : List ℕ → ℕ → Search
search [] w = missing_at 0
search (x ∷ xs) w = step (compare x w) (search xs w)

shift-found : (s : Search) (i : ℕ) → shift s ≡ found i → (j : ℕ) × (s ≡ found j) × (i ≡ suc j)
unfolding shift
shift-found (found j) i h = (j, refl, cc)
shift-found (missing_at j) i h = absurd cc

shift-missing :
    (s : Search) (i : ℕ) → shift s ≡ missing_at i → (j : ℕ) × (s ≡ missing_at j) × (i ≡ suc j)
unfolding shift
shift-missing (found j) i h = absurd cc
shift-missing (missing_at j) i h = (j, refl, cc)

search-hit : (xs : List ℕ) (w i : ℕ) → search xs w ≡ found i → get_elem? xs i ≡ some w
unfolding search step
search-hit [] w i h = absurd cc
search-hit (x ∷ xs) w i h = by_order (compare x w) refl h (search-hit xs w)
  where
    by_order :
        (o : Ordering)
        → compare x w ≡ o
        → step o (search xs w) ≡ found i
        → ((j : ℕ) → search xs w ≡ found j → get_elem? xs j ≡ some w)
        → get_elem? (x ∷ xs) i ≡ some w
    by_order lt o h rest = let (j, s, e) = shift-found _ i h in rw e (rest j s)
    by_order eq o h rest =
        let here : i ≡ 0 = cc in let same : x ≡ w = ground arith in rw (here, same) refl
    by_order gt o h rest = absurd cc

search-before :
    (xs : List ℕ) (w i j v : ℕ)
    → search xs w ≡ missing_at i
    → get_elem? xs j ≡ some v
    → j < i
    → v < w
unfolding search step
search-before [] w i j v h at small = absurd cc
search-before (x ∷ xs) w i j v h at small = by_order (compare x w) refl h (search-before xs w)
  where
    at_place :
        (k : ℕ)
        → ((i j v : ℕ) → search xs w ≡ missing_at i → get_elem? xs j ≡ some v → j < i → v < w)
        → search xs w ≡ missing_at k
        → x < w
        → (j : ℕ) → get_elem? (x ∷ xs) j ≡ some v
        → j < suc k
        → v < w
    at_place k rest s less zero at small = ground arith
    at_place k rest s less (suc j) at small = rest k j v s at (omega arith)

    by_order :
        (o : Ordering)
        → compare x w ≡ o
        → step o (search xs w) ≡ missing_at i
        → ((i j v : ℕ) → search xs w ≡ missing_at i → get_elem? xs j ≡ some v → j < i → v < w)
        → v < w
    by_order lt o h rest =
        let (k, s, e) = shift-missing _ i h in at_place k rest s (ground arith) j at (omega arith)
    by_order eq o h rest = absurd cc
    by_order gt o h rest = let here : i ≡ 0 = cc in absurd (omega arith)

search-after :
    (low : ℕ) (xs : List ℕ) (w i j v : ℕ)
    → Rising low xs
    → search xs w ≡ missing_at i
    → get_elem? xs j ≡ some v
    → i ≤ j
    → w < v
unfolding search step
search-after low [] w i j v r h at large = absurd cc
search-after low (x ∷ xs) w i j v r h at large =
    by_order (compare x w) refl h (λ i j v. search-after x xs w i j v r.1)
  where
    above : (j : ℕ) → get_elem? (x ∷ xs) j ≡ some v → x ≤ v
    above zero at = ground arith
    above (suc j) at = Rising-le x xs j v r.1 at

    at_place :
        (k : ℕ)
        → ((i j v : ℕ) → search xs w ≡ missing_at i → get_elem? xs j ≡ some v → i ≤ j → w < v)
        → search xs w ≡ missing_at k
        → (j : ℕ) → get_elem? (x ∷ xs) j ≡ some v
        → suc k ≤ j
        → w < v
    at_place k rest s zero at large = absurd (omega arith)
    at_place k rest s (suc j) at large = rest k j v s at (omega arith)

    by_order :
        (o : Ordering)
        → compare x w ≡ o
        → step o (search xs w) ≡ missing_at i
        → ((i j v : ℕ) → search xs w ≡ missing_at i → get_elem? xs j ≡ some v → i ≤ j → w < v)
        → w < v
    by_order lt o h rest =
        let (k, s, e) = shift-missing _ i h in at_place k rest s j at (omega arith)
    by_order eq o h rest = absurd cc
    by_order gt o h rest = ground (arith, above j at)

search-IsBinarySearch : IsBinarySearch search
search-IsBinarySearch = record {
  hit = λ xs w i r. search-hit xs w i;
  miss_before = λ xs w i j v r. search-before xs w i j v;
  miss_after = search-after 0;
}

pick_one-Picks_example :
    Picks three 4 (pick_one search 4 (sum_from 0 three) (prefix_sums 0 three) three)
unfolding sum_from
pick_one-Picks_example = pick_one-Picks search search-IsBinarySearch three 4 (omega arith)

nexts-round_example :
    nexts search 3 (λ n. 0) (after search (from_instances three) 7 1 1)
    ≡ addresses_of search (at_weight 3 5 ∷ at_weight 1 2 ∷ []) ++ (nothing ∷ [])
unfolding from_instances
nexts-round_example =
    nexts-round search (from_instances three) 7 (λ n. 0) (at_weight 1 2 ∷ []) (at_weight 2 0)
      (at_weight 3 5 ∷ []) refl

-- A picker in the middle of its picks.
abbrev picking : InstancePicker ℕ
picking = record {
  shared_instances = record {
    real_nodes = three;
    virtual_nodes =
        record { real_node = at_weight 1 2; hash = 5 }
        ∷ record { real_node = at_weight 3 5; hash = 8 }
        ∷ [];
  };
  request_hash = 6;
  last_pick = some 1;
  used = 3 ∷ [];
  replicas = 2;
}

next-Moves_example : Moves picking (next picking)
next-Moves_example = next-Moves picking (omega arith) (omega arith)

next_weightless_example :
    (next (
      new_picker 1 6 (
        build_weighted_instances
          (λ a. a ∷ [])
          length
          (λ vs. vs)
          (record { replicas = 1; virtual_factor = 100; weighted = true })
          (at_weight 1 0 ∷ [])))).1
    ≡ panicked
next_weightless_example =
    next_weightless (λ a. a ∷ []) length (λ vs. vs)
      (record { replicas = 1; virtual_factor = 100; weighted = true }) (at_weight 1 0) [] 6 refl
      refl (omega arith) (refl, tt)
