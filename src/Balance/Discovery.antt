-- ===== src/Balance/Discovery.antt =====
-- volo/src/discovery/mod.rs: the difference of two lists of instances.
use volo.Base.{
  ◌≡◌, ◌↔◌, refl, Bool, true, false, not, ◌&&◌, ◌||◌, List, [], ◌∷◌, map, arith, if◌then◌else◌,
}
use volo.Base.Maps.{Eq}
use volo.Balance.{Instance, contains}

pub record Change (K A : Type 0) : Type 0 where
  pub key : K
  pub all : List (Instance A)
  pub added : List (Instance A)
  pub updated : List (Instance A)
  pub removed : List (Instance A)

abbrev pub addresses : {A : Type 0} → List (Instance A) → List A
addresses = map (λ i. i.address)

abbrev pub is_empty {ℓ} : {A : Type ℓ} → List A → Bool
is_empty [] = true
is_empty (x ∷ xs) = false

module _ {A : Type 0} ⦃e : Eq A⦄ where
  -- `for i in … { if !set.contains(&i.address) { out.push(i.clone()) } }`
  unfoldable pub missing : List A → List (Instance A) → List (Instance A)
  missing set [] = []
  missing set (i ∷ is) = if not (contains i.address set) then i ∷ missing set is else missing set is

  unfoldable pub diff_address :
      {K : Type 0} → K → List (Instance A) → List (Instance A) → Change K A × Bool
  diff_address key prev next =
      let added = missing (addresses prev) next in
      let removed = missing (addresses next) prev in
      (
        record { key = key; all = next; added = added; updated = []; removed = removed },
        not (is_empty added) || not (is_empty removed),
      )

  contains-missing :
      (a : A) (set : List A) (is : List (Instance A))
      → contains a (addresses (missing set is)) ≡ contains a (addresses is) && not (contains a set)
  unfolding missing contains
  contains-missing a set [] = refl
  contains-missing a set (i ∷ is) =
      ground (arith, contains-missing a set is, (e.beq_iff i.address a).0)

  is_empty-contains :
      (is : List (Instance A)) → ((a : A) → contains a (addresses is) ≡ false) → is_empty is ≡ true
  unfolding contains
  is_empty-contains [] h = refl
  is_empty-contains (i ∷ is) h = ground (arith, h i.address, (e.beq_iff i.address i.address).1 refl)

  empty-contains :
      (is : List (Instance A)) (a : A) → is_empty is ≡ true → contains a (addresses is) ≡ false
  unfolding contains
  empty-contains [] a h = refl
  empty-contains (i ∷ is) a h = cc

  module _ {K : Type 0} (key : K) (prev next : List (Instance A)) where
    -- The change is exact: an address is added if and only if it is in `next` and not in `prev`, and
    -- removed if and only if it is in `prev` and not in `next`; it is in `next` if it is added, or in
    -- `prev` and not removed; all instances are those of `next`.
    pub diff_address-exact :
        (a : A)
        → let c : Change K A = (diff_address key prev next).0 in
          (contains a (addresses c.added)
            ≡ contains a (addresses next) && not (contains a (addresses prev)))
          × (contains a (addresses c.removed)
              ≡ contains a (addresses prev) && not (contains a (addresses next)))
          × (contains a (addresses next) ≡ (
              contains a (addresses c.added)
              || (contains a (addresses prev) && not (contains a (addresses c.removed)))))
          × (c.all ≡ next)
    unfolding diff_address
    diff_address-exact a =
        let added = contains-missing a (addresses prev) next in
        let removed = contains-missing a (addresses next) prev in
        (added, removed, ground (arith, added, removed), refl)

    -- The flag is down exactly when both lists have the same addresses.
    pub diff_address_changed :
        ((diff_address key prev next).1 ≡ false)
        ↔ ((a : A) → contains a (addresses prev) ≡ contains a (addresses next))
    unfolding diff_address
    diff_address_changed = (forth, back)
      where
        added :
            (a : A)
            → contains a (addresses (missing (addresses prev) next))
              ≡ contains a (addresses next) && not (contains a (addresses prev))
        added a = contains-missing a (addresses prev) next

        removed :
            (a : A)
            → contains a (addresses (missing (addresses next) prev))
              ≡ contains a (addresses prev) && not (contains a (addresses next))
        removed a = contains-missing a (addresses next) prev

        forth :
            not (is_empty (missing (addresses prev) next))
                || not (is_empty (missing (addresses next) prev))
              ≡ false
            → (a : A) → contains a (addresses prev) ≡ contains a (addresses next)
        forth h a = ground (
          arith,
          added a,
          removed a,
          empty-contains (missing (addresses prev) next) a,
          empty-contains (missing (addresses next) prev) a,
        )

        back :
            ((a : A) → contains a (addresses prev) ≡ contains a (addresses next))
            → not (is_empty (missing (addresses prev) next))
                || not (is_empty (missing (addresses next) prev))
              ≡ false
        back same =
            rw
              (
                is_empty-contains (missing (addresses prev) next)
                    (λ a. ground (arith, added a, same a)),
                is_empty-contains (missing (addresses next) prev)
                    (λ a. ground (arith, removed a, same a)),
              )
              refl
