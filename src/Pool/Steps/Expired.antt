-- ===== src/Pool/Steps/Expired.antt =====
-- volo-thrift/src/transport/pool/mod.rs: what `clear_expired` leaves.
use volo.Base.{
  ℕ, ◌-◌, ◌≡◌, refl, sym, ◌∙◌, ap, List, [], ◌∷◌, ◌++◌, map, ltb, if◌then◌else◌, Bool-cases, inl,
  inr,
}
use volo.Base.Maps.{Map, Eq}
use volo.Pool.{IdleEntry, Inner}
use volo.Pool.Idle.{retain_fresh, keep_list, clear_lists}
use volo.Pool.Steps.{clear_expired}

module _ {K T : Type 0} where
  -- The idle connections of all keys, each with its key, in the order of the map and of its lists.
  pub all_idle : Map K (List (IdleEntry T)) → List (K × IdleEntry T)
  all_idle [] = []
  all_idle ((key, values) ∷ idle) = map (λ e. (key, e)) values ++ all_idle idle

  pub young : ℕ → ℕ → List (K × IdleEntry T) → List (K × IdleEntry T)
  young timeout now [] = []
  young timeout now ((k, e) ∷ es) =
      let rest = young timeout now es in
      if ltb timeout (now - e.idle_at) then rest else (k, e) ∷ rest

  -- No key has an empty list.
  abbrev pub IsTight : Map K (List (IdleEntry T)) → Type 0
  IsTight [] = Unit {0}
  IsTight ((key, []) ∷ idle) = ⊥
  IsTight ((key, e ∷ es) ∷ idle) = IsTight idle

  all_idle-keep_list :
      (key : K) (values : List (IdleEntry T)) (idle : Map K (List (IdleEntry T)))
      → all_idle (keep_list key values idle) ≡ map (λ e. (key, e)) values ++ all_idle idle
  unfolding all_idle keep_list
  all_idle-keep_list key [] idle = refl
  all_idle-keep_list key (e ∷ es) idle = refl

  young-append :
      (timeout now : ℕ) (key : K) (values : List (IdleEntry T)) (rest : List (K × IdleEntry T))
      → young timeout now (map (λ e. (key, e)) values ++ rest)
        ≡ map (λ e. (key, e)) (retain_fresh timeout now values) ++ young timeout now rest
  unfolding young retain_fresh
  young-append timeout now key [] rest = refl
  young-append timeout now key (e ∷ es) rest = elim (Bool-cases (ltb timeout (now - e.idle_at))) [
    | inl old ↦ rw old (young-append timeout now key es rest)
    | inr fresh ↦ rw fresh (ap (λ l. (key, e) ∷ l) (young-append timeout now key es rest))
  ]

  all_idle-clear_lists :
      (timeout now : ℕ) (idle : Map K (List (IdleEntry T)))
      → all_idle (clear_lists timeout now idle) ≡ young timeout now (all_idle idle)
  unfolding all_idle clear_lists young
  all_idle-clear_lists timeout now [] = refl
  all_idle-clear_lists timeout now ((key, values) ∷ idle) =
      all_idle-keep_list key (retain_fresh timeout now values) (clear_lists timeout now idle)
      ∙ ap (λ l. map (λ e. (key, e)) (retain_fresh timeout now values) ++ l)
          (all_idle-clear_lists timeout now idle)
      ∙ sym (young-append timeout now key values (all_idle idle))

  keep_list-IsTight :
      (key : K) (values : List (IdleEntry T)) (idle : Map K (List (IdleEntry T)))
      → IsTight idle
      → IsTight (keep_list key values idle)
  unfolding keep_list
  keep_list-IsTight key [] idle h = h
  keep_list-IsTight key (e ∷ es) idle h = h

  clear_lists-IsTight :
      (timeout now : ℕ) (idle : Map K (List (IdleEntry T))) → IsTight (clear_lists timeout now idle)
  unfolding clear_lists
  clear_lists-IsTight timeout now [] = tt
  clear_lists-IsTight timeout now ((key, values) ∷ idle) =
      keep_list-IsTight key _ _ (clear_lists-IsTight timeout now idle)

-- `clear_expired` drops exactly the idle connections that are older than the timeout, of every
-- key, keeps the others in their order, and leaves no key without a connection.
pub clear_expired-young :
    {K T W : Type 0} ⦃e : Eq K⦄ (now : ℕ) (s : Inner K T W)
    → (all_idle (clear_expired now s).idle ≡ young s.timeout now (all_idle s.idle))
      × IsTight (clear_expired now s).idle
unfolding clear_expired
clear_expired-young now s =
    (all_idle-clear_lists s.timeout now s.idle, clear_lists-IsTight s.timeout now s.idle)
