-- ===== src/Http/Redirect/Origin.antt =====
-- volo-http/src/client/layer/redirect.rs: which requests carry credentials.
use volo.Base.{
  ◌≡◌, refl, sym, ◌∙◌, ap, Bool, true, false, [], ◌∷◌, Option, none, some, ◌⊎◌, inl, inr,
  Bool-cases, arith,
}
use volo.Base.Bytes.{Bytes, eqb}
use volo.Base.Maps.{Map, bytes_eq, lookup, remove, lookup-insert, lookup-remove}
use volo.Http.Target.{
  Net, RemoteHost, ip, name, RemoteTarget, Target, Uri, gen_host, eq_ignore_ascii_case,
}
use volo.Http.Redirect.Head.{
  authorization, cookie, host_name, Parts, next_parts, change_method, change_to_get,
  remove_sensitive, update_host, replace_host, insert_host, update_request_extension,
  origin_changed, both_changed, remote_changed, remote_host_changed,
}

-- Neither header is there.
unfoldable pub IsClean : Map Bytes Bytes → Type 0
IsClean headers = (lookup authorization headers ≡ none) × (lookup cookie headers ≡ none)

lookup-remove-none :
    (k j : Bytes) (m : Map Bytes Bytes) → lookup j m ≡ none → lookup j (remove k m) ≡ none
lookup-remove-none k j m h =
    lookup-remove k j m ∙ elim (Bool-cases (eqb k j)) [ inl e ↦ rw (e) refl | inr e ↦ rw (e) h ]

IsClean-remove : (k : Bytes) (m : Map Bytes Bytes) → IsClean m → IsClean (remove k m)
unfolding IsClean
IsClean-remove k m (a, c) =
    (lookup-remove-none k authorization m a, lookup-remove-none k cookie m c)

module _ (net : Net) where
  IsClean-insert_host :
      (o : Option Bytes) (m : Map Bytes Bytes) → IsClean m → IsClean (insert_host net o m)
  unfolding IsClean insert_host eqb
  IsClean-insert_host none m h = h
  IsClean-insert_host (some v) m (a, c) =
      (lookup-insert host_name authorization v m ∙ a, lookup-insert host_name cookie v m ∙ c)

  IsClean-replace_host :
      (o : Option Bytes) (t : Target net) (m : Map Bytes Bytes)
      → IsClean m
      → IsClean (replace_host net o t m)
  unfolding replace_host
  IsClean-replace_host none t m h = h
  IsClean-replace_host (some v) t m h =
      IsClean-insert_host (gen_host net t) (remove host_name m) (IsClean-remove host_name m h)

  -- The credentials are removed where the origin changes.
  IsClean-removed : (m : Map Bytes Bytes) → IsClean (remove cookie (remove authorization m))
  unfolding IsClean eqb
  IsClean-removed m = (
    lookup-remove-none cookie authorization (remove authorization m)
        (lookup-remove authorization authorization m),
    lookup-remove cookie cookie (remove authorization m),
  )

  IsClean-change_method :
      (changes : Bool) (parts : Parts net)
      → IsClean parts.headers
      → IsClean (change_method net changes parts).headers
  unfolding change_method change_to_get
  IsClean-change_method false parts h = h
  IsClean-change_method true parts h =
      IsClean-remove _ _ (IsClean-remove _ _ (IsClean-remove _ _ (IsClean-remove _ _ h)))

  IsClean-remove_sensitive :
      (old new : Target net) (parts : Parts net)
      → (origin_changed net old new ≡ true) ⊎ IsClean parts.headers
      → IsClean (remove_sensitive net old new parts).headers
  unfolding remove_sensitive
  IsClean-remove_sensitive old new parts h = elim (Bool-cases (origin_changed net old new)) [
    | inl e ↦ rw (e) (IsClean-removed parts.headers)
    | inr e ↦ rw (e) (elim h [ inl t ↦ absurd cc | inr c ↦ c ])
  ]

  pub IsClean-next_parts :
      (changes : Bool) (old new : Target net) (uri : Uri net) (parts : Parts net)
      → (origin_changed net old new ≡ true) ⊎ IsClean parts.headers
      → IsClean (next_parts net changes old new uri parts).headers
  unfolding next_parts update_request_extension update_host
  IsClean-next_parts changes old new uri parts h =
      let head = change_method net changes parts in
      let clean =
        IsClean-remove_sensitive old new (record head { uri = uri })
          (elim h [ inl t ↦ inl t | inr c ↦ inr (IsClean-change_method changes parts c) ]) in
      IsClean-replace_host _ new _ clean

-- The comparisons of `http` and `std::net` are transitive.
pub record IsTransitive (net : Net) : Type 0 where
  pub scheme_trans :
      (a b c : net.Scheme)
      → net.same_scheme a b ≡ true
      → net.same_scheme b c ≡ true
      → net.same_scheme a c ≡ true
  pub ip_trans :
      (a b c : net.Ip) → net.same_ip a b ≡ true → net.same_ip b c ≡ true → net.same_ip a c ≡ true

eq_ignore_ascii_case_trans :
    (a b c : Bytes)
    → eq_ignore_ascii_case a b ≡ true
    → eq_ignore_ascii_case b c ≡ true
    → eq_ignore_ascii_case a c ≡ true
unfolding eq_ignore_ascii_case
eq_ignore_ascii_case_trans [] [] c h k = k
eq_ignore_ascii_case_trans [] (y ∷ b) c h k = absurd cc
eq_ignore_ascii_case_trans (x ∷ a) [] c h k = absurd cc
eq_ignore_ascii_case_trans (x ∷ a) (y ∷ b) [] h k = absurd cc
eq_ignore_ascii_case_trans (x ∷ a) (y ∷ b) (z ∷ c) h k =
    ground (arith, eq_ignore_ascii_case_trans a b c)

module _ (net : Net) (law : IsTransitive net) where
  host_trans :
      (a b c : RemoteHost net)
      → remote_host_changed net a b ≡ false
      → remote_host_changed net b c ≡ false
      → remote_host_changed net a c ≡ false
  unfolding remote_host_changed
  host_trans (ip a) (ip b) (ip c) h k = ground (arith, law.ip_trans a b c)
  host_trans (ip a) (ip b) (name c) h k = k
  host_trans (ip a) (name b) c h k = absurd cc
  host_trans (name a) (ip b) c h k = absurd cc
  host_trans (name a) (name b) (ip c) h k = k
  host_trans (name a) (name b) (name c) h k = ground (arith, eq_ignore_ascii_case_trans a b c)

  remote_trans :
      (a b c : RemoteTarget net)
      → remote_changed net a b ≡ false
      → remote_changed net b c ≡ false
      → remote_changed net a c ≡ false
  unfolding remote_changed
  remote_trans a b c h k =
      ground (arith, law.scheme_trans a.scheme b.scheme c.scheme, host_trans a.host b.host c.host)

  both_trans :
      (a b c : Option (RemoteTarget net))
      → both_changed net a b ≡ false
      → both_changed net b c ≡ false
      → both_changed net a c ≡ false
  unfolding both_changed
  both_trans none b c h k = absurd cc
  both_trans (some a) none c h k = absurd cc
  both_trans (some a) (some b) none h k = k
  both_trans (some a) (some b) (some c) h k = remote_trans a b c h k

  -- A request stays with the origin, or carries no credentials.
  module _ (initial : Target net) where
    unfoldable pub IsNear : Target net → Type 0
    IsNear target = (target ≡ initial) ⊎ (origin_changed net initial target ≡ false)

    unfoldable pub IsSafe : Target net → Map Bytes Bytes → Type 0
    IsSafe target headers = IsNear target ⊎ IsClean headers

    IsNear-next :
        (old new : Target net) → IsNear old → origin_changed net old new ≡ false → IsNear new
    unfolding IsNear origin_changed
    IsNear-next old new (inl e) h = inr (ap (λ t. origin_changed net t new) (sym e) ∙ h)
    IsNear-next old new (inr k) h = inr (both_trans _ _ _ k h)

    pub IsSafe-next :
        (changes : Bool) (old new : Target net) (uri : Uri net) (parts : Parts net)
        → IsSafe old parts.headers
        → IsSafe new (next_parts net changes old new uri parts).headers
    unfolding IsSafe
    IsSafe-next changes old new uri parts (inr clean) =
        inr (IsClean-next_parts net changes old new uri parts (inr clean))
    IsSafe-next changes old new uri parts (inl near) =
        elim (Bool-cases (origin_changed net old new)) [
          | inl e ↦ inr (IsClean-next_parts net changes old new uri parts (inl e))
          | inr e ↦ inl (IsNear-next old new near e)
        ]
