-- ===== src/Http/Redirect/Credentials.antt =====
-- volo-http/src/client/layer/redirect.rs: where the layer sends credentials.
use volo.Base.{
  ℕ, zero, suc, ◌≡◌, refl, sym, Bool, true, not, ◌⊎◌, [], ◌∷◌, ◌||◌, ◌==◌, List, Option, subst, inl,
  inr, Bool-cases,
}
use volo.Base.Bytes.{Bytes}
use volo.Http.Target.{Net, Target, Uri, Context, apply}
use volo.Http.Redirect.Head.{Body, Parts, update_target, origin_changed}
use volo.Http.Redirect.Follow.{Sent, Reply, log, finish, follow, call}
use volo.Http.Redirect.Hops.{on_reply-holds, pass-holds}
use volo.Http.Redirect.Replay.{Every}
use volo.Http.Redirect.Origin.{
  IsTransitive, IsNear, IsSafe, IsSafe-next, IsClean, IsClean-next_parts,
}

-- A list of requests, as they are sent.
module _ (net : Net) where
  -- The next request goes to another origin.
  Leaves : Sent net → List (Sent net) → Type 0
  Leaves s [] = ⊥
  Leaves s (t ∷ rest) = origin_changed net s.target t.target ≡ true

  AreClean : List (Sent net) → Type 0
  AreClean = Every (λ s. IsClean s.parts.headers)

  -- After a request without credentials, and after one behind which the origin changes, no request
  -- has credentials.
  pub NeverBack : List (Sent net) → Type 0
  NeverBack [] = Unit {0}
  NeverBack (s ∷ rest) = (Leaves s rest ⊎ IsClean s.parts.headers → AreClean rest) × NeverBack rest

  After : Sent net → Target net → Type 0
  After s t = (origin_changed net s.target t ≡ true) ⊎ IsClean s.parts.headers

  -- Each request is clean if its target is one for which the one before says so.
  IsLinked : (Target net → Type 0) → List (Sent net) → Type 0
  IsLinked Q [] = Unit {0}
  IsLinked Q (s ∷ rest) = (Q s.target → IsClean s.parts.headers) × IsLinked (After s) rest

  linked-AreClean :
      (Q : Target net → Type 0) (l : List (Sent net))
      → IsLinked Q l
      → ((t : Target net) → Q t)
      → AreClean l
  unfolding IsLinked AreClean Every After
  linked-AreClean Q [] linked h = tt
  linked-AreClean Q (s ∷ rest) (first, others) h =
      let now = first (h s.target) in (now, linked-AreClean (After s) rest others (λ t. inr now))

  rest-AreClean :
      (s : Sent net) (l : List (Sent net))
      → Leaves s l ⊎ IsClean s.parts.headers
      → IsLinked (After s) l
      → AreClean l
  unfolding IsLinked AreClean Every Leaves After
  rest-AreClean s l (inr clean) linked = linked-AreClean (After s) l linked (λ t. inr clean)
  rest-AreClean s [] (inl away) linked = tt
  rest-AreClean s (t ∷ rest) (inl away) (first, others) =
      let now = first (inl away) in (now, linked-AreClean (After t) rest others (λ u. inr now))

  linked-NeverBack : (Q : Target net → Type 0) (l : List (Sent net)) → IsLinked Q l → NeverBack l
  unfolding IsLinked NeverBack
  linked-NeverBack Q [] linked = tt
  linked-NeverBack Q (s ∷ rest) (first, others) =
      (λ h. rest-AreClean s rest h others, linked-NeverBack (After s) rest others)

module _ (net : Net) (join : Target net → Uri net → Bytes → Option (Uri net))
    (should_follow : Target net → Parts net → Bool) (max_redirects : ℕ) {A X W : Type 0}
    (inner : W → Context net → Parts net → Body → W × (Context net × Reply net A X))
    (keeps : (w : W) (cx : Context net) (parts : Parts net) (body : Body)
      → (inner w cx parts body).1.0.target ≡ cx.target) where
  follow-IsLinked :
      (fuel redirects : ℕ) (w : W) (cx : Context net) (parts : Parts net) (body : Body)
      (Q : Target net → Type 0)
      → (Q cx.target → IsClean parts.headers)
      → IsLinked net Q
          (follow net join should_follow max_redirects inner fuel redirects w cx parts body).sent
  unfolding IsLinked After follow log finish update_target apply
  follow-IsLinked zero redirects w cx parts body Q h = tt
  follow-IsLinked (suc fuel) redirects w cx parts body Q h =
      let step = inner w cx parts body in
      let s : Sent net = record { target = cx.target; parts = parts; body = body } in
      (
        h,
        on_reply-holds net join should_follow max_redirects inner
            (λ r. IsLinked net (After net s) r.sent) redirects step.1.0 step.1.1 _ parts _ _
            (λ out e. tt)
            (λ resp target next sent f.
              follow-IsLinked fuel (suc redirects) step.0 (update_target net step.1.0 target) next
                sent (After net s)
                (λ away.
                  subst (λ p. IsClean p.headers) (sym f.next_same)
                    (IsClean-next_parts net f.changes step.1.0.target target f.uri parts (
                      subst (λ t. (origin_changed net t target ≡ true) ⊎ IsClean parts.headers)
                        (sym (keeps w cx parts body)) away)))),
      )

  call-IsLinked :
      (w : W) (cx : Context net) (parts : Parts net) (body : Body)
      → IsLinked net (λ t. ⊥) (call net join should_follow max_redirects inner w cx parts body).sent
  unfolding IsLinked call log finish
  call-IsLinked w cx parts body =
      let step = inner w cx parts body in
      let s : Sent net = record { target = cx.target; parts = parts; body = body } in
      elim (Bool-cases (max_redirects == 0 || not (should_follow cx.target parts))) [
        | inl h ↦ rw (h) (
          (λ e. absurd e),
          pass-holds net (λ r. IsLinked net (After net s) r.sent) step.1.0 step.1.1 (λ out k. tt),
        )
        | inr h ↦
            rw (h) (follow-IsLinked (suc max_redirects) 0 w cx parts body (λ t. ⊥) (λ e. absurd e))
      ]

module _ (net : Net) (law : IsTransitive net)
    (join : Target net → Uri net → Bytes → Option (Uri net))
    (should_follow : Target net → Parts net → Bool) (max_redirects : ℕ) {A X W : Type 0}
    (inner : W → Context net → Parts net → Body → W × (Context net × Reply net A X))
    (keeps : (w : W) (cx : Context net) (parts : Parts net) (body : Body)
      → (inner w cx parts body).1.0.target ≡ cx.target)
    (initial : Target net) where
  AreSafe : List (Sent net) → Type 0
  AreSafe = Every (λ s. IsSafe net law initial s.target s.parts.headers)

  follow-AreSafe :
      (fuel redirects : ℕ) (w : W) (cx : Context net) (parts : Parts net) (body : Body)
      → IsSafe net law initial cx.target parts.headers
      → AreSafe
          (follow net join should_follow max_redirects inner fuel redirects w cx parts body).sent
  unfolding AreSafe Every follow log finish update_target apply
  follow-AreSafe zero redirects w cx parts body h = tt
  follow-AreSafe (suc fuel) redirects w cx parts body h =
      let step = inner w cx parts body in
      let safe =
        subst (λ t. IsSafe net law initial t parts.headers) (sym (keeps w cx parts body)) h in
      (
        h,
        on_reply-holds net join should_follow max_redirects inner (λ r. AreSafe r.sent) redirects
            step.1.0 step.1.1 _ parts _ _ (λ out e. tt)
            (λ resp target next sent f.
              follow-AreSafe fuel (suc redirects) step.0 (update_target net step.1.0 target) next
                sent
                (subst (λ p. IsSafe net law initial target p.headers) (sym f.next_same)
                  (IsSafe-next net law initial f.changes step.1.0.target target f.uri parts safe))),
      )

  call_safe :
      (w : W) (cx : Context net) (parts : Parts net) (body : Body)
      → cx.target ≡ initial
      → AreSafe (call net join should_follow max_redirects inner w cx parts body).sent
  unfolding AreSafe Every call log finish IsSafe IsNear
  call_safe w cx parts body e =
      let step = inner w cx parts body in
      elim (Bool-cases (max_redirects == 0 || not (should_follow cx.target parts))) [
        | inl h ↦
            rw (h)
              (inl (inl e), pass-holds net (λ r. AreSafe r.sent) step.1.0 step.1.1 (λ out k. tt))
        | inr h ↦ rw (h) (follow-AreSafe (suc max_redirects) 0 w cx parts body (inl (inl e)))
      ]

module _ (net : Net) (law : IsTransitive net)
    (join : Target net → Uri net → Bytes → Option (Uri net))
    (should_follow : Target net → Parts net → Bool) (max_redirects : ℕ) {A X W : Type 0}
    (inner : W → Context net → Parts net → Body → W × (Context net × Reply net A X)) where
  -- With an inner service that keeps the target, and comparisons of schemes and addresses that are
  -- transitive, each request that the layer sends goes to the first target or to one of its
  -- origin, or it has neither an `Authorization` nor a `Cookie` header; and after a request that has
  -- neither, and after one behind which the origin changes, no later request has one of them: the
  -- credentials never come back, not even on the way back to the first origin.
  pub call-IsSafe :
      (w : W) (cx : Context net) (parts : Parts net) (body : Body)
      → ((w : W) (cx : Context net) (parts : Parts net) (body : Body)
          → (inner w cx parts body).1.0.target ≡ cx.target)
      → Every
          (λ s. IsSafe net law cx.target s.target s.parts.headers)
          (call net join should_follow max_redirects inner w cx parts body).sent
        × NeverBack net (call net join should_follow max_redirects inner w cx parts body).sent
  unfolding AreSafe
  call-IsSafe w cx parts body keeps = (
    call_safe net law join should_follow max_redirects inner keeps cx.target w cx parts body refl,
    linked-NeverBack net (λ t. ⊥) _
        (call-IsLinked net join should_follow max_redirects inner keeps w cx parts body),
  )
