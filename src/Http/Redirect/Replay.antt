-- ===== src/Http/Redirect/Replay.antt =====
-- volo-http/src/client/layer/redirect.rs: the methods and the bodies of the requests that follow.
use volo.Base.{
  ℕ, zero, suc, ◌≡◌, refl, sym, ◌∙◌, ap, Bool, true, false, not, ◌||◌, ◌==◌, List, [], ◌∷◌, Option,
  ◌⊎◌, inl, inr, if◌then◌else◌, Bool-cases,
}
use volo.Base.Bytes.{Bytes}
use volo.Http.Target.{Net, Target, Uri, Context}
use volo.Http.Redirect.Head.{
  Method, get, Body, full, once, empty_body, try_clone, Parts, next_parts, change_method,
  change_to_get, remove_sensitive, update_host, update_request_extension, update_target,
  origin_changed,
}
use volo.Http.Redirect.Follow.{Sent, Run, Reply, log, finish, follow, pass, on_reply, call}
use volo.Http.Redirect.Hops.{on_reply-holds, pass-holds}

module _ {A : Type 0} where
  unfoldable pub Every : (A → Type 0) → List A → Type 0
  Every P [] = Unit {0}
  Every P (x ∷ xs) = P x × Every P xs

  -- All but the first.
  unfoldable pub Later : (A → Type 0) → List A → Type 0
  Later P [] = Unit {0}
  Later P (x ∷ xs) = Every P xs

-- A request that follows has the method and the body of the first one, which is then not a stream,
-- or it is a `GET` without a body.
pub IsReplay : Method → Body → Method → Body → Type 0
IsReplay method body m b =
    ((m ≡ method) × ((b ≡ body) × ((bytes : Bytes) × (body ≡ full bytes))))
    ⊎ ((m ≡ get) × (b ≡ empty_body))

can_clone :
    (body : Body)
    → (try_clone body).1 ≡ true
    → ((try_clone body).0 ≡ body) × ((bytes : Bytes) × (body ≡ full bytes))
unfolding try_clone
can_clone (full bytes) h = (refl, (bytes, refl))
can_clone (once bytes) h = absurd cc

module _ (net : Net) where
  method-remove_sensitive :
      (old new : Target net) (parts : Parts net)
      → (remove_sensitive net old new parts).method ≡ parts.method
  unfolding remove_sensitive
  method-remove_sensitive old new parts = elim (Bool-cases (origin_changed net old new)) [
    | inl h ↦ rw (h) refl
    | inr h ↦ rw (h) refl
  ]

  method-next_parts :
      (changes : Bool) (old new : Target net) (uri : Uri net) (parts : Parts net)
      → (next_parts net changes old new uri parts).method ≡ (if changes then get else parts.method)
  unfolding next_parts update_request_extension update_host change_method change_to_get
  method-next_parts true old new uri parts = method-remove_sensitive old new _
  method-next_parts false old new uri parts = method-remove_sensitive old new _

module _ (net : Net) (method : Method) (first : Body) where
  -- The request that is sent now, and what is kept of its body.
  IsReplay-next :
      (changes : Bool) (parts : Parts net) (body : Body) (m : Method) (b : Body)
      → ((parts.method ≡ method) × (body ≡ first)) ⊎ IsReplay method first parts.method body
      → m ≡ (if changes then get else parts.method)
      → b ≡ (if changes then empty_body else (try_clone body).0)
      → (changes ≡ true) ⊎ ((try_clone body).1 ≡ true)
      → IsReplay method first m b
  unfolding IsReplay
  IsReplay-next true parts body m b now m_same b_same can = inr (m_same, b_same)
  IsReplay-next false parts body m b now m_same b_same (inl h) = absurd cc
  IsReplay-next false parts body m b (inl (p, q)) m_same b_same (inr can) =
      let (kept, (bytes, is_full)) = can_clone body can in
      inl (m_same ∙ p, (b_same ∙ kept ∙ q, (bytes, sym q ∙ is_full)))
  IsReplay-next false parts body m b (inr (inl (p, (q, f)))) m_same b_same (inr can) =
      let (kept, _) = can_clone body can in inl (m_same ∙ p, (b_same ∙ kept ∙ q, f))
  IsReplay-next false parts body m b (inr (inr (p, q))) m_same b_same (inr can) =
      let (kept, _) = can_clone body can in inr (m_same ∙ p, b_same ∙ kept ∙ q)

module _ (net : Net) (join : Target net → Uri net → Bytes → Option (Uri net))
    (should_follow : Target net → Parts net → Bool) (max_redirects : ℕ) {A X W : Type 0}
    (inner : W → Context net → Parts net → Body → W × (Context net × Reply net A X)) where
  module _ (method : Method) (first : Body) where
    AreReplays : List (Sent net) → Type 0
    AreReplays = Every (λ s. IsReplay method first s.parts.method s.body)

    -- After a response, where what goes on from a replay sends replays.
    on_reply-AreReplays :
        (redirects : ℕ) (cx : Context net) (o : Reply net A X) (parts : Parts net) (body : Body)
        (go_on : Context net → Parts net → Body → Run net A X)
        → ((parts.method ≡ method) × (body ≡ first)) ⊎ IsReplay method first parts.method body
        → ((cx : Context net) (p : Parts net) (b : Body)
            → IsReplay method first p.method b
            → AreReplays (go_on cx p b).sent)
        → AreReplays
            (on_reply net join should_follow max_redirects inner redirects cx o
              (try_clone body).1
              parts
              (try_clone body).0
              go_on).sent
    unfolding AreReplays Every finish
    on_reply-AreReplays redirects cx o parts body go_on now goes =
        on_reply-holds net join should_follow max_redirects inner (λ r. AreReplays r.sent) redirects
          cx o (try_clone body).1 parts (try_clone body).0 go_on (λ out h. tt)
          (λ resp target next sent f.
            let m =
              ap (λ p. p.method) f.next_same
              ∙ method-next_parts net f.changes cx.target target f.uri parts in
            goes (update_target net cx target) next sent (
              IsReplay-next net method first f.changes parts body next.method sent now m f.sent_same
                f.can_send))

    follow-AreReplays :
        (fuel redirects : ℕ) (w : W) (cx : Context net) (parts : Parts net) (body : Body)
        → IsReplay method first parts.method body
        → AreReplays
            (follow net join should_follow max_redirects inner fuel redirects w cx parts body).sent
    unfolding AreReplays Every follow log finish
    follow-AreReplays zero redirects w cx parts body h = tt
    follow-AreReplays (suc fuel) redirects w cx parts body h =
        let step = inner w cx parts body in
        (
          h,
          on_reply-AreReplays redirects step.1.0 step.1.1 parts body _ (inr h)
              (follow-AreReplays fuel (suc redirects) step.0),
        )

    call-Later :
        (w : W) (cx : Context net) (parts : Parts net) (body : Body)
        → parts.method ≡ method
        → body ≡ first
        → Later
            (λ s. IsReplay method first s.parts.method s.body)
            (call net join should_follow max_redirects inner w cx parts body).sent
    unfolding call follow log AreReplays Later Every finish pass
    call-Later w cx parts body m b =
        let step = inner w cx parts body in
        elim (Bool-cases (max_redirects == 0 || not (should_follow cx.target parts))) [
          | inl h ↦ rw (h) (pass-holds net (λ r. AreReplays r.sent) step.1.0 step.1.1 (λ out e. tt))
          | inr h ↦ rw (h) (
              on_reply-AreReplays 0 step.1.0 step.1.1 parts body _ (inl (m, b))
                (follow-AreReplays max_redirects 1 step.0))
        ]

  -- Whatever the inner service answers, each request after the first has the method and the body
  -- of the first one, whose body is then whole and not a stream, or it is a `GET` without a body: a
  -- stream is sent once.
  pub call-IsReplay :
      (w : W) (cx : Context net) (parts : Parts net) (body : Body)
      → Later
          (λ s. IsReplay parts.method body s.parts.method s.body)
          (call net join should_follow max_redirects inner w cx parts body).sent
  call-IsReplay w cx parts body = call-Later parts.method body w cx parts body refl refl
