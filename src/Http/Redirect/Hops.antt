-- ===== src/Http/Redirect/Hops.antt =====
-- volo-http/src/client/layer/redirect.rs: when a response leads to a next request, and to which.
use volo.Base.{
  ℕ, ◌<◌, ◌≡◌, ◌≢◌, refl, sym, ◌∙◌, ap, Bool, true, false, not, ◌&&◌, Option, none, some, arith,
  leb, if◌then◌else◌, ◌⊎◌, inl, inr,
}
use volo.Base.Bytes.{Bytes}
use volo.Base.Maps.{lookup, bytes_eq}
use volo.Http.Target.{Net, Target, Uri, Context}
use volo.Http.Redirect.Head.{
  Body, empty_body, Parts, next_parts, location_name, status_is_redirect, should_change_to_get,
  update_target,
}
use volo.Http.Redirect.Follow.{
  inner_error, Outcome, answered, failed, out_of_fuel, Run, Reply, replied, inner_failed, finish,
  on_hop, on_reply, pass, too_many_redirects, body_not_replayable, Response, Hop, stop, refuse, go,
  admit, resolved, located, respond,
}

either : (a b : Bool) → (not a && not b) ≡ false → (a ≡ true) ⊎ (b ≡ true)
either true b h = inl refl
either false true h = inr refl
either false false h = absurd cc

module _ (net : Net) {A X : Type 0} (target : Target net) (parts : Parts net) (body : Body) where
  is_go : Hop net A X → Bool
  is_go (stop resp) = false
  is_go (refuse failure) = false
  is_go (go t p b) = true

  abbrev Goes : Hop net A X → Type 0
  Goes h = h ≡ go target parts body

  Goes-if :
      (c : Bool) (x y : Hop net A X)
      → is_go x ≡ false
      → Goes (if c then x else y)
      → (c ≡ false) × Goes y
  unfolding is_go
  Goes-if true x y h e = absurd (absurd_go (sym h ∙ ap is_go e))
    where
      absurd_go : false ≡ true → ⊥
      absurd_go k = absurd cc
  Goes-if false x y h e = (refl, e)

module _ (net : Net) {A X : Type 0} where
  on_hop-holds :
      (Q : Run net A X → Type 0) (cx : Context net) (h : Hop net A X)
      (go_on : Context net → Parts net → Body → Run net A X)
      → ((out : Outcome net A X) → out ≢ out_of_fuel → Q (finish net cx out))
      → ((target : Target net) (next : Parts net) (sent : Body)
          → h ≡ go target next sent
          → Q (go_on (update_target net cx target) next sent))
      → Q (on_hop net cx h go_on)
  unfolding on_hop
  on_hop-holds Q cx (stop resp) go_on stops goes = stops (answered resp) (λ h. absurd cc)
  on_hop-holds Q cx (refuse failure) go_on stops goes = stops (failed failure) (λ h. absurd cc)
  on_hop-holds Q cx (go target next sent) go_on stops goes = goes target next sent refl

  pub pass-holds :
      (Q : Run net A X → Type 0) (cx : Context net) (o : Reply net A X)
      → ((out : Outcome net A X) → out ≢ out_of_fuel → Q (finish net cx out))
      → Q (pass net cx o)
  unfolding pass
  pass-holds Q cx (replied resp) stops = stops (answered resp) (λ h. absurd cc)
  pass-holds Q cx (inner_failed x) stops = stops (failed (inner_error x)) (λ h. absurd cc)

module _ (net : Net) (max_redirects : ℕ) {A : Type 0} where
  -- The next request: its target, its head and its body.
  pub record Follows (redirects : ℕ) (resp : Response net A) (can_replay : Bool) (old : Target net)
      (parts : Parts net) (body : Body) (target : Target net) (next : Parts net) (sent : Body)
      : Type 0 where
    pub below : redirects < max_redirects
    pub changes : Bool
    pub changes_same : changes ≡ should_change_to_get resp.status parts.method
    pub uri : Uri net
    pub next_same : next ≡ next_parts net changes old target uri parts
    pub sent_same : sent ≡ (if changes then empty_body else body)
    pub can_send : (changes ≡ true) ⊎ (can_replay ≡ true)

module _ (net : Net) (join : Target net → Uri net → Bytes → Option (Uri net))
    (should_follow : Target net → Parts net → Bool) (max_redirects : ℕ) {A X : Type 0} where
  admit_go :
      (resp : Response net A) (changes can_replay : Bool) (t target : Target net)
      (p parts : Parts net) (b body : Body)
      → admit net join should_follow max_redirects {X = X} resp changes can_replay t p b
        ≡ go target parts body
      → ((target ≡ t) × ((parts ≡ p) × (body ≡ b))) × ((changes ≡ true) ⊎ (can_replay ≡ true))
  unfolding admit is_go
  admit_go resp changes can_replay t target p parts b body h =
      let (follow, rest) =
        Goes-if net target parts body (not (should_follow t p)) (stop resp)
          (if not changes && not can_replay then refuse body_not_replayable else go t p b) refl h in
      let (can, same) =
        Goes-if net target parts body (not changes && not can_replay) (refuse body_not_replayable)
          (go t p b) refl rest in
      ((cc, (cc, cc)), either changes can_replay can)

  resolved_go :
      (resp : Response net A) (can_replay : Bool) (old target : Target net) (p parts : Parts net)
      (b body : Body) (o : Option (Target net × Uri net)) (redirects : ℕ)
      → redirects < max_redirects
      → resolved net join should_follow max_redirects {X = X} resp can_replay old p b o
        ≡ go target parts body
      → Follows net max_redirects redirects resp can_replay old p b target parts body
  unfolding resolved
  resolved_go resp can_replay old target p parts b body none redirects small h = absurd cc
  resolved_go resp can_replay old target p parts b body (some (t, uri)) redirects small h =
      let changes = should_change_to_get resp.status p.method in
      let next = next_parts net changes old t uri p in
      let ((t_same, (p_same, b_same)), can) =
        admit_go resp changes can_replay t target next parts (if changes then empty_body else b)
          body h in
      record {
        below = small;
        changes = changes;
        changes_same = refl;
        uri = uri;
        next_same = p_same ∙ ap (λ u. next_parts net changes old u uri p) (sym t_same);
        sent_same = b_same;
        can_send = can;
      }

  located_go :
      (resp : Response net A) (can_replay : Bool) (old target : Target net) (p parts : Parts net)
      (b body : Body) (o : Option Bytes) (redirects : ℕ)
      → redirects < max_redirects
      → located net join should_follow max_redirects {X = X} resp can_replay old p b o
        ≡ go target parts body
      → Follows net max_redirects redirects resp can_replay old p b target parts body
  unfolding located
  located_go resp can_replay old target p parts b body none redirects small h = absurd cc
  located_go resp can_replay old target p parts b body (some location) redirects small h =
      resolved_go resp can_replay old target p parts b body _ redirects small h

  pub respond_go :
      (redirects : ℕ) (resp : Response net A) (can_replay : Bool) (old target : Target net)
      (p parts : Parts net) (b body : Body)
      → respond net join should_follow max_redirects {X = X} redirects resp can_replay old p b
        ≡ go target parts body
      → Follows net max_redirects redirects resp can_replay old p b target parts body
  unfolding respond is_go
  respond_go redirects resp can_replay old target p parts b body h =
      let found = lookup location_name resp.headers in
      let (again, more) =
        Goes-if net target parts body (not (status_is_redirect resp.status)) (stop resp)
          (if leb max_redirects redirects
            then refuse too_many_redirects
            else located net join should_follow max_redirects resp can_replay old p b found)
          refl h in
      let (below, rest) =
        Goes-if net target parts body (leb max_redirects redirects) (refuse too_many_redirects)
          (located net join should_follow max_redirects resp can_replay old p b found) refl more in
      located_go resp can_replay old target p parts b body found redirects (ground (arith, below))
        rest

  module _ {W : Type 0}
      (inner : W → Context net → Parts net → Body → W × (Context net × Reply net A X)) where
    -- What holds where the layer stops and of each next request holds of the run.
    pub on_reply-holds :
        (Q : Run net A X → Type 0) (redirects : ℕ) (cx : Context net) (o : Reply net A X)
        (can_replay : Bool) (parts : Parts net) (body : Body)
        (go_on : Context net → Parts net → Body → Run net A X)
        → ((out : Outcome net A X) → out ≢ out_of_fuel → Q (finish net cx out))
        → ((resp : Response net A) (target : Target net) (next : Parts net) (sent : Body)
            → Follows net max_redirects redirects resp can_replay cx.target parts body target next
                sent
            → Q (go_on (update_target net cx target) next sent))
        → Q (
            on_reply net join should_follow max_redirects inner redirects cx o can_replay parts body
              go_on)
    unfolding on_reply
    on_reply-holds Q redirects cx (inner_failed x) can_replay parts body go_on stops goes =
        stops (failed (inner_error x)) (λ h. absurd cc)
    on_reply-holds Q redirects cx (replied resp) can_replay parts body go_on stops goes =
        on_hop-holds net Q cx _ go_on stops (λ target next sent h.
          goes resp target next sent
            (respond_go redirects resp can_replay cx.target target parts next body sent h))
