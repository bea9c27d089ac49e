-- ===== src/Http/Redirect/Follow.antt =====
-- volo-http/src/client/layer/redirect.rs: the loop that follows redirects.
use volo.Base.{
  ℕ, zero, suc, Bool, not, ◌&&◌, ◌||◌, List, [], ◌∷◌, Option, none, some, leb, ◌==◌, if◌then◌else◌,
}
use volo.Base.Bytes.{Bytes}
use volo.Base.Maps.{Map, bytes_eq, lookup}
use volo.Http.Target.{Net, Target, Uri, from_uri, Context}
use volo.Http.Redirect.Head.{
  Body, empty_body, try_clone, location_name, status_is_redirect, should_change_to_get, Parts,
  next_parts, update_target,
}

pub data Failure (X : Type 0) : Type 0 where
  too_many_redirects invalid_redirect_location body_not_replayable : Failure X
  inner_error : X → Failure X

module _ (net : Net) where
  pub record Response (A : Type 0) : Type 0 where
    pub status : ℕ
    pub headers : Map Bytes Bytes
    pub content : A

  -- What the layer does with a response.
  pub data Hop (A X : Type 0) : Type 0 where
    stop : Response A → Hop A X
    refuse : Failure X → Hop A X
    go : Target net → Parts net → Body → Hop A X

  -- A request as it is sent, and the requests that were, with the result.
  pub record Sent : Type 0 where
    pub target : Target net
    pub parts : Parts net
    pub body : Body

  pub data Outcome (A X : Type 0) : Type 0 where
    answered : Response A → Outcome A X
    failed : Failure X → Outcome A X
    out_of_fuel : Outcome A X

  pub record Run (A X : Type 0) : Type 0 where
    pub sent : List Sent
    pub context : Context net
    pub outcome : Outcome A X

  pub data Reply (A X : Type 0) : Type 0 where
    replied : Response A → Reply A X
    inner_failed : X → Reply A X

  module _ {A X : Type 0} where
    unfoldable pub log : Sent → Run A X → Run A X
    log s r = record r { sent = s ∷ r.sent }

    unfoldable pub finish : Context net → Outcome A X → Run A X
    finish cx outcome = record { sent = []; context = cx; outcome = outcome }

    unfoldable pub on_hop :
        Context net → Hop A X → (Context net → Parts net → Body → Run A X) → Run A X
    on_hop cx (stop resp) go_on = finish cx (answered resp)
    on_hop cx (refuse failure) go_on = finish cx (failed failure)
    on_hop cx (go target parts body) go_on = go_on (update_target net cx target) parts body

    unfoldable pub pass : Context net → Reply A X → Run A X
    pass cx (replied resp) = finish cx (answered resp)
    pass cx (inner_failed x) = finish cx (failed (inner_error x))

  unfoldable pub path_of : Uri net → Uri net
  path_of uri = record {
    scheme = none;
    host = none;
    port_u16 = none;
    path_and_query = some (elim uri.path_and_query [ none ↦ 47 ∷ [] | some path ↦ path ]);
  }

  unfoldable pub targeted : Uri net → Option (Target net) → Option (Target net × Uri net)
  targeted uri none = none
  targeted uri (some target) = some (target, path_of uri)

  unfoldable pub parsed : Option (Uri net) → Option (Target net × Uri net)
  parsed none = none
  parsed (some uri) = targeted uri (from_uri net uri)

  -- `join` is what the crates `url` and `http` make of the target, the path and the location: the
  -- URI of the next request.
  module _ (join : Target net → Uri net → Bytes → Option (Uri net)) where
    unfoldable pub resolve_redirect : Target net → Uri net → Bytes → Option (Target net × Uri net)
    resolve_redirect target uri location = parsed (join target uri location)

    -- The predicate of the layer is an argument.
    module _ (should_follow : Target net → Parts net → Bool) (max_redirects : ℕ)
        {A X : Type 0} where
      unfoldable pub admit : Response A → Bool → Bool → Target net → Parts net → Body → Hop A X
      admit resp changes can_replay target parts body =
          if not (should_follow target parts)
          then stop resp
          else if not changes && not can_replay
          then refuse body_not_replayable
          else go target parts body

      unfoldable pub resolved :
          Response A
          → Bool
          → Target net
          → Parts net
          → Body
          → Option (Target net × Uri net)
          → Hop A X
      resolved resp can_replay old parts body none = refuse invalid_redirect_location
      resolved resp can_replay old parts body (some (target, uri)) =
          let changes = should_change_to_get resp.status parts.method in
          admit resp changes can_replay target (next_parts net changes old target uri parts)
            (if changes then empty_body else body)

      unfoldable pub located :
          Response A → Bool → Target net → Parts net → Body → Option Bytes → Hop A X
      located resp can_replay old parts body none = stop resp
      located resp can_replay old parts body (some location) =
          resolved resp can_replay old parts body (resolve_redirect old parts.uri location)

      unfoldable pub respond : ℕ → Response A → Bool → Target net → Parts net → Body → Hop A X
      respond redirects resp can_replay old parts body =
          if not (status_is_redirect resp.status)
          then stop resp
          else if leb max_redirects redirects
          then refuse too_many_redirects
          else located resp can_replay old parts body (lookup location_name resp.headers)

      -- The inner service, with its own state.
      module _ {W : Type 0}
          (inner : W → Context net → Parts net → Body → W × (Context net × Reply A X)) where
        unfoldable pub on_reply :
            ℕ
            → Context net
            → Reply A X
            → Bool
            → Parts net
            → Body
            → (Context net → Parts net → Body → Run A X)
            → Run A X
        on_reply redirects cx (inner_failed x) can_replay parts body go_on =
            finish cx (failed (inner_error x))
        on_reply redirects cx (replied resp) can_replay parts body go_on =
            on_hop cx (respond redirects resp can_replay cx.target parts body) go_on

        -- The loop, on fuel.
        unfoldable pub follow : ℕ → ℕ → W → Context net → Parts net → Body → Run A X
        follow zero redirects w cx parts body = finish cx out_of_fuel
        follow (suc fuel) redirects w cx parts body =
            let (kept, can_replay) = try_clone body in
            let step = inner w cx parts body in
            log (record { target = cx.target; parts = parts; body = body })
              (on_reply redirects step.1.0 step.1.1 can_replay parts kept
                (follow fuel (suc redirects) step.0))

        unfoldable pub call : W → Context net → Parts net → Body → Run A X
        call w cx parts body =
            if max_redirects == 0 || not (should_follow cx.target parts)
            then (let step = inner w cx parts body in
                log (record { target = cx.target; parts = parts; body = body })
                  (pass step.1.0 step.1.1))
            else follow (suc max_redirects) 0 w cx parts body
