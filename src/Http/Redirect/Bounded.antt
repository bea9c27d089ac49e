-- ===== src/Http/Redirect/Bounded.antt =====
-- volo-http/src/client/layer/redirect.rs: how often the inner service is called.
use volo.Base.{
  ℕ, zero, suc, ◌+◌, ◌≤◌, ◌<◌, ◌≢◌, Bool, not, ◌||◌, ◌==◌, Option, arith, length, Bool-cases, inl,
  inr,
}
use volo.Base.Bytes.{Bytes}
use volo.Http.Target.{Net, Target, Uri, Context}
use volo.Http.Redirect.Head.{Body, Parts, update_target}
use volo.Http.Redirect.Hops.{on_reply-holds, pass-holds}
use volo.Http.Redirect.Follow.{Sent, Outcome, out_of_fuel, Run, Reply, log, finish, follow, call}

module _ (net : Net) {A X : Type 0} where
  -- The run ends, and has sent at most so many requests.
  pub record Ends (n : ℕ) (r : Run net A X) : Type 0 where
    pub few : length r.sent ≤ n
    pub ended : r.outcome ≢ out_of_fuel

  Ends-log : (n : ℕ) (s : Sent net) (r : Run net A X) → Ends n r → Ends (suc n) (log net s r)
  unfolding log
  Ends-log n s r e = record { few = omega (arith, e.few); ended = e.ended }

  Ends-finish :
      (n : ℕ) (cx : Context net) (out : Outcome net A X)
      → out ≢ out_of_fuel
      → Ends n (finish net cx out)
  unfolding finish
  Ends-finish n cx out h = record { few = omega arith; ended = h }

module _ (net : Net) (join : Target net → Uri net → Bytes → Option (Uri net))
    (should_follow : Target net → Parts net → Bool) (max_redirects : ℕ) {A X : Type 0} where
  module _ {W : Type 0}
      (inner : W → Context net → Parts net → Body → W × (Context net × Reply net A X)) where
    follow-Ends :
        (fuel redirects : ℕ) (w : W) (cx : Context net) (parts : Parts net) (body : Body)
        → max_redirects < fuel + redirects
        → redirects ≤ max_redirects
        → Ends net fuel
            (follow net join should_follow max_redirects inner fuel redirects w cx parts body)
    unfolding follow
    follow-Ends zero redirects w cx parts body enough small = absurd (omega arith)
    follow-Ends (suc fuel) redirects w cx parts body enough small =
        let step = inner w cx parts body in
        Ends-log net fuel _ _ (
          on_reply-holds net join should_follow max_redirects inner (Ends net fuel) redirects
            step.1.0 step.1.1 _ parts _ _ (Ends-finish net fuel step.1.0)
            (λ resp target next sent f.
              let below = f.below in
              follow-Ends fuel (suc redirects) step.0 (update_target net step.1.0 target) next sent
                (omega arith) (omega arith)))

    -- The layer always comes to an end, with an answer or an error: it calls the inner service at
    -- most once more than the number of redirects that it may follow, and the fuel of the model,
    -- which is that number, does not run out.
    pub call-Ends :
        (w : W) (cx : Context net) (parts : Parts net) (body : Body)
        → Ends net
            (suc max_redirects)
            (call net join should_follow max_redirects inner w cx parts body)
    unfolding call
    call-Ends w cx parts body =
        elim (Bool-cases (max_redirects == 0 || not (should_follow cx.target parts))) [
          | inl h ↦ rw (h) (
              Ends-log net max_redirects _ _
                (pass-holds net (Ends net max_redirects) _ _ (Ends-finish net max_redirects _)))
          | inr h ↦
              rw (h) (follow-Ends (suc max_redirects) 0 w cx parts body (omega arith) (omega arith))
        ]
