-- ===== src/Http/Redirect/Runs.antt =====
-- volo-http/src/client/layer/redirect.rs: a request with credentials that is sent to another host.
use volo.Base.{ℕ, ◌≡◌, refl, ◌∙◌, ◌==◌, true, Bool, [], ◌∷◌, Option, none, some, if◌then◌else◌}
use volo.Base.Bytes.{Bytes, codes, eqb, eqb_iff}
use volo.Http.Target.{Net, Target, remote, name, Uri, Context}
use volo.Http.Redirect.Head.{post, Body, full, authorization, location_name, Parts}
use volo.Http.Redirect.Follow.{Reply, replied, call}
use volo.Http.Redirect.Bounded.{Ends, call-Ends}
use volo.Http.Redirect.Replay.{Every, Later, IsReplay, call-IsReplay}
use volo.Http.Redirect.Origin.{IsTransitive, IsSafe}
use volo.Http.Redirect.Credentials.{NeverBack, call-IsSafe}

abbrev texts : Net
texts = record {
  Scheme = Bytes;
  http_scheme = codes "http";
  https_scheme = codes "https";
  same_scheme = eqb;
  scheme_text = λ s. s;
  Ip = Bytes;
  same_ip = eqb;
  is_ipv4 = λ a. true;
  ip_text = λ a. a;
  parse_ip = λ b. none;
  port_text = λ n. codes "81";
  is_value = λ v. true;
}

eqb_trans : (a b c : Bytes) → eqb a b ≡ true → eqb b c ≡ true → eqb a c ≡ true
eqb_trans a b c h k = (eqb_iff a c).1 ((eqb_iff a b).0 h ∙ (eqb_iff b c).0 k)

texts-IsTransitive : IsTransitive texts
texts-IsTransitive = record { scheme_trans = eqb_trans; ip_trans = eqb_trans }

abbrev first_context : Context texts
first_context = record {
  target = remote (record { scheme = codes "http"; host = name (codes "a"); port = 80 });
  callee = record { service_name = codes "a"; address = none; port = some 80 };
}

abbrev uri_to : Bytes → Uri texts
uri_to host = record {
  scheme = some (codes "http");
  host = some host;
  port_u16 = none;
  path_and_query = some (codes "/");
}

abbrev login : Parts texts
login = record {
  method = post;
  uri = uri_to (codes "a");
  headers = (authorization, codes "secret") ∷ [];
  scheme = some (codes "http");
}

-- The location is the name of the host.
abbrev join_host : Target texts → Uri texts → Bytes → Option (Uri texts)
join_host target uri location = some (uri_to location)

abbrev always : Target texts → Parts texts → Bool
always target parts = true

-- The first answer is a redirect to another host, the second one is not.
abbrev answer : ℕ → Context texts → Parts texts → Body → ℕ × (Context texts × Reply texts ℕ ℕ)
answer n cx parts body = (
  1,
  (
    cx,
    replied (record {
      status = if n == 0 then 302 else 200;
      headers = (location_name, codes "b") ∷ [];
      content = n;
    }),
  ),
)

call-Ends_example :
    Ends texts 11 (call texts join_host always 10 answer 0 first_context login (full (codes "x")))
call-Ends_example =
    call-Ends texts join_host always 10 answer 0 first_context login (full (codes "x"))

call-IsReplay_example :
    Later
      (λ s. IsReplay post (full (codes "x")) s.parts.method s.body)
      (call texts join_host always 10 answer 0 first_context login (full (codes "x"))).sent
call-IsReplay_example =
    call-IsReplay texts join_host always 10 answer 0 first_context login (full (codes "x"))

call-IsSafe_example :
    Every
      (λ s. IsSafe texts texts-IsTransitive first_context.target s.target s.parts.headers)
      (call texts join_host always 10 answer 0 first_context login (full (codes "x"))).sent
    × NeverBack texts
        (call texts join_host always 10 answer 0 first_context login (full (codes "x"))).sent
call-IsSafe_example =
    call-IsSafe texts texts-IsTransitive join_host always 10 answer 0 first_context login
      (full (codes "x")) (λ w cx parts body. refl)
