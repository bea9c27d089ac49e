-- ===== src/Grpc/Infer/Success.antt =====
-- volo-grpc/src/status.rs: when a call has succeeded.
use volo.Base.{ℕ, ◌≡◌, refl, sym, ◌∙◌, ◌↔◌, Bool, true, false, Option, none, some, if◌then◌else◌}
use volo.Base.Bytes.{Bytes}
use volo.Base.Maps.{lookup, remove, bytes_eq, lookup-remove}
use volo.Grpc.Status.{Code, ok, from_bytes}
use volo.Grpc.Infer.{
  HeaderMap, Status, Outcome, done, broken, grpc_status, grpc_message, grpc_details, message_of,
  details_of, other_headers, status_of, with_details, with_code, from_header_map, Inferred, success,
  failure, is_ok, code_of_http, http_failure, infer_http, infer_status, infer_found,
  infer_grpc_status,
}

unfoldable pub is_success : Outcome Inferred → Bool
is_success (done success) = true
is_success (done (failure s)) = false
is_success broken = false

http_fails : (status : ℕ) (c : Option Code) → is_success (done (http_failure status c)) ≡ false
unfolding is_success http_failure
http_fails status none = refl
http_fails status (some c) = refl

success_if :
    (b : Bool) (s : Status) → is_success (done (if b then success else failure (some s))) ≡ b
unfolding is_success
success_if true s = refl
success_if false s = refl

is_ok→ok : (c : Code) → is_ok c ≡ true → c ≡ ok
unfolding is_ok
is_ok→ok ok h = refl
is_ok→ok _ h = cc

module _ (percent_decode : Bytes → Option Bytes) (base64 : Bytes → Option Bytes) where
  -- The metadata of a status are the headers without the three that carry the status.
  pub lookup-other_headers :
      (k : Bytes) (headers : HeaderMap)
      → lookup k (other_headers percent_decode base64 headers) ≡ (
          if bytes_eq.beq grpc_details k
          then none
          else if bytes_eq.beq grpc_message k
          then none
          else if bytes_eq.beq grpc_status k
          then none
          else lookup k headers)
  unfolding other_headers
  lookup-other_headers k headers =
      rw
        (
          lookup-remove grpc_details k (remove grpc_message (remove grpc_status headers)),
          lookup-remove grpc_message k (remove grpc_status headers),
          lookup-remove grpc_status k headers,
        )
        refl

  -- What the trailers must hold for a call to have succeeded.
  pub record Succeeds (headers : HeaderMap) : Type 0 where
    pub code : Bytes
    pub message : Bytes
    pub details : Bytes
    pub has_code : lookup grpc_status headers ≡ some code
    pub code_is_ok : from_bytes code ≡ ok
    pub has_message : message_of percent_decode base64 (lookup grpc_message headers) ≡ some message
    pub has_details : details_of percent_decode base64 (lookup grpc_details headers) ≡ done details

  -- Whether the call has succeeded, from what the three headers give.
  succeeds_with : Code → HeaderMap → Option Bytes → Outcome Bytes → Bool
  succeeds_with code headers message broken = false
  succeeds_with code headers none (done details) = false
  succeeds_with code headers (some m) (done details) = is_ok code

  infer_details :
      (status : ℕ) (code : Code) (headers : HeaderMap) (details : Outcome Bytes)
      → is_success (infer_found status (with_details percent_decode base64 code headers details))
        ≡ succeeds_with code headers
            (message_of percent_decode base64 (lookup grpc_message headers))
            details
  unfolding is_success infer_found with_details infer_status status_of succeeds_with is_ok
  infer_details status code headers broken = refl
  infer_details status code headers (done details) =
      infer_message (message_of percent_decode base64 (lookup grpc_message headers))
    where
      infer_message :
          (m : Option Bytes)
          → is_success
              (done (infer_status (status_of percent_decode base64 code headers m details)))
            ≡ succeeds_with code headers m (done details)
      infer_message none = refl
      infer_message (some m) = success_if (is_ok code) _

  succeeds_with-Succeeds :
      (headers : HeaderMap) (code : Bytes) (m : Option Bytes) (d : Outcome Bytes)
      → lookup grpc_status headers ≡ some code
      → message_of percent_decode base64 (lookup grpc_message headers) ≡ m
      → details_of percent_decode base64 (lookup grpc_details headers) ≡ d
      → succeeds_with (from_bytes code) headers m d ≡ true
      → Succeeds headers
  unfolding succeeds_with
  succeeds_with-Succeeds headers code m broken hc hm hd h = absurd cc
  succeeds_with-Succeeds headers code none (done details) hc hm hd h = absurd cc
  succeeds_with-Succeeds headers code (some message) (done details) hc hm hd h = record {
    code = code;
    message = message;
    details = details;
    has_code = hc;
    code_is_ok = is_ok→ok (from_bytes code) h;
    has_message = hm;
    has_details = hd;
  }

  code-Succeeds :
      (headers : HeaderMap) (status : ℕ) (c : Option Bytes)
      → lookup grpc_status headers ≡ c
      → is_success (infer_found status (with_code percent_decode base64 headers c)) ≡ true
      → Succeeds headers
  unfolding with_code infer_found infer_http
  code-Succeeds headers status none hc h = absurd (cc (http_fails status (code_of_http status), h))
  code-Succeeds headers status (some code) hc h =
      succeeds_with-Succeeds headers code _ _ hc refl refl
        (sym (infer_details status (from_bytes code) headers _) ∙ h)

  -- A call whose stream ended with trailers has succeeded exactly when the trailers hold a
  -- `grpc-status` that is read as `ok`, a message, if any, that decodes, and details, if any,
  -- that are base64.
  pub infer_grpc_status-Succeeds :
      (headers : HeaderMap) (status : ℕ)
      → (is_success (infer_grpc_status percent_decode base64 (some headers) status) ≡ true)
        ↔ Succeeds headers
  unfolding infer_grpc_status from_header_map with_code succeeds_with is_ok
  infer_grpc_status-Succeeds headers status = (code-Succeeds headers status _ refl, back)
    where
      back :
          Succeeds headers
          → is_success (infer_grpc_status percent_decode base64 (some headers) status) ≡ true
      back s = rw (s.has_code) (
          (infer_details status (from_bytes s.code) headers _)
          ∙ rw (s.has_message, s.has_details, s.code_is_ok) refl)

  -- A stream that ended without trailers has not succeeded, whatever its HTTP status.
  pub infer_grpc_status_bare :
      (status : ℕ) → is_success (infer_grpc_status percent_decode base64 none status) ≡ false
  unfolding infer_grpc_status infer_http
  infer_grpc_status_bare status = http_fails status (code_of_http status)
