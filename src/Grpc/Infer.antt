-- ===== src/Grpc/Infer.antt =====
-- volo-grpc/src/status.rs: the status of a call, from its trailers or from the HTTP status.
pub mod Success
use volo.Base.{
  ℕ, ◌≡◌, refl, sym, ◌∙◌, ◌↔◌, Bool, true, false, [], Option, none, some, ◌==◌, if◌then◌else◌,
}
use volo.Base.Bytes.{Bytes, codes}
use volo.Base.Maps.{Map, lookup, remove, bytes_eq, lookup-remove}
use volo.Grpc.Status.{
  Code, ok, cancelled, unknown, internal, unauthenticated, permission_denied, unimplemented,
  unavailable, resource_exhausted, from_bytes,
}

-- `reason` and `message` texts that the source makes with `format!` are the constructors.
pub data Message : Type 0 where
  text : Bytes → Message
  not_unicode : Message
  missing_status : ℕ → Message

abbrev pub HeaderMap : Type 0
HeaderMap = Map Bytes Bytes

pub record Status : Type 0 where
  pub code : Code
  pub message : Message
  pub details : Bytes
  pub metadata : HeaderMap

-- `broken` is the panic of `expect` on a text that is not base64.
pub data Outcome {ℓ} (A : Type ℓ) : Type ℓ where
  done : A → Outcome A
  broken : Outcome A

unfoldable pub expect : Option Bytes → Outcome Bytes
expect none = broken
expect (some d) = done d

abbrev pub grpc_status : Bytes
grpc_status = codes "grpc-status"

abbrev pub grpc_message : Bytes
grpc_message = codes "grpc-message"

abbrev pub grpc_details : Bytes
grpc_details = codes "grpc-status-details-bin"

-- `percent_decode` is the decoding of percent signs and UTF-8, `base64` the base64 engine.
module _ (percent_decode : Bytes → Option Bytes) (base64 : Bytes → Option Bytes) where
  unfoldable pub message_of : Option Bytes → Option Bytes
  message_of none = some []
  message_of (some header) = percent_decode header

  unfoldable pub details_of : Option Bytes → Outcome Bytes
  details_of none = done []
  details_of (some header) = expect (base64 header)

  unfoldable pub other_headers : HeaderMap → HeaderMap
  other_headers headers = remove grpc_details (remove grpc_message (remove grpc_status headers))

  unfoldable pub status_of : Code → HeaderMap → Option Bytes → Bytes → Status
  status_of code headers (some message) details = record {
    code = code;
    message = text message;
    details = details;
    metadata = other_headers headers;
  }
  status_of code headers none details = record {
    code = unknown;
    message = not_unicode;
    details = details;
    metadata = other_headers headers;
  }

  unfoldable pub with_details : Code → HeaderMap → Outcome Bytes → Outcome (Option Status)
  with_details code headers broken = broken
  with_details code headers (done details) =
      done (some (status_of code headers (message_of (lookup grpc_message headers)) details))

  unfoldable pub with_code : HeaderMap → Option Bytes → Outcome (Option Status)
  with_code headers none = done none
  with_code headers (some code) =
      with_details (from_bytes code) headers (details_of (lookup grpc_details headers))

  unfoldable pub from_header_map : HeaderMap → Outcome (Option Status)
  from_header_map headers = with_code headers (lookup grpc_status headers)

-- `Result<(), Option<Status>>`.
pub data Inferred : Type 0 where
  success : Inferred
  failure : Option Status → Inferred

unfoldable pub is_ok : Code → Bool
is_ok ok = true
is_ok _ = false

unfoldable pub code_of_http : ℕ → Option Code
code_of_http status =
    if status == 400
    then some internal
    else if status == 401
    then some unauthenticated
    else if status == 403
    then some permission_denied
    else if status == 404
    then some unimplemented
    else if status == 429
    then some unavailable
    else if status == 502
    then some unavailable
    else if status == 503
    then some unavailable
    else if status == 504
    then some unavailable
    else if status == 200
    then none
    else some unknown

unfoldable pub http_failure : ℕ → Option Code → Inferred
http_failure status none = failure none
http_failure status (some code) =
    failure
      (some (record { code = code; message = missing_status status; details = []; metadata = [] }))

unfoldable pub infer_http : ℕ → Inferred
infer_http status = http_failure status (code_of_http status)

unfoldable pub infer_status : Status → Inferred
infer_status s = if is_ok s.code then success else failure (some s)

unfoldable pub infer_found : ℕ → Outcome (Option Status) → Outcome Inferred
infer_found status broken = broken
infer_found status (done none) = done (infer_http status)
infer_found status (done (some s)) = done (infer_status s)

unfoldable pub infer_grpc_status :
    (Bytes → Option Bytes) → (Bytes → Option Bytes) → Option HeaderMap → ℕ → Outcome Inferred
infer_grpc_status percent_decode base64 none status = done (infer_http status)
infer_grpc_status percent_decode base64 (some trailers) status =
    infer_found status (from_header_map percent_decode base64 trailers)

-- The reasons of an HTTP/2 error, by their numbers, and the code that stands for each.
unfoldable pub code_from_h2 : Option ℕ → Code
code_from_h2 none = unknown
code_from_h2 (some reason) =
    if reason == 0
    then internal
    else if reason == 1
    then internal
    else if reason == 2
    then internal
    else if reason == 3
    then internal
    else if reason == 4
    then internal
    else if reason == 9
    then internal
    else if reason == 10
    then internal
    else if reason == 7
    then unavailable
    else if reason == 8
    then cancelled
    else if reason == 11
    then resource_exhausted
    else if reason == 12
    then permission_denied
    else unknown

unfoldable pub to_h2_error : Code → ℕ
to_h2_error cancelled = 8
to_h2_error _ = 2
