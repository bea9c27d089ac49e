-- ===== src/Http/Redirect/Head.antt =====
-- volo-http/src/client/layer/redirect.rs: the head and the body of the next request.
use volo.Base.{ℕ, Bool, true, false, not, ◌||◌, [], Option, none, some, ◌==◌, if◌then◌else◌}
use volo.Base.Bytes.{Bytes, codes}
use volo.Base.Maps.{Map, bytes_eq, lookup, insert, remove}
use volo.Http.Target.{
  Net, RemoteHost, ip, name, RemoteTarget, Target, Uri, remote_ref, scheme_of, gen_host,
  eq_ignore_ascii_case, Context, clear, apply,
}

pub data Method : Type 0 where
  get head post : Method
  other_method : Bytes → Method

-- A body is the whole bytes, or is read once.
pub data Body : Type 0 where
  full once : Bytes → Body

abbrev pub empty_body : Body
empty_body = full []

-- The body that is sent, the one that is kept, and whether it can be sent again.
unfoldable pub try_clone : Body → Body × Bool
try_clone (full bytes) = (full bytes, true)
try_clone (once bytes) = (empty_body, false)

abbrev pub authorization : Bytes
authorization = codes "authorization"

abbrev pub cookie : Bytes
cookie = codes "cookie"

abbrev pub host_name : Bytes
host_name = codes "host"

abbrev pub location_name : Bytes
location_name = codes "location"

unfoldable pub status_is_redirect : ℕ → Bool
status_is_redirect s = s == 301 || s == 302 || s == 303 || s == 307 || s == 308

unfoldable pub is_head : Method → Bool
is_head head = true
is_head _ = false

unfoldable pub is_post : Method → Bool
is_post post = true
is_post _ = false

unfoldable pub should_change_to_get : ℕ → Method → Bool
should_change_to_get s method =
    if s == 303
    then not (is_head method)
    else if s == 301 || s == 302
    then is_post method
    else false

module _ (net : Net) where
  -- The scheme is the one of the request's extensions.
  pub record Parts : Type 0 where
    pub method : Method
    pub uri : Uri net
    pub headers : Map Bytes Bytes
    pub scheme : Option net.Scheme

  unfoldable pub remote_host_changed : RemoteHost net → RemoteHost net → Bool
  remote_host_changed (ip old) (ip new) = not (net.same_ip old new)
  remote_host_changed (name old) (name new) = not (eq_ignore_ascii_case old new)
  remote_host_changed (ip old) (name new) = true
  remote_host_changed (name old) (ip new) = true

  unfoldable pub remote_changed : RemoteTarget net → RemoteTarget net → Bool
  remote_changed old new =
      not (net.same_scheme old.scheme new.scheme)
      || not (old.port == new.port)
      || remote_host_changed old.host new.host

  unfoldable pub both_changed : Option (RemoteTarget net) → Option (RemoteTarget net) → Bool
  both_changed (some old) (some new) = remote_changed old new
  both_changed (some old) none = true
  both_changed none new = true

  unfoldable pub origin_changed : Target net → Target net → Bool
  origin_changed old new = both_changed (remote_ref net old) (remote_ref net new)

  unfoldable pub change_to_get : Parts → Parts
  change_to_get parts = record parts {
    method = get;
    headers = remove (codes "transfer-encoding") (
        remove (codes "content-encoding")
          (remove (codes "content-length") (remove (codes "content-type") parts.headers)));
  }

  unfoldable pub remove_sensitive : Target net → Target net → Parts → Parts
  remove_sensitive old new parts =
      if origin_changed old new
      then record parts { headers = remove cookie (remove authorization parts.headers) }
      else parts

  unfoldable pub insert_host : Option Bytes → Map Bytes Bytes → Map Bytes Bytes
  insert_host none headers = headers
  insert_host (some host) headers = insert host_name host headers

  unfoldable pub replace_host : Option Bytes → Target net → Map Bytes Bytes → Map Bytes Bytes
  replace_host none target headers = headers
  replace_host (some old) target headers =
      insert_host (gen_host net target) (remove host_name headers)

  unfoldable pub update_host : Target net → Parts → Parts
  update_host target parts = record parts {
    headers = replace_host (lookup host_name parts.headers) target parts.headers;
  }

  unfoldable pub update_request_extension : Target net → Parts → Parts
  update_request_extension target parts = record parts {
    scheme = scheme_of net (remote_ref net target);
  }

  unfoldable pub change_method : Bool → Parts → Parts
  change_method changes parts = if changes then change_to_get parts else parts

  -- The head of the next request.
  unfoldable pub next_parts : Bool → Target net → Target net → Uri net → Parts → Parts
  next_parts changes old new uri parts = update_request_extension new (
      update_host new
        (remove_sensitive old new (record (change_method changes parts) { uri = uri })))

  unfoldable pub update_target : Context net → Target net → Context net
  update_target cx target = apply net target (record cx { callee = clear net })
