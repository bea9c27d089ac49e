-- ===== src/Http/Target.antt =====
-- volo-http/src/client/target.rs, client/utils.rs and the host of client/layer/header.rs: where a
-- request is sent to.
use volo.Base.{
  ℕ, ◌-◌, Bool, true, false, ◌&&◌, ◌||◌, [], ◌∷◌, ◌++◌, Option, none, some, leb, ◌==◌,
  if◌then◌else◌, length, take, drop, get_elem?, ◌+◌,
}
use mathlib.Core.Option
use volo.Base.Bytes.{Bytes, codes}

-- What the crates `http` and `std::net` give: schemes and addresses, and their texts.
pub record Net : Type 1 where
  pub Scheme : Type 0
  pub http_scheme : Scheme
  pub https_scheme : Scheme
  pub same_scheme : Scheme → Scheme → Bool
  pub scheme_text : Scheme → Bytes
  pub Ip : Type 0
  pub same_ip : Ip → Ip → Bool
  pub is_ipv4 : Ip → Bool
  pub ip_text : Ip → Bytes
  pub parse_ip : Bytes → Option Ip
  pub port_text : ℕ → Bytes
  -- Whether the text is a valid header value.
  pub is_value : Bytes → Bool

-- ASCII letters in lower case.
unfoldable pub lower : ℕ → ℕ
lower b = if leb 65 b && leb b 90 then b + 32 else b

unfoldable pub eq_ignore_ascii_case : Bytes → Bytes → Bool
eq_ignore_ascii_case [] [] = true
eq_ignore_ascii_case [] (b ∷ bs) = false
eq_ignore_ascii_case (a ∷ as_) [] = false
eq_ignore_ascii_case (a ∷ as_) (b ∷ bs) = lower a == lower b && eq_ignore_ascii_case as_ bs

-- A name in brackets without them.
unfoldable pub ipv6_strip_brackets : Bytes → Bytes
ipv6_strip_brackets src = strip (get_elem? src 0) (get_elem? src (length src - 1))
  where
    strip : Option ℕ → Option ℕ → Bytes
    strip none last = src
    strip (some a) none = src
    strip (some a) (some b) =
        if a == 91 && b == 93 then take (length src - 1 - 1) (drop 1 src) else src

module _ (net : Net) where
  pub data RemoteHost : Type 0 where
    ip : net.Ip → RemoteHost
    name : Bytes → RemoteHost

  pub record RemoteTarget : Type 0 where
    pub scheme : net.Scheme
    pub host : RemoteHost
    pub port : ℕ

  -- A local target is the path of a Unix socket.
  pub data Target : Type 0 where
    nowhere : Target
    remote : RemoteTarget → Target
    local_path : Bytes → Target

  -- The accessors of `http::Uri`.
  pub record Uri : Type 0 where
    pub scheme : Option net.Scheme
    pub host : Option Bytes
    pub port_u16 : Option ℕ
    pub path_and_query : Option Bytes

  unfoldable pub remote_ref : Target → Option RemoteTarget
  remote_ref nowhere = none
  remote_ref (remote rt) = some rt
  remote_ref (local_path path) = none

  unfoldable pub scheme_of : Option RemoteTarget → Option net.Scheme
  scheme_of none = none
  scheme_of (some rt) = some rt.scheme

  -- The build with TLS; for a scheme that is neither, the code does not return.
  unfoldable pub get_default_port : net.Scheme → Option ℕ
  get_default_port scheme =
      if net.same_scheme scheme net.https_scheme
      then some 443
      else if net.same_scheme scheme net.http_scheme
      then some 80
      else none

  unfoldable pub is_port : Option ℕ → ℕ → Bool
  is_port none port = false
  is_port (some p) port = p == port

  unfoldable pub is_default_port : net.Scheme → ℕ → Bool
  is_default_port scheme port = is_port (get_default_port scheme) port

  -- The build with TLS.
  unfoldable pub check_scheme : net.Scheme → Bool
  check_scheme scheme =
      net.same_scheme scheme net.https_scheme || net.same_scheme scheme net.http_scheme

  unfoldable pub host_of : Bytes → Option net.Ip → RemoteHost
  host_of host none = name host
  host_of host (some a) = ip a

  unfoldable pub at_port : net.Scheme → Bytes → ℕ → Target
  at_port scheme host port =
      remote (record { scheme = scheme; host = host_of host (net.parse_ip host); port = port })

  unfoldable pub with_host : net.Scheme → Option ℕ → Bytes → Option Target
  with_host scheme (some port) host = some (at_port scheme host port)
  with_host scheme none host = Option.map (at_port scheme host) (get_default_port scheme)

  unfoldable pub with_scheme : net.Scheme → Uri → Option Bytes → Option Target
  with_scheme scheme uri none = none
  with_scheme scheme uri (some host) =
      if check_scheme scheme then with_host scheme uri.port_u16 host else none

  unfoldable pub scheme_or_http : Option net.Scheme → net.Scheme
  scheme_or_http none = net.http_scheme
  scheme_or_http (some scheme) = scheme

  -- The error says which part is missing; here there is no result.
  unfoldable pub from_uri : Uri → Option Target
  from_uri uri = with_scheme (scheme_or_http uri.scheme) uri uri.host

  unfoldable pub header_value : Bytes → Option Bytes
  header_value v = if net.is_value v then some v else none

  unfoldable pub ip_host : net.Ip → Bytes
  ip_host a = if net.is_ipv4 a then net.ip_text a else (91 ∷ []) ++ (net.ip_text a ++ (93 ∷ []))

  unfoldable pub with_port : RemoteTarget → Bytes → Bytes
  with_port rt host =
      if is_default_port rt.scheme rt.port then host else host ++ (58 ∷ net.port_text rt.port)

  unfoldable pub remote_text : RemoteHost → Bytes
  remote_text (ip a) = ip_host a
  remote_text (name host) = host

  unfoldable pub gen_host : Target → Option Bytes
  gen_host nowhere = none
  gen_host (local_path path) = some (codes "unix-domain-socket")
  gen_host (remote rt) = header_value (with_port rt (remote_text rt.host))

  -- The callee of the context: its name, its address, and the port for the discovery.
  pub data Address : Type 0 where
    ip_address : net.Ip → ℕ → Address
    unix_address : Bytes → Address

  pub record Endpoint : Type 0 where
    pub service_name : Bytes
    pub address : Option Address
    pub port : Option ℕ

  pub record Context : Type 0 where
    pub target : Target
    pub callee : Endpoint

  unfoldable pub clear : Endpoint
  clear = record { service_name = []; address = none; port = none }

  unfoldable pub apply_host : RemoteHost → ℕ → Endpoint → Endpoint
  apply_host (ip a) port callee = record callee {
    service_name = net.ip_text a;
    address = some (ip_address a port);
  }
  apply_host (name host) port callee = record callee {
    service_name = ipv6_strip_brackets host;
    port = some port;
  }

  unfoldable pub apply_callee : Target → Endpoint → Endpoint
  apply_callee nowhere callee = callee
  apply_callee (remote rt) callee = apply_host rt.host rt.port callee
  apply_callee (local_path path) callee = record callee {
    service_name = codes "unix-domain-socket";
    address = some (unix_address path);
  }

  unfoldable pub apply : Target → Context → Context
  apply target cx = record { target = target; callee = apply_callee target cx.callee }
