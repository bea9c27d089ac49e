-- ===== src/TtHeader.antt =====
-- volo-thrift/src/codec/default/ttheader.rs: the TTHeader transport protocol.
-- Here: the constants, the context that the codec reads and writes, and what other crates supply.
pub mod Encode
pub mod Layout
pub mod Size
pub mod SizeAdds
pub mod SizeAgrees
pub mod Decode
pub mod Apply
pub mod Reads
pub mod Learned
pub mod RoundTrip
pub mod Request
pub mod Outer
pub mod Runs
use volo.Base.{
  ℕ, zero, suc, ◌+◌, ◌≡◌, refl, Bool, true, false, List, [], ◌∷◌, Option, none, some, arith, ◌==◌,
  if◌then◌else◌,
}
use volo.Base.Bytes.{Bytes, codes}
use volo.Base.Maps.{Map}

pub data Role : Type 0 where
  client server : Role

pub data ProtocolId : Type 0 where
  binary compact compact_v2 protobuf : ProtocolId

unfoldable pub protocol_byte : ProtocolId → ℕ
protocol_byte binary = 0
protocol_byte compact = 2
protocol_byte compact_v2 = 3
protocol_byte protobuf = 4

-- The derived `ProtocolId::try_from_primitive`.
unfoldable pub try_protocol : ℕ → Option ProtocolId
try_protocol b =
    if b == 0
    then some binary
    else if b == 2
    then some compact
    else if b == 3
    then some compact_v2
    else if b == 4
    then some protobuf
    else none

pub data IntMetaKey : Type 0 where
  from_service to_service to_method dest_address : IntMetaKey
  rpc_timeout conn_timeout with_header msg_type : IntMetaKey

unfoldable pub int_key : IntMetaKey → ℕ
int_key from_service = 3
int_key to_service = 6
int_key to_method = 9
int_key dest_address = 11
int_key rpc_timeout = 12
int_key conn_timeout = 17
int_key with_header = 16
int_key msg_type = 22

-- The derived `IntMetaKey::try_from`.
unfoldable pub try_int_key : ℕ → Option IntMetaKey
try_int_key n =
    if n == 3
    then some from_service
    else if n == 6
    then some to_service
    else if n == 9
    then some to_method
    else if n == 11
    then some dest_address
    else if n == 12
    then some rpc_timeout
    else if n == 16
    then some with_header
    else if n == 17
    then some conn_timeout
    else if n == 22
    then some msg_type
    else none

abbrev pub tt_header_magic : ℕ
tt_header_magic = 0x1000

abbrev pub info_padding : ℕ
info_padding = 0x00

abbrev pub info_key_value : ℕ
info_key_value = 0x01

abbrev pub info_int_key_value : ℕ
info_int_key_value = 0x10

abbrev pub acl_token_key_value : ℕ
acl_token_key_value = 0x11

abbrev pub header_trans_remote_addr : Bytes
header_trans_remote_addr = codes "rip"

abbrev pub header_connection_ready_to_reset : Bytes
header_connection_ready_to_reset = codes "crrst"

abbrev pub biz_status_key : Bytes
biz_status_key = codes "biz-status"

abbrev pub biz_message_key : Bytes
biz_message_key = codes "biz-message"

abbrev pub biz_extra_key : Bytes
biz_extra_key = codes "biz-extra"

abbrev pub header_idl_service_name : Bytes
header_idl_service_name = codes "isn"

-- A status code is the bit pattern of an `i32`.
pub record BizError : Type 0 where
  pub status_code : ℕ
  pub status_message : Bytes
  pub extra : Option (Map Bytes Bytes)

pub record Endpoint (A : Type 0) : Type 0 where
  pub service_name : Bytes
  pub address : Option A

-- What the codec reads and writes of the thrift context: the RPC info, the statistics, and the
-- extensions `ProtocolId` and `BizErrorExtra`. Durations are in milliseconds, `seq_id` is a bit
-- pattern. `conn_reset` is the flag of a server's transport and `reuse` that of a client's: a context
-- whose role is `client` is a `ClientContext`, and the other a `ServerContext`.
pub record Cx (A : Type 0) : Type 0 where
  pub role : Role
  pub seq_id : ℕ
  pub message_type : ℕ
  pub method : Bytes
  pub caller : Endpoint A
  pub callee : Endpoint A
  pub timeout : Option ℕ
  pub connect_timeout : Option ℕ
  pub idl_service_name : Option Bytes
  pub conn_reset : Bool
  pub reuse : Bool
  pub biz_error : Option BizError
  pub protocol_id : Option ProtocolId
  pub biz_error_extra : Option Bytes

-- The crates metainfo (whose state is `M`), itoa and sonic_rs, and the standard library's printing
-- and parsing, of numbers and of addresses `A`.
pub record Externals (A M : Type 0) : Type 0 where
  pub prefix_persistent : Bytes
  pub prefix_transient : Bytes
  pub prefix_backward : Bytes
  pub all_persistents : M → Option (List (Bytes × Bytes))
  pub all_transients : M → Option (List (Bytes × Bytes))
  pub all_backward_transients : M → Option (List (Bytes × Bytes))
  pub strip_and_set_persistent : Bytes → Bytes → M → M
  pub strip_and_set_upstream : Bytes → Bytes → M → M
  pub strip_and_set_backward_downstream : Bytes → Bytes → M → M
  pub format_i32 : ℕ → Bytes
  pub parse_i32 : Bytes → Option ℕ
  pub extra_to_json : Map Bytes Bytes → Bytes
  pub extra_from_json : Bytes → Option (Map Bytes Bytes)
  pub millis_to_string : ℕ → Bytes
  pub parse_u64 : Bytes → Option ℕ
  pub addr_to_string : A → Bytes
  pub parse_addr : Bytes → Option A

abbrev pub is_some {ℓ} : {A : Type ℓ} → Option A → Bool
is_some none = false
is_some (some a) = true

pub protocol_round : (p : ProtocolId) → try_protocol (protocol_byte p) ≡ some p
unfolding try_protocol protocol_byte
protocol_round p = ground arith

pub int_key_round : (k : IntMetaKey) → try_int_key (int_key k) ≡ some k
unfolding try_int_key int_key
int_key_round k = ground arith
