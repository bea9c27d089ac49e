-- ===== src/TtHeader/Layout.antt =====
-- volo-thrift/src/codec/default/ttheader.rs: a description of the header without placeholders and
-- counters.
pub mod Writer
pub mod Refines
use mathlib.Core.Option
use volo.Base.{
  ℕ, ◌+◌, ◌-◌, ◌/◌, ◌%◌, List, [], ◌∷◌, ◌++◌, Option, none, some, if◌then◌else◌, length, replicate,
}
use volo.Base.Bytes.{Bytes, codes, be16, be32}
use volo.TtHeader.{
  Role, client, server, protocol_byte, IntMetaKey, from_service, to_service, to_method,
  dest_address, rpc_timeout, conn_timeout, with_header, msg_type, int_key, tt_header_magic,
  info_key_value, info_int_key_value, biz_status_key, biz_message_key, biz_extra_key,
  header_idl_service_name, BizError, Cx, Externals,
}
use volo.TtHeader.Encode.{biz_extra_text, has_string_kv, protocol_of}

-- One pair with its lengths, and all pairs of a section.
unfoldable pub kv_bytes : Bytes → Bytes → Bytes
kv_bytes key value = be16 (length key) ++ (key ++ (be16 (length value) ++ value))

unfoldable pub int_kv_bytes : IntMetaKey → Bytes → Bytes
int_kv_bytes key value = be16 (int_key key) ++ (be16 (length value) ++ value)

unfoldable pub entries : List (Bytes × Bytes) → Bytes
entries [] = []
entries ((key, value) ∷ kvs) = kv_bytes key value ++ entries kvs

unfoldable pub int_entries : List (IntMetaKey × Bytes) → Bytes
int_entries [] = []
int_entries ((key, value) ∷ kvs) = int_kv_bytes key value ++ int_entries kvs

unfoldable pub prefixed : Bytes → List (Bytes × Bytes) → List (Bytes × Bytes)
prefixed prefix [] = []
prefixed prefix ((key, value) ∷ kvs) = (prefix ++ key, value) ∷ prefixed prefix kvs

unfoldable pub optional {ℓ κ} : {A : Type ℓ} {B : Type κ} → (A → List B) → Option A → List B
optional f none = []
optional f (some a) = f a

-- The number of zeros that makes `n` bytes whole words.
unfoldable pub padding_of : ℕ → ℕ
padding_of n = (4 - n % 4) % 4

abbrev pub section_bytes : ℕ → ℕ → Bytes → Bytes
section_bytes info_id count bs = info_id ∷ (be16 count ++ bs)

-- Magic, flags and sequence number.
abbrev pub fixed_bytes : ℕ → Bytes
fixed_bytes seq_id = be16 tt_header_magic ++ (be16 0 ++ be32 seq_id)

module _ {A M : Type 0} (ext : Externals A M) where
  open ext use {
    prefix_persistent, prefix_transient, prefix_backward, all_persistents, all_transients,
    all_backward_transients, format_i32, millis_to_string, addr_to_string,
  }

  unfoldable pub biz_kvs : Option Bytes → BizError → List (Bytes × Bytes)
  biz_kvs cached biz_error =
      (biz_status_key, format_i32 biz_error.status_code)
      ∷ ((biz_message_key, biz_error.status_message)
          ∷ optional (λ text. (biz_extra_key, text) ∷ []) (biz_extra_text ext cached biz_error))

  unfoldable pub string_kvs : Role → Cx A → M → List (Bytes × Bytes)
  string_kvs client cx m =
      optional (prefixed prefix_persistent) (all_persistents m)
      ++ (optional (prefixed prefix_transient) (all_transients m)
          ++ optional (λ isn. (header_idl_service_name, isn) ∷ []) cx.idl_service_name)
  string_kvs server cx m =
      optional (prefixed prefix_backward) (all_backward_transients m)
      ++ ((if cx.conn_reset then (codes "crrst", codes "1") ∷ [] else [])
          ++ optional (biz_kvs cx.biz_error_extra) cx.biz_error)

  unfoldable pub int_kvs : Role → Cx A → List (IntMetaKey × Bytes)
  int_kvs server cx = (msg_type, cx.message_type ∷ []) ∷ []
  int_kvs client cx =
      (with_header, codes "3")
      ∷ (optional (λ t. (rpc_timeout, t) ∷ []) (Option.map millis_to_string cx.timeout)
          ++ (optional (λ t. (conn_timeout, t) ∷ [])
                (Option.map millis_to_string cx.connect_timeout)
              ++ ((from_service, cx.caller.service_name)
                  ∷ ((to_method, cx.method)
                      ∷ ((to_service, cx.callee.service_name)
                          ∷ optional (λ a. (dest_address, a) ∷ [])
                              (Option.map addr_to_string cx.callee.address))))))

  unfoldable pub string_section : Cx A → M → Bytes
  string_section cx m =
      let kvs = string_kvs cx.role cx m in
      if has_string_kv ext cx.role cx m
      then section_bytes info_key_value (length kvs) (entries kvs)
      else []

  unfoldable pub int_section : Cx A → Bytes
  int_section cx =
      let kvs = int_kvs cx.role cx in
      section_bytes info_int_key_value (length kvs) (int_entries kvs)

  -- What follows the header size: protocol, number of transforms, sections.
  unfoldable pub unpadded : Cx A → M → Bytes
  unpadded cx m =
      protocol_byte (protocol_of cx.protocol_id) ∷ (0 ∷ (string_section cx m ++ int_section cx))

  unfoldable pub body : Cx A → M → Bytes
  body cx m = unpadded cx m ++ replicate (padding_of (length (unpadded cx m))) 0

  unfoldable pub words : Cx A → M → ℕ
  words cx m = length (body cx m) / 4

  -- The length field counts all that follows it: 10 bytes, the body, and the message.
  unfoldable pub total : Cx A → M → ℕ → ℕ
  total cx m size = 10 + length (body cx m) + size

  unfoldable pub header : Cx A → M → ℕ → Bytes
  header cx m size =
      be32 (total cx m size) ++ (fixed_bytes cx.seq_id ++ (be16 (words cx m) ++ body cx m))
