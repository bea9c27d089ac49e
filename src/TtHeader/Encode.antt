-- ===== src/TtHeader/Encode.antt =====
-- `encode` of ttheader.rs: the header is appended to `dst`, and its counts and lengths are written
-- over placeholders afterwards.
use volo.Base.{
  ℕ, ◌+◌, ◌-◌, ◌/◌, ◌%◌, ◌^◌, Bool, ◌||◌, List, [], ◌∷◌, ◌++◌, Option, none, some, ltb,
  if◌then◌else◌, length, replicate,
}
use mathlib.Core.Option
use volo.Base.Bytes.{Bytes, codes, be16, be32, patch}
use volo.TtHeader.{
  Role, client, server, ProtocolId, binary, protocol_byte, IntMetaKey, from_service, to_service,
  to_method, dest_address, rpc_timeout, conn_timeout, with_header, msg_type, int_key,
  tt_header_magic, info_key_value, info_int_key_value, biz_status_key, biz_message_key,
  biz_extra_key, header_idl_service_name, BizError, Cx, Externals, is_some,
}

-- The only error of `encode` is `SizeLimit`.
pub data EncodeResult : Type 0 where
  ok : Bytes → EncodeResult
  size_limit : EncodeResult

-- The buffer, and the `u16` counter of the section that is being written.
pub record Writer : Type 0 where
  pub dst : Bytes
  pub kv_len : ℕ

-- `put_u16`, `put_slice` (twice for a prefixed key), `put_u16`, `put_slice`, and the count.
unfoldable pub put_prefixed : Bytes → Bytes → Bytes → Writer → Writer
put_prefixed prefix key value w = record {
  dst = w.dst ++ be16 (length prefix + length key) ++ prefix ++ key ++ be16 (length value) ++ value;
  kv_len = (w.kv_len + 1) % 2 ^ 16;
}

unfoldable pub put_kv : Bytes → Bytes → Writer → Writer
put_kv key value w = record {
  dst = w.dst ++ be16 (length key) ++ key ++ be16 (length value) ++ value;
  kv_len = (w.kv_len + 1) % 2 ^ 16;
}

unfoldable pub put_int_kv : IntMetaKey → Bytes → Writer → Writer
put_int_kv key value w = record {
  dst = w.dst ++ be16 (int_key key) ++ be16 (length value) ++ value;
  kv_len = (w.kv_len + 1) % 2 ^ 16;
}

unfoldable pub put_all : Bytes → List (Bytes × Bytes) → Writer → Writer
put_all prefix [] w = w
put_all prefix ((key, value) ∷ kvs) w = put_all prefix kvs (put_prefixed prefix key value w)

unfoldable pub put_metainfo : Bytes → Option (List (Bytes × Bytes)) → Writer → Writer
put_metainfo prefix none w = w
put_metainfo prefix (some kvs) w = put_all prefix kvs w

unfoldable pub put_idl_service_name : Option Bytes → Writer → Writer
put_idl_service_name none w = w
put_idl_service_name (some isn) w = put_kv header_idl_service_name isn w

unfoldable pub put_conn_reset : Bool → Writer → Writer
put_conn_reset reset w = if reset then put_kv (codes "crrst") (codes "1") w else w

unfoldable pub put_int_option : IntMetaKey → Option Bytes → Writer → Writer
put_int_option key none w = w
put_int_option key (some value) w = put_int_kv key value w

unfoldable pub put_biz_extra : Option Bytes → Writer → Writer
put_biz_extra none w = w
put_biz_extra (some extra) w = put_kv biz_extra_key extra w

-- A section: its id, two bytes for the count, the pairs, and then the count.
unfoldable pub put_section : ℕ → (Writer → Writer) → Bytes → Bytes
put_section info_id put_kvs dst =
    let start = dst ++ (info_id ∷ []) in
    let w = put_kvs (record { dst = start ++ (0 ∷ 0 ∷ []); kv_len = 0 }) in
    patch w.dst (length start) (be16 w.kv_len)

unfoldable pub protocol_of : Option ProtocolId → ProtocolId
protocol_of none = binary
protocol_of (some p) = p

unfoldable pub put_padding : ℕ → Bytes → Bytes
put_padding zero_index dst =
    let overflow = (length dst - 14 - zero_index) % 4 in
    let padding = (4 - overflow) % 4 in dst ++ replicate padding 0

unfoldable pub write_lengths : ℕ → ℕ → ℕ → Bytes → EncodeResult
write_lengths zero_index written_header_size ttheader_size dst =
    let sized = patch dst (zero_index + 12) (be16 written_header_size) in
    if ltb written_header_size (2 ^ 16)
    then if ltb ttheader_size (2 ^ 32)
      then ok (patch sized zero_index (be32 ttheader_size))
      else size_limit
    else size_limit

-- `size` is that of the message behind the header.
unfoldable pub fill_lengths : ℕ → ℕ → Bytes → EncodeResult
fill_lengths zero_index size dst =
    let header_size = length dst - zero_index in
    write_lengths zero_index ((header_size - 14) / 4) (header_size + size - 4) dst

module _ {A M : Type 0} (ext : Externals A M) where
  open ext use {
    prefix_persistent, prefix_transient, prefix_backward, all_persistents, all_transients,
    all_backward_transients, format_i32, extra_to_json, millis_to_string, addr_to_string,
  }

  -- The text that `encode_size` left in the extensions, or else a new one.
  unfoldable pub biz_extra_text : Option Bytes → BizError → Option Bytes
  biz_extra_text cached biz_error = elim biz_error.extra [
    | none ↦ none
    | some extra ↦ elim cached [ some text ↦ some text | none ↦ some (extra_to_json extra) ]
  ]

  unfoldable pub put_biz_error : Option Bytes → Option BizError → Writer → Writer
  put_biz_error cached none w = w
  put_biz_error cached (some biz_error) w = put_biz_extra (biz_extra_text cached biz_error) (
      put_kv biz_message_key biz_error.status_message
        (put_kv biz_status_key (format_i32 biz_error.status_code) w))

  unfoldable pub has_string_kv : Role → Cx A → M → Bool
  has_string_kv client cx m =
      is_some (all_persistents m) || is_some (all_transients m) || is_some cx.idl_service_name
  has_string_kv server cx m =
      is_some (all_backward_transients m) || cx.conn_reset || is_some cx.biz_error

  unfoldable pub put_string_kvs : Role → Cx A → M → Writer → Writer
  put_string_kvs client cx m w = put_idl_service_name cx.idl_service_name (
      put_metainfo prefix_transient (all_transients m)
        (put_metainfo prefix_persistent (all_persistents m) w))
  put_string_kvs server cx m w =
      put_biz_error cx.biz_error_extra cx.biz_error
        (put_conn_reset cx.conn_reset (put_metainfo prefix_backward (all_backward_transients m) w))

  unfoldable pub put_int_kvs : Role → Cx A → Writer → Writer
  put_int_kvs server cx w = put_int_kv msg_type (cx.message_type ∷ []) w
  put_int_kvs client cx w =
      put_int_option dest_address (Option.map addr_to_string cx.callee.address) (
        put_int_kv to_service cx.callee.service_name (
          put_int_kv to_method cx.method (
            put_int_kv from_service cx.caller.service_name (
              put_int_option conn_timeout (Option.map millis_to_string cx.connect_timeout) (
                put_int_option rpc_timeout (Option.map millis_to_string cx.timeout)
                  (put_int_kv with_header (codes "3") w))))))

  -- Everything before the padding, with zeros for the two lengths.
  unfoldable pub put_sections : Cx A → M → Bytes → Bytes
  put_sections cx m dst =
      let start =
        dst
        ++ (0 ∷ 0 ∷ 0 ∷ 0 ∷ [])
        ++ be16 tt_header_magic
        ++ be16 0
        ++ be32 cx.seq_id
        ++ (0 ∷ 0 ∷ [])
        ++ (protocol_byte (protocol_of cx.protocol_id) ∷ 0 ∷ []) in
      let strings =
        if has_string_kv cx.role cx m
        then put_section info_key_value (put_string_kvs cx.role cx m) start
        else start in
      put_section info_int_key_value (put_int_kvs cx.role cx) strings

  unfoldable pub encode : Cx A → M → Bytes → ℕ → EncodeResult
  encode cx m dst size =
      let zero_index = length dst in
      fill_lengths zero_index size (put_padding zero_index (put_sections cx m dst))
