-- ===== src/TtHeader/Size.antt =====
-- `encode_size` of ttheader.rs: the length of the header before it is written. It also leaves the
-- text of the business error's extra map in the extensions, for `encode` to use.
use mathlib.Core.Option
use volo.Base.{
  ℕ, ◌+◌, ◌-◌, ◌%◌, Bool, ◌||◌, List, [], ◌∷◌, Option, none, some, if◌then◌else◌, length,
}
use volo.Base.Bytes.{Bytes, codes}
use volo.TtHeader.{
  Role, client, server, biz_status_key, biz_message_key, biz_extra_key, header_idl_service_name,
  BizError, Cx, Externals, is_some,
}

-- `len += 2; len += key_len; len += 2; len += value.len()`
unfoldable pub add_kv : ℕ → ℕ → ℕ → ℕ
add_kv key_len value_len len = len + 2 + key_len + 2 + value_len

unfoldable pub add_all : Bytes → List (Bytes × Bytes) → ℕ → ℕ
add_all prefix [] len = len
add_all prefix ((key, value) ∷ kvs) len =
    add_all prefix kvs (add_kv (length prefix + length key) (length value) len)

unfoldable pub add_metainfo : Bytes → Option (List (Bytes × Bytes)) → ℕ → ℕ
add_metainfo prefix none len = len
add_metainfo prefix (some kvs) len = add_all prefix kvs len

unfoldable pub add_idl_service_name : Option Bytes → ℕ → ℕ
add_idl_service_name none len = len
add_idl_service_name (some isn) len = add_kv (length header_idl_service_name) (length isn) len

unfoldable pub add_conn_reset : Bool → ℕ → ℕ
add_conn_reset reset len =
    if reset then add_kv (length (codes "crrst")) (length (codes "1")) len else len

unfoldable pub add_int_option : Option Bytes → ℕ → ℕ
add_int_option none len = len
add_int_option (some value) len = len + 2 + 2 + length value

unfoldable pub pad_len : ℕ → ℕ
pad_len len = let overflow = (len - 14) % 4 in let padding = (4 - overflow) % 4 in len + padding

module _ {A M : Type 0} (ext : Externals A M) where
  open ext use {
    prefix_persistent, prefix_transient, prefix_backward, all_persistents, all_transients,
    all_backward_transients, format_i32, extra_to_json, millis_to_string, addr_to_string,
  }

  -- A server's business error does not count here, although `encode` writes the section for it.
  unfoldable pub counts_string_kv : Role → Cx A → M → Bool
  counts_string_kv client cx m =
      is_some (all_persistents m) || is_some (all_transients m) || is_some cx.idl_service_name
  counts_string_kv server cx m = is_some (all_backward_transients m) || cx.conn_reset

  unfoldable pub fresh_extra : BizError → Option Bytes
  fresh_extra biz_error = Option.map extra_to_json biz_error.extra

  unfoldable pub add_biz_extra : Option Bytes → ℕ → ℕ
  add_biz_extra none len = len
  add_biz_extra (some extra) len = add_kv (length biz_extra_key) (length extra) len

  unfoldable pub add_biz_error : Option BizError → ℕ → ℕ
  add_biz_error none len = len
  add_biz_error (some biz_error) len = add_biz_extra (fresh_extra biz_error) (
      add_kv (length biz_message_key) (length biz_error.status_message)
        (add_kv (length biz_status_key) (length (format_i32 biz_error.status_code)) len))

  unfoldable pub add_string_kvs : Role → Cx A → M → ℕ → ℕ
  add_string_kvs client cx m len = add_idl_service_name cx.idl_service_name (
      add_metainfo prefix_transient (all_transients m)
        (add_metainfo prefix_persistent (all_persistents m) len))
  add_string_kvs server cx m len =
      add_biz_error cx.biz_error (
        add_conn_reset cx.conn_reset (add_metainfo prefix_backward (all_backward_transients m) len))

  unfoldable pub add_int_kvs : Role → Cx A → ℕ → ℕ
  add_int_kvs server cx len = len + 2 + 2 + length (cx.message_type ∷ [])
  add_int_kvs client cx len = add_int_option (Option.map addr_to_string cx.callee.address) (
      add_int_option (some cx.callee.service_name) (
        add_int_option (some cx.method) (
          add_int_option (some cx.caller.service_name) (
            add_int_option (Option.map millis_to_string cx.connect_timeout) (
              add_int_option (Option.map millis_to_string cx.timeout)
                (add_int_option (some (codes "3")) len))))))

  -- The extension `BizErrorExtra` after the pass over a server's business error.
  unfoldable pub cache_extra : Role → Cx A → Option Bytes
  cache_extra client cx = cx.biz_error_extra
  cache_extra server cx = elim cx.biz_error [
    | none ↦ cx.biz_error_extra
    | some biz_error ↦ elim (fresh_extra biz_error) [
      | none ↦ cx.biz_error_extra
      | some extra ↦ some extra
    ]
  ]

  unfoldable pub encode_size : Cx A → M → ℕ × Cx A
  encode_size cx m =
      let start : ℕ = 4 + 2 + 2 + 4 + 2 + 1 + 1 in
      if counts_string_kv cx.role cx m
      then (
        pad_len (add_int_kvs cx.role cx (add_string_kvs cx.role cx m (start + 1 + 2) + 1 + 2)),
        record cx { biz_error_extra = cache_extra cx.role cx },
      )
      else (pad_len (add_int_kvs cx.role cx (start + 1 + 2)), cx)
