-- ===== src/TtHeader/Apply.antt =====
-- The second half of `decode` of ttheader.rs: what the headers change in the context and in the
-- metainfo, and the whole of `decode`.
use volo.Base.{ℕ, Bool, true, false, ◌&&◌, [], ◌∷◌, Option, none, some, ◌==◌, if◌then◌else◌}
use volo.Base.Bytes.{Bytes}
use volo.Base.Maps.{Map, nat_eq, bytes_eq, lookup, remove}
use volo.TtHeader.{
  Role, client, server, try_protocol, from_service, to_service, rpc_timeout, int_key,
  header_trans_remote_addr, header_connection_ready_to_reset, biz_status_key, biz_message_key,
  biz_extra_key, header_idl_service_name, BizError, Endpoint, Cx, Externals,
}
use volo.TtHeader.Decode.{
  Result, ok, err, panicked, stuck, bad_version, Reading, read_start, read_rest,
}

unfoldable pub starts_with : Bytes → Bytes → Bool
starts_with [] s = true
starts_with (p ∷ ps) [] = false
starts_with (p ∷ ps) (c ∷ s) = (p == c) && starts_with ps s

unfoldable pub is_empty : Bytes → Bool
is_empty [] = true
is_empty (b ∷ bs) = false

unfoldable pub unwrap_or_default : Option Bytes → Bytes
unwrap_or_default none = []
unwrap_or_default (some b) = b

module _ {A M : Type 0} (ext : Externals A M) where
  open ext use {
    prefix_persistent, prefix_transient, prefix_backward, strip_and_set_persistent,
    strip_and_set_upstream, strip_and_set_backward_downstream, parse_i32, extra_from_json,
    parse_u64, parse_addr,
  }

  -- `if let Ok(addr) = ad.parse::<SocketAddr>() { set_address }`
  unfoldable pub set_address : Option Bytes → Endpoint A → Endpoint A
  set_address none e = e
  set_address (some ad) e = elim (parse_addr ad) [
    | none ↦ e
    | some addr ↦ record e { address = some addr }
  ]

  unfoldable pub biz_extra_of : Option Bytes → Option (Map Bytes Bytes)
  biz_extra_of none = none
  biz_extra_of (some text) = extra_from_json text

  -- A status that is no number, or is 0, is no business error; its key is removed all the same.
  unfoldable pub biz_of_status : Option Bytes → Map Bytes Bytes → Option BizError
  biz_of_status none headers = none
  biz_of_status (some status) headers = elim (parse_i32 status) [
    | none ↦ none
    | some status_code ↦
        if status_code == 0
        then none
        else some (record {
          status_code = status_code;
          status_message = unwrap_or_default (lookup biz_message_key headers);
          extra = biz_extra_of (lookup biz_extra_key headers);
        })
  ]

  unfoldable pub set_biz_error : Option BizError → Cx A × Map Bytes Bytes → Cx A × Map Bytes Bytes
  set_biz_error none (cx, headers) = (cx, headers)
  set_biz_error (some e) (cx, headers) =
      (record cx { biz_error = some e }, remove biz_extra_key (remove biz_message_key headers))

  unfoldable pub set_biz_error_header : Cx A × Map Bytes Bytes → Cx A × Map Bytes Bytes
  set_biz_error_header (cx, headers) =
      let rest = remove biz_status_key headers in
      set_biz_error (biz_of_status (lookup biz_status_key headers) rest) (cx, rest)

  unfoldable pub set_backward : Map Bytes Bytes → M → M
  set_backward [] m = m
  set_backward ((k, v) ∷ headers) m =
      set_backward headers
        (if starts_with prefix_backward k then strip_and_set_backward_downstream k v m else m)

  unfoldable pub set_forward : Map Bytes Bytes → M → M
  set_forward [] m = m
  set_forward ((k, v) ∷ headers) m = set_forward headers (
      if starts_with prefix_persistent k
      then strip_and_set_persistent k v m
      else if starts_with prefix_transient k
      then strip_and_set_upstream k v m
      else m)

  -- A non-empty "crrst" header means that the transport must not be reused.
  unfoldable pub set_conn_reset : Option Bytes → Cx A → Cx A
  set_conn_reset none cx = cx
  set_conn_reset (some crrst) cx = if is_empty crrst then cx else record cx { reuse = false }

  unfoldable pub apply_client : Map Bytes Bytes → Cx A → M → Cx A × M
  apply_client headers cx m =
      let rest = remove header_trans_remote_addr headers in
      let cx1 = record cx {
        callee = set_address (lookup header_trans_remote_addr headers) cx.callee;
      } in
      let cx2 = set_conn_reset (lookup header_connection_ready_to_reset rest) cx1 in
      let out = set_biz_error_header (cx2, remove header_connection_ready_to_reset rest) in
      (out.0, set_backward out.1 m)

  unfoldable pub set_isn : Option Bytes → Cx A → Cx A
  set_isn none cx = cx
  set_isn (some isn) cx = record cx { idl_service_name = some isn }

  -- The remote address counts only beside a caller's name.
  unfoldable pub set_caller : Option Bytes → Cx A × Map Bytes Bytes → Cx A × Map Bytes Bytes
  set_caller none (cx, headers) = (cx, headers)
  set_caller (some name) (cx, headers) =
      let caller : Endpoint A = record { service_name = name; address = cx.caller.address } in
      (
        record cx { caller = set_address (lookup header_trans_remote_addr headers) caller },
        remove header_trans_remote_addr headers,
      )

  unfoldable pub set_callee : Option Bytes → Cx A → Cx A
  set_callee none cx = cx
  set_callee (some name) cx = record cx {
    callee = record { service_name = name; address = cx.callee.address };
  }

  unfoldable pub set_timeout : Option Bytes → Cx A → Cx A
  set_timeout none cx = cx
  set_timeout (some text) cx = elim (parse_u64 text) [
    | none ↦ cx
    | some ms ↦ record cx { timeout = some ms }
  ]

  unfoldable pub apply_server : Map Bytes Bytes → Map ℕ Bytes → Cx A → M → Cx A × M
  apply_server headers int_headers cx m =
      let cx1 = set_isn (lookup header_idl_service_name headers) cx in
      let out =
        set_caller (lookup (int_key from_service) int_headers)
          (cx1, remove header_idl_service_name headers) in
      let cx2 = set_callee (lookup (int_key to_service) int_headers) out.0 in
      let cx3 = set_timeout (lookup (int_key rpc_timeout) int_headers) cx2 in
      (cx3, set_forward out.1 m)

  unfoldable pub apply : Role → Reading → Cx A → M → Cx A × M
  apply client r cx m = apply_client r.headers cx m
  apply server r cx m = apply_server r.headers r.int_headers cx m

  -- The context and metainfo afterwards, whatever the outcome, and what is left of the buffer.
  abbrev pub Outcome : Type 0
  Outcome = Cx A × M × Result Bytes

  unfoldable pub finish_decode : Cx A → M → Result Reading → Outcome
  finish_decode cx m (ok r) = let out = apply cx.role r cx m in (out.0, out.1, ok r.src)
  finish_decode cx m (err e) = (cx, m, err e)
  finish_decode cx m panicked = (cx, m, panicked)
  finish_decode cx m stuck = (cx, m, stuck)

  unfoldable pub decode_after : Cx A → M → Result (ℕ × ℕ × Bytes) → Outcome
  decode_after cx m (ok (header_size, protocol_id, src)) = elim (try_protocol protocol_id) [
    | none ↦ (cx, m, err bad_version)
    | some p ↦ finish_decode (record cx { protocol_id = some p }) m (read_rest header_size src)
  ]
  decode_after cx m (err e) = (cx, m, err e)
  decode_after cx m panicked = (cx, m, panicked)
  decode_after cx m stuck = (cx, m, stuck)

  unfoldable pub decode : Cx A → M → Bytes → Outcome
  decode cx m src = decode_after cx m (read_start src)
