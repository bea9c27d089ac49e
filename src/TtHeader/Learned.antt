-- ===== src/TtHeader/Learned.antt =====
-- volo-thrift/src/codec/default/ttheader.rs: what the headers of the other side change in the
-- context and in the metainfo, described without the steps of `decode`.
use volo.Base.{
  ℕ, ◌≡◌, refl, ap, ◌∙◌, Bool, false, not, List, [], ◌∷◌, Option, none, some, Option-cases, inl,
  inr, if◌then◌else◌, ◌==◌,
}
use volo.Base.Bytes.{Bytes, eqb}
use volo.Base.Maps.{Map, nat_eq, bytes_eq, lookup, insert, remove, lookup-insert}
use volo.TtHeader.{
  Role, client, server, IntMetaKey, from_service, to_service, rpc_timeout, int_key,
  header_trans_remote_addr, header_connection_ready_to_reset, biz_status_key, biz_message_key,
  biz_extra_key, header_idl_service_name, BizError, Endpoint, Cx, Externals,
}
use volo.TtHeader.Apply.{
  unwrap_or_default, biz_extra_of, starts_with, is_empty, set_address, biz_of_status, set_biz_error,
  set_biz_error_header, set_backward, set_forward, set_conn_reset, apply_client, set_isn,
  set_caller, set_callee, set_timeout, apply_server, apply,
}
use volo.TtHeader.Decode.{Reading}
use volo.TtHeader.Reads.{insert_all, insert_ints}

or_old : {A : Type 0} → Option A → A → A
or_old none old = old
or_old (some new) old = new

-- The value of a key is the last that was sent for it.
pub last_of : Bytes → List (Bytes × Bytes) → Option Bytes → Option Bytes
last_of k [] before = before
last_of k ((j, v) ∷ pairs) before = last_of k pairs (if eqb j k then some v else before)

pub last_int_of : ℕ → List (IntMetaKey × Bytes) → Option Bytes → Option Bytes
last_int_of k [] before = before
last_int_of k ((j, v) ∷ pairs) before =
    last_int_of k pairs (if int_key j == k then some v else before)

pub lookup-insert_all :
    (k : Bytes) (pairs : List (Bytes × Bytes)) (m : Map Bytes Bytes)
    → lookup k (insert_all pairs m) ≡ last_of k pairs (lookup k m)
unfolding insert_all last_of
lookup-insert_all k [] m = refl
lookup-insert_all k ((j, v) ∷ pairs) m =
    lookup-insert_all k pairs (insert j v m) ∙ ap (last_of k pairs) (lookup-insert j k v m)

pub lookup-insert_ints :
    (k : ℕ) (pairs : List (IntMetaKey × Bytes)) (m : Map ℕ Bytes)
    → lookup k (insert_ints pairs m) ≡ last_int_of k pairs (lookup k m)
unfolding insert_ints last_int_of
lookup-insert_ints k [] m = refl
lookup-insert_ints k ((j, v) ∷ pairs) m =
    lookup-insert_ints k pairs (insert (int_key j) v m)
    ∙ ap (last_int_of k pairs) (lookup-insert (int_key j) k v m)

module _ {A M : Type 0} (ext : Externals A M) where
  open ext use {
    prefix_persistent, prefix_transient, prefix_backward, strip_and_set_persistent,
    strip_and_set_upstream, strip_and_set_backward_downstream, parse_u64, parse_addr, parse_i32,
    extra_from_json,
  }

  -- A value that is there and can be read.
  read_by : {B : Type 0} → (Bytes → Option B) → Option Bytes → Option B
  read_by parse none = none
  read_by parse (some text) = parse text

  forward : Bytes → Bytes → M → M
  forward k v m =
      if starts_with prefix_persistent k
      then strip_and_set_persistent k v m
      else if starts_with prefix_transient k
      then strip_and_set_upstream k v m
      else m

  backward : Bytes → Bytes → M → M
  backward k v m =
      if starts_with prefix_backward k then strip_and_set_backward_downstream k v m else m

  each : (Bytes → Bytes → M → M) → Map Bytes Bytes → M → M
  each f [] m = m
  each f ((k, v) ∷ headers) m = each f headers (f k v m)

  moved : Endpoint A → Option Bytes → Endpoint A
  moved e text = record {
    service_name = e.service_name;
    address = elim (read_by parse_addr text) [ none ↦ e.address | some addr ↦ some addr ];
  }

  -- The caller's address is read only beside its name.
  caller_of : Option Bytes → Map Bytes Bytes → Endpoint A → Endpoint A
  caller_of none headers e = e
  caller_of (some name) headers e =
      moved (record { service_name = name; address = e.address })
        (lookup header_trans_remote_addr headers)

  without_address : Option Bytes → Map Bytes Bytes → Map Bytes Bytes
  without_address none headers = headers
  without_address (some name) headers = remove header_trans_remote_addr headers

  server_learns : Map Bytes Bytes → Map ℕ Bytes → Cx A → M → Cx A × M
  server_learns headers ints cx m =
      let from = lookup (int_key from_service) ints in
      let others = remove header_idl_service_name headers in
      (
        record cx {
          idl_service_name = elim (lookup header_idl_service_name headers) [
            | none ↦ cx.idl_service_name
            | some isn ↦ some isn
          ];
          caller = caller_of from others cx.caller;
          callee = record {
            service_name = or_old (lookup (int_key to_service) ints) cx.callee.service_name;
            address = cx.callee.address;
          };
          timeout = elim (read_by parse_u64 (lookup (int_key rpc_timeout) ints)) [
            | none ↦ cx.timeout
            | some ms ↦ some ms
          ];
        },
        each forward (without_address from others) m,
      )

  set_address_lem : (o : Option Bytes) (e : Endpoint A) → set_address ext o e ≡ moved e o
  unfolding set_address moved read_by
  set_address_lem none e = refl
  set_address_lem (some text) e = elim (Option-cases (parse_addr text)) [
    | inl h ↦ rw (set_address, h) refl
    | inr (addr, h) ↦ rw (set_address, h) refl
  ]

  set_forward_lem :
      (headers : Map Bytes Bytes) (m : M) → set_forward ext headers m ≡ each forward headers m
  unfolding set_forward each forward
  set_forward_lem [] m = refl
  set_forward_lem ((k, v) ∷ headers) m = set_forward_lem headers _

  set_backward_lem :
      (headers : Map Bytes Bytes) (m : M) → set_backward ext headers m ≡ each backward headers m
  unfolding set_backward each backward
  set_backward_lem [] m = refl
  set_backward_lem ((k, v) ∷ headers) m = set_backward_lem headers _

  set_isn_lem :
      (o : Option Bytes) (cx : Cx A)
      → set_isn ext o cx ≡ record cx {
        idl_service_name = elim o [ none ↦ cx.idl_service_name | some isn ↦ some isn ];
      }
  unfolding set_isn
  set_isn_lem none cx = refl
  set_isn_lem (some isn) cx = refl

  set_caller_lem :
      (o : Option Bytes) (cx : Cx A) (headers : Map Bytes Bytes)
      → set_caller ext o (cx, headers)
        ≡ (record cx { caller = caller_of o headers cx.caller }, without_address o headers)
  unfolding set_caller caller_of without_address
  set_caller_lem none cx headers = refl
  set_caller_lem (some name) cx headers =
      ap (λ e. (record cx { caller = e }, remove header_trans_remote_addr headers))
        (set_address_lem (lookup header_trans_remote_addr headers) _)

  set_callee_lem :
      (o : Option Bytes) (cx : Cx A)
      → set_callee ext o cx ≡ record cx {
        callee = record {
          service_name = or_old o cx.callee.service_name;
          address = cx.callee.address;
        };
      }
  unfolding set_callee or_old
  set_callee_lem none cx = refl
  set_callee_lem (some name) cx = refl

  set_timeout_lem :
      (o : Option Bytes) (cx : Cx A)
      → set_timeout ext o cx ≡ record cx {
        timeout = elim (read_by parse_u64 o) [ none ↦ cx.timeout | some ms ↦ some ms ];
      }
  unfolding set_timeout read_by
  set_timeout_lem none cx = refl
  set_timeout_lem (some text) cx = elim (Option-cases (parse_u64 text)) [
    | inl h ↦ rw (set_timeout, h) refl
    | inr (ms, h) ↦ rw (set_timeout, h) refl
  ]

  apply_server-learns :
      (headers : Map Bytes Bytes) (ints : Map ℕ Bytes) (cx : Cx A) (m : M)
      → apply_server ext headers ints cx m ≡ server_learns headers ints cx m
  unfolding apply_server server_learns
  apply_server-learns headers ints cx m =
      rw
        (
          set_isn_lem (lookup header_idl_service_name headers) cx,
          set_caller_lem,
          set_callee_lem,
          set_timeout_lem,
          set_forward_lem,
        )
        refl

  is_named : Option Bytes → Bool
  is_named none = false
  is_named (some crrst) = not (is_empty crrst)

  without_error : Option BizError → Map Bytes Bytes → Map Bytes Bytes
  without_error none headers = headers
  without_error (some e) headers = remove biz_extra_key (remove biz_message_key headers)

  -- A status that is a number and not 0 is an error.
  error_told : Option Bytes → Map Bytes Bytes → Option BizError
  error_told status headers = elim (read_by parse_i32 status) [
    | none ↦ none
    | some status_code ↦
        if status_code == 0
        then none
        else some (record {
          status_code = status_code;
          status_message = or_old (lookup biz_message_key headers) [];
          extra = read_by extra_from_json (lookup biz_extra_key headers);
        })
  ]

  unwrap_lem : (o : Option Bytes) → unwrap_or_default o ≡ or_old o []
  unfolding unwrap_or_default or_old
  unwrap_lem none = refl
  unwrap_lem (some text) = refl

  biz_extra_lem : (o : Option Bytes) → biz_extra_of ext o ≡ read_by extra_from_json o
  unfolding biz_extra_of read_by
  biz_extra_lem none = refl
  biz_extra_lem (some text) = refl

  biz_of_status_lem :
      (o : Option Bytes) (headers : Map Bytes Bytes)
      → biz_of_status ext o headers ≡ error_told o headers
  unfolding biz_of_status error_told read_by
  biz_of_status_lem none headers = refl
  biz_of_status_lem (some text) headers = elim (Option-cases (parse_i32 text)) [
    | inl h ↦ rw (biz_of_status, error_told, read_by, h) refl
    | inr (c, h) ↦ rw (biz_of_status, error_told, read_by, h, unwrap_lem, biz_extra_lem) refl
  ]

  client_learns : Map Bytes Bytes → Cx A → M → Cx A × M
  client_learns headers cx m =
      let others =
        remove header_connection_ready_to_reset (remove header_trans_remote_addr headers) in
      let behind = remove biz_status_key others in
      let error = error_told (lookup biz_status_key others) behind in
      (
        record cx {
          callee = moved cx.callee (lookup header_trans_remote_addr headers);
          reuse =
              if is_named
                (lookup header_connection_ready_to_reset (remove header_trans_remote_addr headers))
              then false
              else cx.reuse;
          biz_error = elim error [ none ↦ cx.biz_error | some e ↦ some e ];
        },
        each backward (without_error error behind) m,
      )

  set_conn_reset_lem :
      (o : Option Bytes) (cx : Cx A)
      → set_conn_reset ext o cx ≡ record cx { reuse = if is_named o then false else cx.reuse }
  unfolding set_conn_reset is_named is_empty
  set_conn_reset_lem none cx = refl
  set_conn_reset_lem (some []) cx = refl
  set_conn_reset_lem (some (b ∷ crrst)) cx = refl

  set_biz_error_lem :
      (o : Option BizError) (cx : Cx A) (headers : Map Bytes Bytes)
      → set_biz_error ext o (cx, headers) ≡ (
        record cx { biz_error = elim o [ none ↦ cx.biz_error | some e ↦ some e ] },
        without_error o headers,
      )
  unfolding set_biz_error without_error
  set_biz_error_lem none cx headers = refl
  set_biz_error_lem (some e) cx headers = refl

  apply_client-learns :
      (headers : Map Bytes Bytes) (cx : Cx A) (m : M)
      → apply_client ext headers cx m ≡ client_learns headers cx m
  unfolding apply_client client_learns set_biz_error_header
  apply_client-learns headers cx m =
      rw
        (
          set_address_lem, set_conn_reset_lem, set_biz_error_header, set_biz_error_lem,
          biz_of_status_lem, set_backward_lem,
        )
        refl

  -- What the reader learns, by its role.
  pub learns : Role → Map Bytes Bytes → Map ℕ Bytes → Cx A → M → Cx A × M
  learns client headers ints cx m = client_learns headers cx m
  learns server headers ints cx m = server_learns headers ints cx m

  pub apply-learns :
      (role : Role) (r : Reading) (cx : Cx A) (m : M)
      → apply ext role r cx m ≡ learns role r.headers r.int_headers cx m
  unfolding apply learns
  apply-learns client r cx m = apply_client-learns r.headers cx m
  apply-learns server r cx m = apply_server-learns r.headers r.int_headers cx m
