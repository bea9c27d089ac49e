-- ===== src/TtHeader/Request.antt =====
-- volo-thrift/src/codec/default/ttheader.rs: a client's request header at the server.
use mathlib.Core.Option
use volo.Base.{
  ℕ, ◌≡◌, refl, sym, subst, ap, ◌∙◌, true, List, [], ◌∷◌, ◌++◌, Option, none, some, arith, drop,
}
use volo.Base.Bytes.{Bytes, eqb_iff, codes}
use volo.Base.Maps.{Map, nat_eq, bytes_eq, lookup, insert, lookup-insert}
use volo.TtHeader.{
  Role, client, server, IntMetaKey, from_service, to_service, to_method, dest_address, rpc_timeout,
  conn_timeout, with_header, int_key, Cx, Externals,
}
use volo.TtHeader.Encode.{EncodeResult, has_string_kv, protocol_of, encode}
use volo.TtHeader.Layout.{optional, string_kvs, int_kvs}
use volo.TtHeader.Decode.{Result, ok, Reading}
use volo.TtHeader.Apply.{
  apply, apply_server, set_isn, set_caller, set_callee, set_timeout, set_address, finish_decode,
  decode,
}
use volo.TtHeader.Reads.{insert_all, insert_ints}
use volo.TtHeader.RoundTrip.{Fits, sent, decode-encode_reading}

insert_all-append :
    (xs ys : List (Bytes × Bytes)) (h : Map Bytes Bytes)
    → insert_all (xs ++ ys) h ≡ insert_all ys (insert_all xs h)
unfolding insert_all
insert_all-append [] ys h = refl
insert_all-append ((k, v) ∷ xs) ys h = insert_all-append xs ys (insert k v h)

abbrev request_ints :
    Option Bytes → Option Bytes → Option Bytes → Bytes → Bytes → Bytes → List (IntMetaKey × Bytes)
request_ints t c addr from method to =
    (with_header, codes "3")
    ∷ (optional (λ v. (rpc_timeout, v) ∷ []) t
        ++ (optional (λ v. (conn_timeout, v) ∷ []) c
            ++ ((from_service, from)
                ∷ ((to_method, method)
                    ∷ ((to_service, to) ∷ optional (λ v. (dest_address, v) ∷ []) addr)))))

abbrev Found : Option Bytes → Bytes → Bytes → Map ℕ Bytes → Type 0
Found t from to m = (lookup 3 m ≡ some from) × (lookup 6 m ≡ some to) × (lookup 12 m ≡ t)

request_ints-Found :
    (t c addr : Option Bytes) (from method to : Bytes)
    → Found t from to (insert_ints (request_ints t c addr from method to) [])
unfolding optional insert_ints insert int_key lookup
request_ints-Found none none none from method to = (refl, refl, refl)
request_ints-Found none none (some a) from method to = (refl, refl, refl)
request_ints-Found none (some c) none from method to = (refl, refl, refl)
request_ints-Found none (some c) (some a) from method to = (refl, refl, refl)
request_ints-Found (some t) none none from method to = (refl, refl, refl)
request_ints-Found (some t) none (some a) from method to = (refl, refl, refl)
request_ints-Found (some t) (some c) none from method to = (refl, refl, refl)
request_ints-Found (some t) (some c) (some a) from method to = (refl, refl, refl)

insert_all_one : (k v : Bytes) (h : Map Bytes Bytes) → insert_all ((k, v) ∷ []) h ≡ insert k v h
unfolding insert_all
insert_all_one k v h = refl

last_wins :
    (k v : Bytes) (xs ys : List (Bytes × Bytes))
    → lookup k (insert_all (xs ++ (ys ++ ((k, v) ∷ []))) []) ≡ some v
last_wins k v xs ys =
    ap (λ (m : Map Bytes Bytes). lookup k m)
      (insert_all-append xs (ys ++ ((k, v) ∷ [])) []
        ∙ insert_all-append ys ((k, v) ∷ []) (insert_all xs []))
    ∙ ap (λ (m : Map Bytes Bytes). lookup k m) (insert_all_one k v _)
    ∙ lookup-insert k k v _
    ∙ rw ((eqb_iff k k).1 refl) refl

module _ {A M : Type 0} (ext : Externals A M) where
  int_kvs-Found :
      (r : Role) (cx : Cx A)
      → r ≡ client
      → Found
          (Option.map ext.millis_to_string cx.timeout)
          cx.caller.service_name
          cx.callee.service_name
          (insert_ints (int_kvs ext r cx) [])
  unfolding int_kvs
  int_kvs-Found client cx h = request_ints-Found _ _ _ _ _ _
  int_kvs-Found server cx h = cc

  isn_sent :
      (r : Role) (cx : Cx A) (m : M) (isn : Bytes)
      → r ≡ client
      → cx.idl_service_name ≡ some isn
      → lookup (codes "isn") (insert_all (string_kvs ext r cx m) []) ≡ some isn
  unfolding string_kvs optional
  isn_sent client cx m isn h e = rw e (last_wins (codes "isn") isn _ _)
  isn_sent server cx m isn h e = cc

  client_has :
      (r : Role) (cx : Cx A) (m : M) (isn : Bytes)
      → r ≡ client
      → cx.idl_service_name ≡ some isn
      → has_string_kv ext r cx m ≡ true
  unfolding has_string_kv
  client_has client cx m isn h e = rw e (ground arith)
  client_has server cx m isn h e = cc

  -- What the server's half of `decode` makes of headers with these entries.
  apply_server_names :
      (headers : Map Bytes Bytes) (ints : Map ℕ Bytes) (cx : Cx A) (m : M) (isn from to : Bytes)
      → lookup (codes "isn") headers ≡ some isn
      → lookup 3 ints ≡ some from
      → lookup 6 ints ≡ some to
      → let out : Cx A = (apply_server ext headers ints cx m).0 in
        (out.idl_service_name ≡ some isn)
        × (out.caller.service_name ≡ from)
        × (out.callee.service_name ≡ to)
  unfolding apply_server set_isn set_caller set_callee set_timeout set_address int_key
  apply_server_names headers ints cx m isn from to hi hf ht =
      rw (hi, hf, ht, set_isn, set_caller, set_callee) (ground arith, ground arith, ground arith)

  -- What the server knows of a request after its header.
  pub record Received (cx : Cx A) (isn payload : Bytes) (r : Cx A × M × Result Bytes) : Type 0 where
    pub rest : r.2 ≡ ok payload
    pub isn_received : r.0.idl_service_name ≡ some isn
    pub caller_received : r.0.caller.service_name ≡ cx.caller.service_name
    pub callee_received : r.0.callee.service_name ≡ cx.callee.service_name

  finish_Received :
      (role : Role) (cx scx : Cx A) (sm : M) (reading : Reading) (isn : Bytes)
      → role ≡ server
      → scx.role ≡ role
      → lookup (codes "isn") reading.headers ≡ some isn
      → lookup 3 reading.int_headers ≡ some cx.caller.service_name
      → lookup 6 reading.int_headers ≡ some cx.callee.service_name
      → Received cx isn reading.src (finish_decode ext scx sm (ok reading))
  unfolding finish_decode apply
  finish_Received client cx scx sm reading isn hr hs hi hf ht = cc
  finish_Received server cx scx sm reading isn hr hs hi hf ht =
      let (a, b, c) =
        apply_server_names reading.headers reading.int_headers scx sm isn _ _ hi hf ht in
      record {
        rest = refl;
        isn_received = simp (hs, apply) a;
        caller_received = simp (hs, apply) b;
        callee_received = simp (hs, apply) c;
      }

  -- A server that decodes what a client with an IDL service name encoded, all of whose keys and
  -- values have lengths that fit 16 bits, learns the client's IDL service name, its own name and
  -- the caller's, and is left with the payload.
  pub decode-encode_request :
      (cx scx : Cx A) (m sm : M) (size : ℕ) (out payload isn : Bytes)
      → cx.role ≡ client
      → scx.role ≡ server
      → cx.idl_service_name ≡ some isn
      → Fits ext cx m
      → encode ext cx m [] size ≡ EncodeResult.ok out
      → Received cx isn payload (decode ext scx sm (drop 4 out ++ payload))
  decode-encode_request cx scx m sm size out payload isn hc hs hi f e =
      let (found_from, found_to, _) = int_kvs-Found cx.role cx hc in
      subst (Received cx isn payload)
        (sym (decode-encode_reading ext cx m scx sm size out payload f e))
        (finish_Received server cx (record scx { protocol_id = some (protocol_of cx.protocol_id) })
          sm (sent ext cx m payload) isn refl hs
          (rw (client_has cx.role cx m isn hc hi) (isn_sent cx.role cx m isn hc hi)) found_from
          found_to)
