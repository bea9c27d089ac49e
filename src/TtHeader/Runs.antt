-- ===== src/TtHeader/Runs.antt =====
-- volo-thrift/src/codec/default/ttheader.rs: one client's request and one server's reply, run.
use volo.Base.{
  ℕ, ◌++◌, ◌≡◌, refl, ◌∙◌, true, false, [], ◌∷◌, none, some, arith, length, drop, ltb,
  if◌then◌else◌, ◌<◌, ◌+◌, ◌^◌,
}
use volo.Base.Bytes.{Bytes, codes}
use volo.TtHeader.{client, server, Cx, Externals, int_key}
use volo.TtHeader.Encode.{EncodeResult, encode, has_string_kv, protocol_of}
use volo.TtHeader.Layout.{
  header, words, total, string_kvs, int_kvs, body, unpadded, string_section, int_section, optional,
  prefixed, entries, int_entries, kv_bytes, int_kv_bytes, padding_of,
}
use volo.TtHeader.Layout.Refines.{encode-header}
use volo.TtHeader.Size.{encode_size, counts_string_kv, cache_extra}
use volo.TtHeader.SizeAgrees.{encode-encode_size, encode_size_short}
use volo.TtHeader.Decode.{Result}
use volo.TtHeader.Apply.{decode}
use volo.TtHeader.RoundTrip.{Fits, sent_strings, decode-encode}
use volo.TtHeader.Learned.{learns, last_of, last_int_of}
use volo.TtHeader.Reads.{insert_all, insert_ints}
use volo.Base.Maps.{nat_eq, bytes_eq, lookup}
use volo.TtHeader.Request.{Received, decode-encode_request}

-- Other packages with no metainfo, one digit for a number, and addresses that are bytes.
abbrev pub ext : Externals ℕ ℕ
ext = record {
  prefix_persistent = codes "RPC_PERSIST_";
  prefix_transient = codes "RPC_TRANSIT_";
  prefix_backward = codes "RPC_BACKWARD_";
  all_persistents = λ m. none;
  all_transients = λ m. none;
  all_backward_transients = λ m. none;
  strip_and_set_persistent = λ k v m. m + 1;
  strip_and_set_upstream = λ k v m. m + 1;
  strip_and_set_backward_downstream = λ k v m. m + 1;
  format_i32 = λ n. (48 + n) ∷ [];
  parse_i32 = λ b. some 1;
  extra_to_json = λ e. codes "{}";
  extra_from_json = λ b. some [];
  millis_to_string = λ n. (48 + n) ∷ [];
  parse_u64 = λ b. some 1;
  addr_to_string = λ a. a ∷ [];
  parse_addr = λ b. none;
}

abbrev pub request : Cx ℕ
request = record {
  role = client;
  seq_id = 7;
  message_type = 1;
  method = codes "get";
  caller = record { service_name = codes "front"; address = none };
  callee = record { service_name = codes "store"; address = some 65 };
  timeout = some 5;
  connect_timeout = none;
  idl_service_name = some (codes "Store");
  conn_reset = false;
  reuse = true;
  biz_error = none;
  protocol_id = none;
  biz_error_extra = none;
}

abbrev pub fresh_server : Cx ℕ
fresh_server = record request {
  role = server;
  caller = record { service_name = []; address = none };
  idl_service_name = none;
}

abbrev failed_reply : Cx ℕ
failed_reply = record fresh_server {
  biz_error = some (record { status_code = 3; status_message = codes "no"; extra = none });
}

encode-header_example : encode ext request 0 [] 5 ≡ (
    if ltb (words ext request 0) (2 ^ 16)
    then if ltb (total ext request 0 5) (2 ^ 32)
      then EncodeResult.ok ([] ++ header ext request 0 5)
      else EncodeResult.size_limit
    else EncodeResult.size_limit)
encode-header_example = encode-header ext request 0 [] 5

encode_size_short_example :
    (encode_size ext failed_reply 0).0 < length (header ext (encode_size ext failed_reply 0).1 0 5)
encode_size_short_example =
    encode_size_short ext failed_reply 0 5
      (record { status_code = 3; status_message = codes "no"; extra = none }) refl refl refl refl

pub request_fits : Fits ext request 0
unfolding string_kvs int_kvs optional prefixed
request_fits = record {
  strings = (omega arith, omega arith, tt);
  ints =
      (omega arith, (omega arith, (omega arith, (omega arith, (omega arith, (omega arith, tt))))));
}

written : encode ext request 0 [] 5 ≡ EncodeResult.ok (header ext request 0 5)
unfolding words total body unpadded string_section int_section string_kvs int_kvs optional prefixed
    entries int_entries kv_bytes int_kv_bytes has_string_kv padding_of int_key
written = encode-header ext request 0 [] 5 ∙ refl

sized :
    encode ext (encode_size ext request 0).1 0 [] 5
    ≡ EncodeResult.ok (header ext (encode_size ext request 0).1 0 5)
unfolding encode_size cache_extra words total body unpadded string_section int_section string_kvs
    int_kvs optional prefixed entries int_entries kv_bytes int_kv_bytes has_string_kv padding_of
    int_key counts_string_kv
sized = encode-header ext (encode_size ext request 0).1 0 [] 5 ∙ refl

encode-encode_size_example :
    length (header ext (encode_size ext request 0).1 0 5) ≡ 0 + (encode_size ext request 0).0
unfolding counts_string_kv has_string_kv
encode-encode_size_example =
    encode-encode_size ext request 0 [] (header ext (encode_size ext request 0).1 0 5) 5 refl sized

decode-encode_example :
    let strings = insert_all (sent_strings ext request 0) [] in
    let ints = insert_ints (int_kvs ext request.role request) [] in
    let learned =
      learns ext server strings ints
        (record fresh_server { protocol_id = some (protocol_of request.protocol_id) })
        0 in
    (decode ext fresh_server 0 (drop 4 (header ext request 0 5) ++ codes "hello")
      ≡ (learned.0, learned.1, Result.ok (codes "hello")))
    × ((k : Bytes) → lookup k strings ≡ last_of k (sent_strings ext request 0) none)
    × ((k : ℕ) → lookup k ints ≡ last_int_of k (int_kvs ext request.role request) none)
decode-encode_example =
    decode-encode ext request 0 fresh_server 0 5 (header ext request 0 5) (codes "hello")
      request_fits written

decode-encode_request_example :
    Received ext request
      (codes "Store")
      (codes "hello")
      (decode ext fresh_server 0 (drop 4 (header ext request 0 5) ++ codes "hello"))
decode-encode_request_example =
    decode-encode_request ext request fresh_server 0 0 5 (header ext request 0 5) (codes "hello")
      (codes "Store") refl refl refl request_fits written
