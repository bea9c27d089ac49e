-- ===== src/Grpc/Runs.antt =====
-- volo-grpc/src: a timeout header, a status in the trailers, and two messages on the wire.
use volo.Base.{
  ℕ, ◌||◌, ◌==◌, false, ltb, ◌*◌, ◌<◌, ◌^◌, min, ◌≡◌, ap, ap₂, ◌∙◌, append-nil, take-append-drop,
  ◌↔◌, ◌⊎◌, refl, true, List, [], ◌∷◌, ◌++◌, none, some, map, arith, take, drop,
}
use volo.Base.Bytes.{Bytes, codes, eqb, concat}
use volo.Base.Maps.{bytes_eq, lookup, insert}
use volo.Grpc.Status.{
  unknown, internal, from_bytes, from_byte, first_match, to_header_value, from_i32, number,
  from_bytes-to_header_value, from_bytes-exact,
}
use volo.Grpc.Percent.{is_ascii, hex, percent_encode, percent_decode, decoded-IsPercent}
use volo.Grpc.Trailers.Escapes.{is_raw, AsciiSet, encoding_set, has_percent}
use volo.Grpc.Trailers.{
  from_header_map_percent, added, extend, insert_value, add_message, add_details, add_header,
  to_header_map, from_header_map-to_header_map,
}
use volo.Grpc.Infer.{
  Message, text, Status, done, HeaderMap, grpc_status, grpc_message, grpc_details, other_headers,
  infer_grpc_status, from_header_map, with_code, with_details, details_of, message_of, status_of,
  infer_found, infer_status, is_ok,
}
use volo.Grpc.Infer.Success.{is_success, Succeeds, infer_grpc_status-Succeeds}
use volo.Base.Decimal.{value_of}
use volo.Grpc.Timeout.{timeout_duration, duration_of}
use volo.Grpc.Timeout.Exact.{
  minute, hour, letter, nanos, timeout_duration-digits, duration_of_wraps,
}
use volo.Grpc.Frames.{Codec, encode, send, send_encoded, send_compressed, send_nodes, frames}
use volo.Grpc.Frames.Receive.{response, data_frame, trailers_frame, ready, ready_none, new}
use volo.Grpc.Frames.RoundTrip.{IsLossless, collect, poll_next-encode}

from_bytes-to_header_value_example :
    (from_bytes (to_header_value internal) ≡ internal) × (from_i32 (number internal) ≡ internal)
from_bytes-to_header_value_example = from_bytes-to_header_value internal

from_bytes-exact_example :
    (from_bytes (codes "13") ≡ unknown) ⊎ (to_header_value (from_bytes (codes "13")) ≡ codes "13")
from_bytes-exact_example = from_bytes-exact (codes "13")

timeout_duration-digits_example :
    timeout_duration (some (codes "25M")) (some 3000000000)
    ≡ some (min (value_of 0 (codes "25") * nanos minute) 3000000000)
unfolding value_of letter
timeout_duration-digits_example =
    timeout_duration-digits 50 (53 ∷ []) minute (some 3000000000)
      ((omega arith, omega arith), ((omega arith, omega arith), tt)) (omega arith)

duration_of_wraps_example :
    (d : ℕ) × (duration_of (letter hour) (2 ^ 60) ≡ some d) × (d < 2 ^ 60 * nanos hour)
duration_of_wraps_example = duration_of_wraps (2 ^ 60) (omega arith)

abbrev trailers : HeaderMap
trailers = (grpc_status, codes "0") ∷ (grpc_message, codes "fine") ∷ (codes "x", codes "y") ∷ []

infer_grpc_status-Succeeds_example :
    (is_success (infer_grpc_status some some (some trailers) 200) ≡ true)
    ↔ Succeeds some some trailers
infer_grpc_status-Succeeds_example = infer_grpc_status-Succeeds some some trailers 200

-- A message is its bytes, and compression puts a byte in front.
abbrev codec : Codec Bytes ℕ
codec = record {
  encode_message = λ msg. some (take 1 msg, drop 1 msg ∷ []);
  decode_message = some;
  compress = λ z b. some (z ∷ b);
  decompress = λ z b. some (drop 1 b);
}

read_back :
    (msg head : Bytes) (nodes : List Bytes)
    → codec.encode_message msg ≡ some (head, nodes)
    → codec.decode_message (head ++ concat nodes) ≡ some msg
read_back msg head nodes e =
    let first : head ≡ take 1 msg = cc in
    let others : nodes ≡ drop 1 msg ∷ [] = cc in
    ap some (
      ap₂ (λ (a : Bytes) (b : List Bytes). a ++ concat b) first others
      ∙ ap (λ b. take 1 msg ++ b) (append-nil (drop 1 msg))
      ∙ take-append-drop 1 msg)

unpack :
    (z : ℕ) (raw packed : Bytes)
    → codec.compress z raw ≡ some packed
    → codec.decompress z packed ≡ some raw
unpack z raw packed e = let same : packed ≡ z ∷ raw = cc in ap (λ b. some (drop 1 b)) same

codec-IsLossless : IsLossless codec
codec-IsLossless = record { message_back = read_back; bytes_back = unpack }

poll_next-encode_example :
    collect codec some some 3
      (map data_frame (
          (1 ∷ 0 ∷ [])
          ∷ (0 ∷ 0 ∷ 3 ∷ 9 ∷ 104 ∷ 105 ∷ 1 ∷ 0 ∷ [])
          ∷ []
          ∷ (0 ∷ 0 ∷ 2 ∷ 9 ∷ 120 ∷ [])
          ∷ [])
        ++ (trailers_frame trailers ∷ []))
      (new (response 200) (some 9))
    ≡ map ready (codes "hi" ∷ codes "x" ∷ []) ++ (ready_none ∷ [])
unfolding encode send send_encoded send_compressed send_nodes frames infer_grpc_status
    from_header_map with_code with_details details_of message_of status_of infer_found infer_status
    is_ok from_bytes from_byte first_match lookup eqb
poll_next-encode_example =
    poll_next-encode codec codec-IsLossless some some (some 9) 200 trailers
      (codes "hi" ∷ codes "x" ∷ [])
      ((1 ∷ 0 ∷ 0 ∷ 0 ∷ 3 ∷ 9 ∷ 104 ∷ 105 ∷ []) ∷ (1 ∷ 0 ∷ 0 ∷ 0 ∷ 2 ∷ 9 ∷ 120 ∷ []) ∷ [])
      ((1 ∷ 0 ∷ [])
        ∷ (0 ∷ 0 ∷ 3 ∷ 9 ∷ 104 ∷ 105 ∷ 1 ∷ 0 ∷ [])
        ∷ []
        ∷ (0 ∷ 0 ∷ 2 ∷ 9 ∷ 120 ∷ [])
        ∷ [])
      refl refl refl

abbrev text_of : Message → Bytes
text_of (text m) = m
text_of m = []

abbrev rejected : Status
rejected = record {
  code = internal;
  message = text (codes "no way");
  details = 7 ∷ [];
  metadata = (codes "a", codes "b") ∷ [];
}

abbrev rejected_headers : HeaderMap
rejected_headers =
    (codes "a", codes "b")
    ∷ (grpc_status, codes "13")
    ∷ (grpc_message, codes "no%20way")
    ∷ (grpc_details, 7 ∷ [])
    ∷ []

-- What percent_encoding documents for `CONTROLS`.
abbrev controls : AsciiSet
controls b = ltb b 32 || b == 127

rejected_built :
    to_header_map percent_encode controls (λ b. b) (λ b. true) (λ m. m) text_of rejected
    ≡ added rejected_headers
unfolding to_header_map add_header add_details add_message insert_value extend to_header_value eqb
    insert percent_encode encoding_set hex
rejected_built = refl

rejected_text : is_ascii (codes "no way") ≡ true
unfolding is_ascii
rejected_text = refl

rejected_plain : has_percent (codes "no way") ≡ false
unfolding has_percent
rejected_plain = refl

no_message : lookup grpc_message (extend [] rejected.metadata) ≡ none
unfolding extend lookup insert eqb
no_message = refl

no_details : lookup grpc_details (extend [] rejected.metadata) ≡ none
unfolding extend lookup insert eqb
no_details = refl

from_header_map-to_header_map_example :
    from_header_map percent_decode some rejected_headers
    ≡ done (
        some (record {
          code = internal;
          message = text (codes "no way");
          details = 7 ∷ [];
          metadata = other_headers percent_decode some rejected_headers;
        }))
from_header_map-to_header_map_example =
    from_header_map-to_header_map percent_encode controls (λ b. b) (λ b. true) (λ m. m) text_of
      percent_decode some is_ascii decoded-IsPercent (λ d. refl) rejected rejected_headers
      rejected_text rejected_plain no_message no_details rejected_built

-- A message with a percent sign.
abbrev half_price : Status
half_price = record rejected { message = text (codes "50%20off") }

abbrev half_price_headers : HeaderMap
half_price_headers =
    (codes "a", codes "b")
    ∷ (grpc_status, codes "13")
    ∷ (grpc_message, codes "50%20off")
    ∷ (grpc_details, 7 ∷ [])
    ∷ []

half_price_built :
    to_header_map percent_encode controls (λ b. b) (λ b. true) (λ m. m) text_of half_price
    ≡ added half_price_headers
unfolding to_header_map add_header add_details add_message insert_value extend to_header_value eqb
    insert percent_encode encoding_set
half_price_built = refl

space_raw : is_raw controls (codes "%20") ≡ true
unfolding is_raw
space_raw = refl

are_raw :
    (is_raw (encoding_set controls) (codes "50") ≡ true)
    × (is_raw (encoding_set controls) (codes "off") ≡ true)
unfolding is_raw encoding_set
are_raw = (refl, refl)

are_ascii : (is_ascii (codes "50") ≡ true) × (is_ascii (codes "off") ≡ true)
unfolding is_ascii
are_ascii = (refl, refl)

are_plain : (has_percent (codes "50") ≡ false) × (has_percent (codes "off") ≡ false)
unfolding has_percent
are_plain = (refl, refl)

from_header_map_percent_example :
    from_header_map percent_decode some half_price_headers
    ≡ done (
        some (record {
          code = internal;
          message = text (codes "50 off");
          details = 7 ∷ [];
          metadata = other_headers percent_decode some half_price_headers;
        }))
from_header_map_percent_example =
    from_header_map_percent percent_encode controls (λ b. b) (λ b. true) (λ m. m) text_of
      percent_decode some is_ascii decoded-IsPercent (λ d. refl) half_price half_price_headers
      (codes "50") (codes "off") refl space_raw are_raw.0 are_raw.1 are_ascii.0 are_ascii.1
      are_plain.0 are_plain.1 no_message no_details half_price_built
