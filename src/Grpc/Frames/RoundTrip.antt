-- ===== src/Grpc/Frames/RoundTrip.antt =====
-- volo-grpc/src/codec/encode.rs and codec/decode.rs: what the sender's stream of frames is to the
-- receiver.
use volo.Base.{
  ℕ, zero, suc, ◌^◌, ◌<◌, ◌≡◌, refl, sym, ◌∙◌, ap, List, [], ◌∷◌, ◌++◌, Option, none, some, map,
  arith, ltb, ltb→lt, length, append_assoc, append-nil, Bool-cases, inl, inr,
}
use volo.Base.Bytes.{Bytes, be32, concat}
use volo.Grpc.Infer.{HeaderMap, Status, success, done, infer_grpc_status}
use volo.Grpc.Frames.{
  Codec, message, Output, frame, error, broken, Failure, frames, send_nodes, send_compressed,
  send_plain, send_encoded, send, encode,
}
use volo.Grpc.Frames.Receive.{
  header, response, RecvStream, Event, data_frame, trailers_frame, Poll, ready, ready_none, item,
  decode_result, decode_raw, message_of, decode_chunk, decode_in, decode_header, poll_next,
  on_decoded, on_event, is_errored, finish, with_status, new,
}
use volo.Grpc.Frames.Stream.{stream_at, poll_next-wire, flag_of, wire}

-- What the streams need of the serializer and of the compression: what they write is read back.
pub record IsLossless {T Z : Type 0} (codec : Codec T Z) : Type 0 where
  pub message_back :
      (msg : T) (head : Bytes) (nodes : List Bytes)
      → codec.encode_message msg ≡ some (head, nodes)
      → codec.decode_message (head ++ concat nodes) ≡ some msg
  pub bytes_back :
      (z : Z) (raw packed : Bytes)
      → codec.compress z raw ≡ some packed
      → codec.decompress z packed ≡ some raw

-- The results of the first `n` polls.
unfoldable pub collect :
    {T Z : Type 0}
    → Codec T Z
    → (Bytes → Option Bytes)
    → (Bytes → Option Bytes)
    → ℕ
    → List Event
    → RecvStream Z
    → List (Poll T)
collect codec pd base64 zero events s = []
collect codec pd base64 (suc n) events s =
    let p = poll_next codec pd base64 events s in
    p.result ∷ collect codec pd base64 n p.events p.stream

abbrev pub frames_of : List Bytes → List (Output Status)
frames_of = map frame

frames-concat :
    (nodes fs : List Bytes) (rest : List (Output Status))
    → frames nodes rest ≡ frames_of fs
    → (gs : List Bytes) × (rest ≡ frames_of gs) × (concat fs ≡ concat nodes ++ concat gs)
unfolding frames
frames-concat [] fs rest h = (fs, h, refl)
frames-concat ([] ∷ nodes) fs rest h = frames-concat nodes fs rest h
frames-concat ((b ∷ bytes) ∷ nodes) [] rest h = absurd cc
frames-concat ((b ∷ bytes) ∷ nodes) (f ∷ fs) rest h =
    let tail : frames nodes rest ≡ frames_of fs = cc in
    let head : f ≡ b ∷ bytes = cc in
    let (gs, same, bytes_same) = frames-concat nodes fs rest tail in
    (gs, same, rw (head, bytes_same) (sym (append_assoc (b ∷ bytes) (concat nodes) (concat gs))))

broken-frames : {A : Type 0} (fs : List Bytes) → broken ∷ [] ≡ frames_of fs → A
broken-frames [] h = absurd cc
broken-frames (f ∷ fs) h = absurd cc

error-frames : {A : Type 0} (e : Failure Status) (fs : List Bytes) → error e ∷ [] ≡ frames_of fs → A
error-frames e [] h = absurd cc
error-frames e (f ∷ fs) h = absurd cc

module _ {T Z : Type 0} (codec : Codec T Z) (law : IsLossless codec) where
  -- One message was written: the frames start with its bytes, and the payload is read as it.
  record Sent (z : Option Z) (msg : T) (fs : List Bytes) (rest : List (Output Status))
      : Type 0 where
    payload : Bytes
    others : List Bytes
    is_u32 : length payload < 2 ^ 32
    reads : decode_result codec z payload ≡ item msg
    rest_same : rest ≡ frames_of others
    bytes_same : concat fs ≡ wire z payload ++ concat others

  send_nodes-Sent :
      (z : Option Z) (msg : T) (head : Bytes) (nodes fs : List Bytes) (rest : List (Output Status))
      → decode_result codec z (head ++ concat nodes) ≡ item msg
      → send_nodes (flag_of z) (head, nodes) rest ≡ frames_of fs
      → Sent z msg fs rest
  unfolding send_nodes wire
  send_nodes-Sent z msg head nodes fs rest h same =
      elim (Bool-cases (ltb (length (head ++ concat nodes)) (2 ^ 32))) [
        | inl small ↦
            let sent : frames ((flag_of z ∷ (be32 (length (head ++ concat nodes)) ++ head)) ∷ nodes)
                  rest
                ≡ frames_of fs =
              ground arith in
            let (gs, rest_same, bytes_same) = frames-concat _ fs rest sent in
            record {
              payload = head ++ concat nodes;
              others = gs;
              is_u32 = ltb→lt _ _ small;
              reads = h;
              rest_same = rest_same;
              bytes_same = bytes_same;
            }
        | inr large ↦ broken-frames fs (ground arith)
      ]

  send_plain-Sent :
      (msg : T) (o : Option (Bytes × List Bytes)) (fs : List Bytes) (rest : List (Output Status))
      → codec.encode_message msg ≡ o
      → send_plain o rest ≡ frames_of fs
      → Sent none msg fs rest
  unfolding send_plain decode_result message_of flag_of
  send_plain-Sent msg none fs rest e same = error-frames _ fs same
  send_plain-Sent msg (some (head, nodes)) fs rest e same =
      send_nodes-Sent none msg head nodes fs rest (rw (law.message_back msg head nodes e) refl) same

  send_compressed-Sent :
      (z : Z) (msg : T) (raw : Bytes) (o : Option Bytes) (fs : List Bytes)
      (rest : List (Output Status))
      → codec.decode_message raw ≡ some msg
      → codec.compress z raw ≡ o
      → send_compressed o rest ≡ frames_of fs
      → Sent (some z) msg fs rest
  unfolding send_compressed decode_result decode_raw message_of flag_of
  send_compressed-Sent z msg raw none fs rest d e same = error-frames _ fs same
  send_compressed-Sent z msg raw (some packed) fs rest d e same =
      send_nodes-Sent (some z) msg packed [] fs rest
        (rw (append-nil packed, law.bytes_back z raw packed e, d) refl) same

  send_encoded-Sent :
      (z : Z) (msg : T) (o : Option (Bytes × List Bytes)) (fs : List Bytes)
      (rest : List (Output Status))
      → codec.encode_message msg ≡ o
      → send_encoded codec z o rest ≡ frames_of fs
      → Sent (some z) msg fs rest
  unfolding send_encoded
  send_encoded-Sent z msg none fs rest e same = error-frames _ fs same
  send_encoded-Sent z msg (some (head, nodes)) fs rest e same =
      send_compressed-Sent z msg (head ++ concat nodes) _ fs rest
        (law.message_back msg head nodes e) refl same

  send-Sent :
      (z : Option Z) (msg : T) (fs : List Bytes) (rest : List (Output Status))
      → send codec z msg rest ≡ frames_of fs
      → Sent z msg fs rest
  unfolding send
  send-Sent none msg fs rest same = send_plain-Sent msg _ fs rest refl same
  send-Sent (some z) msg fs rest same = send_encoded-Sent z msg _ fs rest refl same

  module _ (percent_decode : Bytes → Option Bytes) (base64 : Bytes → Option Bytes) where
    -- Where no byte is left, the poll reads on to the trailers.
    ends :
        (z : Option Z) (status : ℕ) (headers : HeaderMap) (chunks : List Bytes)
        → infer_grpc_status percent_decode base64 (some headers) status ≡ done success
        → concat chunks ≡ []
        → collect codec percent_decode base64 1
            (map data_frame chunks ++ (trailers_frame headers ∷ []))
            (stream_at none (response status) z header [])
          ≡ ready_none ∷ []
    unfolding collect poll_next is_errored decode_chunk decode_in decode_header on_decoded on_event
        finish with_status
    ends z status headers [] inferred empty = rw inferred refl
    ends z status headers ([] ∷ chunks) inferred empty = ends z status headers chunks inferred empty
    ends z status headers ((b ∷ bytes) ∷ chunks) inferred empty = absurd cc

    receive :
        (z : Option Z) (status : ℕ) (headers : HeaderMap) (msgs : List T) (fs chunks : List Bytes)
        (buf : Bytes)
        → infer_grpc_status percent_decode base64 (some headers) status ≡ done success
        → encode codec z (map message msgs) ≡ frames_of fs
        → buf ++ concat chunks ≡ concat fs
        → collect codec percent_decode base64
            (suc (length msgs))
            (map data_frame chunks ++ (trailers_frame headers ∷ []))
            (stream_at none (response status) z header buf)
          ≡ map ready msgs ++ (ready_none ∷ [])
    unfolding encode collect
    receive z status headers [] [] chunks [] inferred sent cut =
        ends z status headers chunks inferred cut
    receive z status headers [] [] chunks (b ∷ buf) inferred sent cut = absurd cc
    receive z status headers [] (f ∷ fs) chunks buf inferred sent cut = absurd cc
    receive z status headers (msg ∷ msgs) fs chunks buf inferred sent cut =
        let s = send-Sent z msg fs (encode codec z (map message msgs)) sent in
        let g =
          poll_next-wire codec percent_decode base64 none (response status) z
            (trailers_frame headers ∷ []) s.payload (concat s.others) msg chunks buf s.is_u32
            s.reads (cut ∙ s.bytes_same) in
        rw (g.given) (
          ap (λ rest. ready msg ∷ rest)
            (receive z status headers msgs s.others g.chunks g.buf inferred s.rest_same g.left))

    -- With a serializer and a compression whose output is read back, whatever messages the sender
    -- encodes without an error, and wherever the bytes of its frames are cut into data frames on
    -- the way, the polls of a response give exactly those messages, in order, and then the end of
    -- the stream, if the trailers that follow say that the call has succeeded.
    pub poll_next-encode :
        (z : Option Z) (status : ℕ) (headers : HeaderMap) (msgs : List T) (fs chunks : List Bytes)
        → infer_grpc_status percent_decode base64 (some headers) status ≡ done success
        → encode codec z (map message msgs) ≡ frames_of fs
        → concat chunks ≡ concat fs
        → collect codec percent_decode base64
            (suc (length msgs))
            (map data_frame chunks ++ (trailers_frame headers ∷ []))
            (new (response status) z)
          ≡ map ready msgs ++ (ready_none ∷ [])
    unfolding new
    poll_next-encode z status headers msgs fs chunks inferred sent cut =
        receive z status headers msgs fs chunks [] inferred sent cut
