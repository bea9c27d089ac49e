-- ===== src/Grpc/Frames/Receive.antt =====
-- volo-grpc/src/codec/decode.rs: the stream of messages that a body carries. A poll of the body
-- is an event; no event is left when the body has ended.
use volo.Base.{
  ℕ, Bool, true, false, List, [], ◌∷◌, ◌++◌, Option, none, some, ltb, ◌==◌, if◌then◌else◌, length,
  take, drop,
}
use volo.Base.Bytes.{Bytes, of_be32}
use volo.Grpc.Status.{Code, cancelled}
use volo.Grpc.Infer.{
  HeaderMap, Inferred, success, failure, Outcome, done, Status, infer_grpc_status,
}
use volo.Grpc.Infer.{broken as infer_broken}
use volo.Grpc.Frames.{
  Codec, Failure, inner, error_decompressing, error_decoding, no_encoding, invalid_flag,
  unexpected_eof,
}

pub data State (Z : Type 0) : Type 0 where
  header : State Z
  body : Option Z → ℕ → State Z
  errored : State Z

pub data Kind : Type 0 where
  request : Kind
  response : ℕ → Kind

pub record RecvStream (Z : Type 0) : Type 0 where
  pub trailers : Option HeaderMap
  pub buf : Bytes
  pub state : State Z
  pub kind : Kind
  pub compression_encoding : Option Z

unfoldable pub new : {Z : Type 0} → Kind → Option Z → RecvStream Z
new kind compression_encoding = record {
  trailers = none;
  buf = [];
  state = header;
  kind = kind;
  compression_encoding = compression_encoding;
}

-- `Result<Option<T>, Status>`: `wait` is `Ok(None)`.
pub data Decoded (T : Type 0) : Type 0 where
  wait : Decoded T
  item : T → Decoded T
  fail : Failure Status → Decoded T

pub data Event : Type 0 where
  data_frame : Bytes → Event
  trailers_frame : HeaderMap → Event
  body_error : Status → Event
  not_ready : Event

-- `broken` is a panic.
pub data Poll (T : Type 0) : Type 0 where
  pending : Poll T
  ready_none : Poll T
  ready : T → Poll T
  ready_error : Failure Status → Poll T
  broken : Poll T

pub record Polled (T Z : Type 0) : Type 0 where
  pub result : Poll T
  pub stream : RecvStream Z
  pub events : List Event

unfoldable pub is_errored : {Z : Type 0} → State Z → Bool
is_errored header = false
is_errored (body encoding len) = false
is_errored errored = true

unfoldable pub is_cancelled_request : Kind → Code → Bool
is_cancelled_request request cancelled = true
is_cancelled_request request _ = false
is_cancelled_request (response status) code = false

module _ {T Z : Type 0} (codec : Codec T Z) where
  unfoldable pub message_of : Option T → Decoded T
  message_of none = fail error_decoding
  message_of (some msg) = item msg

  unfoldable pub decode_raw : Option Bytes → Decoded T
  decode_raw none = fail error_decompressing
  decode_raw (some bytes) = message_of (codec.decode_message bytes)

  unfoldable pub decode_result : Option Z → Bytes → Decoded T
  decode_result none bytes = message_of (codec.decode_message bytes)
  decode_result (some encoding) bytes = decode_raw (codec.decompress encoding bytes)

  -- Only a message sets the state back.
  unfoldable pub after_body : RecvStream Z → Decoded T → RecvStream Z × Decoded T
  after_body s (item msg) = (record s { state = header }, item msg)
  after_body s wait = (s, wait)
  after_body s (fail e) = (s, fail e)

  unfoldable pub decode_body : RecvStream Z → Option Z → ℕ → RecvStream Z × Decoded T
  decode_body s encoding len =
      if ltb (length s.buf) len
      then (s, wait)
      else after_body (record s { buf = drop len s.buf }) (decode_result encoding (take len s.buf))

  unfoldable pub enter_body : RecvStream Z → Option Z → ℕ → RecvStream Z × Decoded T
  enter_body s encoding len = decode_body (record s { state = body encoding len }) encoding len

  unfoldable pub decode_compressed : RecvStream Z → Option Z → ℕ → Bytes → RecvStream Z × Decoded T
  decode_compressed s none len rest = (s, fail no_encoding)
  decode_compressed s (some encoding) len rest =
      enter_body (record s { buf = rest }) (some encoding) len

  -- A flag that is not valid is read, and what follows it stays in the buffer.
  unfoldable pub decode_header : RecvStream Z → Bytes → RecvStream Z × Decoded T
  decode_header s (flag ∷ a ∷ b ∷ c ∷ d ∷ rest) =
      if flag == 0
      then enter_body (record s { buf = rest }) none (of_be32 a b c d)
      else if flag == 1
      then decode_compressed (record s { buf = a ∷ b ∷ c ∷ d ∷ rest }) s.compression_encoding
          (of_be32 a b c d) rest
      else (record s { buf = a ∷ b ∷ c ∷ d ∷ rest }, fail (invalid_flag flag))
  decode_header s _ = (s, wait)

  unfoldable pub decode_in : RecvStream Z → State Z → RecvStream Z × Decoded T
  decode_in s header = decode_header s s.buf
  decode_in s (body encoding len) = decode_body s encoding len
  decode_in s errored = (s, wait)

  unfoldable pub decode_chunk : RecvStream Z → RecvStream Z × Decoded T
  decode_chunk s = decode_in s s.state

  module _ (percent_decode : Bytes → Option Bytes) (base64 : Bytes → Option Bytes) where
    unfoldable pub with_status :
        RecvStream Z → List Event → Option HeaderMap → Outcome Inferred → Polled T Z
    with_status s events trailer infer_broken = record {
      result = broken;
      stream = s;
      events = events;
    }
    with_status s events trailer (done success) = record {
      result = ready_none;
      stream = record s { trailers = trailer };
      events = events;
    }
    with_status s events trailer (done (failure none)) = record {
      result = ready_none;
      stream = s;
      events = events;
    }
    with_status s events trailer (done (failure (some e))) = record {
      result = ready_error (inner e);
      stream = s;
      events = events;
    }

    -- What follows the loop.
    unfoldable pub finish : RecvStream Z → List Event → Option HeaderMap → Kind → Polled T Z
    finish s events trailer request = record { result = ready_none; stream = s; events = events }
    finish s events trailer (response status) =
        with_status s events trailer (infer_grpc_status percent_decode base64 trailer status)

    unfoldable pub at_eof : RecvStream Z → Bytes → Polled T Z
    at_eof s [] = finish s [] none s.kind
    at_eof s (b ∷ bytes) = record { result = ready_error unexpected_eof; stream = s; events = [] }

    unfoldable pub body_failed : RecvStream Z → List Event → Status → Bool → Polled T Z
    body_failed s events e true = record { result = ready_none; stream = s; events = events }
    body_failed s events e false = record {
      result = ready_error (inner e);
      stream = record s { state = errored };
      events = events;
    }

    -- `more` is the rest of the loop.
    unfoldable pub on_event :
        RecvStream Z → Event → List Event → (RecvStream Z → Polled T Z) → Polled T Z
    on_event s (data_frame bytes) events more = more (record s { buf = s.buf ++ bytes })
    on_event s (trailers_frame headers) events more = finish s events (some headers) s.kind
    on_event s (body_error e) events more =
        body_failed s events e (is_cancelled_request s.kind e.code)
    on_event s not_ready events more = record { result = pending; stream = s; events = events }

    unfoldable pub on_decoded :
        RecvStream Z × Decoded T → List Event → (RecvStream Z → Polled T Z) → Polled T Z
    on_decoded (s, item msg) events read = record {
      result = ready msg;
      stream = s;
      events = events;
    }
    on_decoded (s, fail e) events read = record {
      result = ready_error e;
      stream = s;
      events = events;
    }
    on_decoded (s, wait) events read = read s

    unfoldable pub poll_next : List Event → RecvStream Z → Polled T Z
    poll_next [] s =
        if is_errored s.state
        then record { result = ready_none; stream = s; events = [] }
        else on_decoded (decode_chunk s) [] (λ t. at_eof t t.buf)
    poll_next (e ∷ events) s =
        if is_errored s.state
        then record { result = ready_none; stream = s; events = e ∷ events }
        else on_decoded (decode_chunk s) (e ∷ events) (λ t. on_event t e events (poll_next events))
