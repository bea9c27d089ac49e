-- ===== src/Grpc/Frames/Stream.antt =====
-- volo-grpc/src/codec/decode.rs: one message read from a body that is cut into data frames
-- anywhere.
use volo.Base.{
  ℕ, ◌^◌, ◌≤◌, ◌<◌, ◌≡◌, refl, sym, ◌∙◌, ap, false, List, [], ◌∷◌, ◌++◌, Option, none, some, map,
  arith, ltb, ltb→lt, length, length-append, take, drop, append_assoc, subst, take-append-drop,
  split_prefix, Bool-cases, inl, inr,
}
use volo.Base.Bytes.{Bytes, be32, of_be32-be32, concat}
use volo.Grpc.Infer.{HeaderMap}
use volo.Grpc.Frames.{Codec}
use volo.Grpc.Frames.Receive.{
  State, header, body, Kind, RecvStream, Event, data_frame, ready, wait, item, decode_result,
  decode_chunk, decode_in, decode_header, decode_body, decode_compressed, enter_body, after_body,
  poll_next, on_decoded, on_event, is_errored,
}

unfoldable pub flag_of : {Z : Type 0} → Option Z → ℕ
flag_of none = 0
flag_of (some z) = 1

-- The bytes of one message on the wire.
unfoldable pub wire : {Z : Type 0} → Option Z → Bytes → Bytes
wire z p = flag_of z ∷ (be32 (length p) ++ p)

not_ltb : (a b : ℕ) → b ≤ a → ltb a b ≡ false
not_ltb a b h = ground arith

abbrev pub stream_at :
    {Z : Type 0} → Option HeaderMap → Kind → Option Z → State Z → Bytes → RecvStream Z
stream_at trailers kind z state buf = record {
  trailers = trailers;
  buf = buf;
  state = state;
  kind = kind;
  compression_encoding = z;
}

header_enters :
    {T Z : Type 0} (codec : Codec T Z) (trailers : Option HeaderMap) (kind : Kind) (z : Option Z)
    (n : ℕ) (r : Bytes)
    → n < 2 ^ 32
    → decode_chunk codec (stream_at trailers kind z header (flag_of z ∷ (be32 n ++ r)))
      ≡ decode_chunk codec (stream_at trailers kind z (body z n) r)
unfolding decode_chunk decode_in decode_header decode_compressed enter_body flag_of
header_enters codec trailers kind none n r h = rw (of_be32-be32 n h) refl
header_enters codec trailers kind (some z) n r h = rw (of_be32-be32 n h) refl

module _ {T Z : Type 0} (codec : Codec T Z) (percent_decode : Bytes → Option Bytes)
    (base64 : Bytes → Option Bytes) (trailers : Option HeaderMap) (kind : Kind) (z : Option Z) where
  -- The poll gives the message, and leaves the bytes behind it.
  pub record Gives (events : List Event) (s : RecvStream Z) (tail : List Event) (msg : T)
      (rest : Bytes) : Type 0 where
    pub chunks : List Bytes
    pub buf : Bytes
    pub given : poll_next codec percent_decode base64 events s ≡ record {
      result = ready msg;
      stream = stream_at trailers kind z header buf;
      events = map data_frame chunks ++ tail;
    }
    pub left : buf ++ concat chunks ≡ rest

  body_waits :
      (len : ℕ) (buf : Bytes)
      → length buf < len
      → decode_chunk codec (stream_at trailers kind z (body z len) buf)
        ≡ (stream_at trailers kind z (body z len) buf, wait)
  unfolding decode_chunk decode_in decode_body
  body_waits len buf h = ground arith

  body_gives :
      (len : ℕ) (buf : Bytes) (msg : T)
      → len ≤ length buf
      → decode_result codec z (take len buf) ≡ item msg
      → decode_chunk codec (stream_at trailers kind z (body z len) buf)
        ≡ (stream_at trailers kind z header (drop len buf), item msg)
  unfolding decode_chunk decode_in decode_body after_body
  body_gives len buf msg h e = rw (not_ltb (length buf) len h, e) refl

  poll_decodes :
      (events : List Event) (s t : RecvStream Z) (msg : T)
      → is_errored s.state ≡ false
      → decode_chunk codec s ≡ (t, item msg)
      → poll_next codec percent_decode base64 events s
        ≡ record { result = ready msg; stream = t; events = events }
  unfolding poll_next on_decoded
  poll_decodes [] s t msg live h = rw (live, h) refl
  poll_decodes (e ∷ events) s t msg live h = rw (live, h) refl

  poll_waits :
      (c : Bytes) (events : List Event) (s : RecvStream Z)
      → is_errored s.state ≡ false
      → decode_chunk codec s ≡ (s, wait)
      → poll_next codec percent_decode base64 (data_frame c ∷ events) s
        ≡ poll_next codec percent_decode base64 events (record s { buf = s.buf ++ c })
  unfolding poll_next on_decoded on_event
  poll_waits c events s live h = rw (live, h) refl

  poll_same :
      (events : List Event) (s t : RecvStream Z)
      → is_errored s.state ≡ false
      → is_errored t.state ≡ false
      → decode_chunk codec s ≡ decode_chunk codec t
      → poll_next codec percent_decode base64 events s
        ≡ poll_next codec percent_decode base64 events t
  unfolding poll_next
  poll_same [] s t live alive h = rw (live, alive, h) refl
  poll_same (e ∷ events) s t live alive h = rw (live, alive, h) refl

  Gives-enough :
      (tail : List Event) (p rest : Bytes) (msg : T) (chunks : List Bytes) (buf : Bytes)
      → decode_result codec z p ≡ item msg
      → buf ++ concat chunks ≡ p ++ rest
      → length p ≤ length buf
      → Gives
          (map data_frame chunks ++ tail)
          (stream_at trailers kind z (body z (length p)) buf)
          tail
          msg
          rest
  unfolding is_errored
  Gives-enough tail p rest msg chunks buf e same enough =
      let (front, back) = split_prefix p buf (concat chunks) rest same enough in
      record {
        chunks = chunks;
        buf = drop (length p) buf;
        given = poll_decodes _ _ _ msg refl (body_gives (length p) buf msg enough (rw front e));
        left = back;
      }

  -- A body that has not all come yet: the poll reads the next frame.
  Gives-more :
      (tail : List Event) (rest c : Bytes) (events : List Event) (s : RecvStream Z) (msg : T)
      → is_errored s.state ≡ false
      → decode_chunk codec s ≡ (s, wait)
      → Gives events (record s { buf = s.buf ++ c }) tail msg rest
      → Gives (data_frame c ∷ events) s tail msg rest
  Gives-more tail rest c events s msg live h g = record {
    chunks = g.chunks;
    buf = g.buf;
    given = poll_waits c events s live h ∙ g.given;
    left = g.left;
  }

  poll_body :
      (tail : List Event) (p rest : Bytes) (msg : T) (chunks : List Bytes) (buf : Bytes)
      → decode_result codec z p ≡ item msg
      → buf ++ concat chunks ≡ p ++ rest
      → Gives
          (map data_frame chunks ++ tail)
          (stream_at trailers kind z (body z (length p)) buf)
          tail
          msg
          rest
  unfolding is_errored
  poll_body tail p rest msg [] buf e same =
      Gives-enough tail p rest msg [] buf e same
        (omega (arith, length-append buf [], length-append p rest, ap length same))
  poll_body tail p rest msg (c ∷ chunks) buf e same =
      elim (Bool-cases (ltb (length buf) (length p))) [
        | inl short ↦
            Gives-more tail rest c _ _ msg refl (body_waits (length p) buf (ltb→lt _ _ short)) (
              poll_body tail p rest msg chunks (buf ++ c) e
                (append_assoc buf c (concat chunks) ∙ same))
        | inr enough ↦ Gives-enough tail p rest msg (c ∷ chunks) buf e same (ground arith)
      ]

  header_waits :
      (buf : Bytes)
      → length buf < 5
      → decode_chunk codec (stream_at trailers kind z header buf)
        ≡ (stream_at trailers kind z header buf, wait)
  unfolding decode_chunk decode_in decode_header
  header_waits [] h = refl
  header_waits (a ∷ []) h = refl
  header_waits (a ∷ b ∷ []) h = refl
  header_waits (a ∷ b ∷ c ∷ []) h = refl
  header_waits (a ∷ b ∷ c ∷ d ∷ []) h = refl
  header_waits (a ∷ b ∷ c ∷ d ∷ e ∷ buf) h = absurd (omega arith)

  Gives-entered :
      (tail : List Event) (p rest : Bytes) (msg : T) (chunks : List Bytes) (buf : Bytes)
      → length p < 2 ^ 32
      → decode_result codec z p ≡ item msg
      → buf ++ concat chunks ≡ p ++ rest
      → Gives
          (map data_frame chunks ++ tail)
          (stream_at trailers kind z header (flag_of z ∷ (be32 (length p) ++ buf)))
          tail
          msg
          rest
  unfolding is_errored
  Gives-entered tail p rest msg chunks buf small e same =
      let g = poll_body tail p rest msg chunks buf e same in
      record {
        chunks = g.chunks;
        buf = g.buf;
        given =
            poll_same _ _ _ refl refl (header_enters codec trailers kind z (length p) buf small)
            ∙ g.given;
        left = g.left;
      }

  Gives-header :
      (tail : List Event) (p rest : Bytes) (msg : T) (chunks : List Bytes) (buf : Bytes)
      → length p < 2 ^ 32
      → decode_result codec z p ≡ item msg
      → buf ++ concat chunks ≡ wire z p ++ rest
      → 5 ≤ length buf
      → Gives (map data_frame chunks ++ tail) (stream_at trailers kind z header buf) tail msg rest
  unfolding wire
  Gives-header tail p rest msg chunks buf small h same enough =
      let prefix = flag_of z ∷ be32 (length p) in
      let (front, back) = split_prefix prefix buf (concat chunks) (p ++ rest) same enough in
      subst
        (λ b.
          Gives (map data_frame chunks ++ tail) (stream_at trailers kind z header b) tail msg rest)
        (ap (λ f. f ++ drop 5 buf) (sym front) ∙ take-append-drop 5 buf)
        (Gives-entered tail p rest msg chunks (drop 5 buf) small h back)

  -- A stream at the start of a frame: a poll gives the message of the frame, wherever the data
  -- frames are cut, and leaves the bytes behind it.
  pub poll_next-wire :
      (tail : List Event) (p rest : Bytes) (msg : T) (chunks : List Bytes) (buf : Bytes)
      → length p < 2 ^ 32
      → decode_result codec z p ≡ item msg
      → buf ++ concat chunks ≡ wire z p ++ rest
      → Gives (map data_frame chunks ++ tail) (stream_at trailers kind z header buf) tail msg rest
  unfolding is_errored wire
  poll_next-wire tail p rest msg [] buf small h same =
      Gives-header tail p rest msg [] buf small h same
        (omega (arith, length-append buf [], ap length same))
  poll_next-wire tail p rest msg (c ∷ chunks) buf small h same =
      elim (Bool-cases (ltb (length buf) 5)) [
        | inl short ↦ Gives-more tail rest c _ _ msg refl (header_waits buf (ltb→lt _ _ short)) (
            poll_next-wire tail p rest msg chunks (buf ++ c) small h
              (append_assoc buf c (concat chunks) ∙ same))
        | inr enough ↦ Gives-header tail p rest msg (c ∷ chunks) buf small h same (ground arith)
      ]
