-- ===== src/Thrift/RoundTrip.antt =====
-- volo-thrift/src/codec/default/thrift.rs and volo-thrift/src/message_wrapper.rs: a message that is
-- written, and read again.
use volo.Base.{
  ℕ, ◌≡◌, refl, sym, ◌∙◌, ap, inl, inr, ◌∷◌, ◌++◌, some, arith, length, length-append, append_assoc,
}
use volo.Base.Bytes.{Bytes}
use volo.Framed.{Cx, ok}
use volo.Framed.RoundTrip.{IsThrift, Writes}
use volo.Thrift.{
  Protocol, binary, apache_compact, fb_thrift_compact, TMessageType, call, reply, exception,
  one_way, TMessageIdentifier, Payload, value, raised, ThriftMessage, ◌>>=◌, Pilota, Extensions,
  ident_of, meta_of, handle_decoded_msg_ident, message_size, encode_message, to_raised, to_value,
  read_payload, decode_message, detect, ThriftCodec, protocol_of, insert_protocol, decoded,
  decode_as, decode, encode_as, encode, thrift_codec,
}

-- The bytes with which a message begins.
abbrev pub Begins : Protocol → Bytes → Type 0
Begins binary bytes = (more : Bytes) × (bytes ≡ 128 ∷ 1 ∷ more)
Begins apache_compact bytes = (b : ℕ) × ((more : Bytes) × (bytes ≡ 130 ∷ b ∷ more))
Begins fb_thrift_compact bytes = ⊥

-- An exception is sent as one, and nothing else is.
abbrev pub IsConsistent : {U A : Type 0} → Payload U A → TMessageType → Type 0
IsConsistent (value u) exception = ⊥
IsConsistent (value u) _ = Unit
IsConsistent (raised a) exception = Unit
IsConsistent (raised a) _ = ⊥

-- What is relied on of pilota: each part is appended with the length that is announced for it, a
-- message begins with the protocol's mark, and each part is read again whatever is behind it.
pub record IsProtocol {U A Y : Type 0} (kind : Protocol) (p : Pilota U A Y) : Type 0 where
  pub begin_bytes : TMessageIdentifier → Bytes
  pub body_bytes : Payload U A → Bytes
  pub end_bytes : Bytes
  pub begins : (i : TMessageIdentifier) → Begins kind (begin_bytes i)
  pub begin_len : (i : TMessageIdentifier) → length (begin_bytes i) ≡ p.message_begin_len i
  pub body_len : (v : Payload U A) → length (body_bytes v) ≡ p.len v
  pub end_len : length end_bytes ≡ p.message_end_len
  pub writes_begin :
      (i : TMessageIdentifier) (dst : Bytes)
      → p.write_message_begin i dst ≡ ok (dst ++ begin_bytes i)
  pub writes_body : (v : Payload U A) (dst : Bytes) → p.write v dst ≡ ok (dst ++ body_bytes v)
  pub writes_end : (dst : Bytes) → p.write_message_end dst ≡ ok (dst ++ end_bytes)
  pub reads_begin :
      (i : TMessageIdentifier) (rest : Bytes)
      → p.read_message_begin (begin_bytes i ++ rest) ≡ ok (i, rest)
  pub reads_value :
      (i : TMessageIdentifier) (u : U) (rest : Bytes)
      → p.read i (body_bytes (value u) ++ rest) ≡ ok (u, rest)
  pub reads_exception :
      (a : A) (rest : Bytes) → p.read_exception (body_bytes (raised a) ++ rest) ≡ ok (a, rest)
  pub reads_end : (rest : Bytes) → p.read_message_end (end_bytes ++ rest) ≡ ok rest

module _ {U A Y : Type 0} (kind : Protocol) (p : Pilota U A Y) (law : IsProtocol kind p) where
  message_bytes : ThriftMessage U A → Bytes
  message_bytes m = law.begin_bytes (ident_of m.meta) ++ (law.body_bytes m.payload ++ law.end_bytes)

  length-message_bytes : (m : ThriftMessage U A) → length (message_bytes m) ≡ message_size p m
  unfolding message_bytes message_size
  length-message_bytes m = omega (
    arith,
    length-append (law.begin_bytes (ident_of m.meta)) (law.body_bytes m.payload ++ law.end_bytes),
    length-append (law.body_bytes m.payload) law.end_bytes,
    law.begin_len (ident_of m.meta),
    law.body_len m.payload,
    law.end_len,
  )

  encode_message_lem :
      (m : ThriftMessage U A) (dst : Bytes) → encode_message p m dst ≡ ok (dst ++ message_bytes m)
  unfolding encode_message message_bytes
  encode_message_lem m dst =
      let begin = law.begin_bytes (ident_of m.meta) in
      let body = law.body_bytes m.payload in
      rw
        (
          law.writes_begin (ident_of m.meta) dst,
          law.writes_body m.payload (dst ++ begin),
          law.writes_end ((dst ++ begin) ++ body),
        )
        (ap ok (append_assoc (dst ++ begin) body law.end_bytes ∙ append_assoc dst begin _))

  read_payload_lem :
      (t : TMessageType) (i : TMessageIdentifier) (v : Payload U A) (rest : Bytes)
      → IsConsistent v t
      → read_payload p t i (law.body_bytes v ++ rest) ≡ ok (v, rest)
  unfolding read_payload to_raised to_value
  read_payload_lem exception i (value u) rest h = absurd h
  read_payload_lem call i (value u) rest h = rw (law.reads_value i u rest) refl
  read_payload_lem reply i (value u) rest h = rw (law.reads_value i u rest) refl
  read_payload_lem one_way i (value u) rest h = rw (law.reads_value i u rest) refl
  read_payload_lem exception i (raised a) rest h = rw (law.reads_exception a rest) refl
  read_payload_lem call i (raised a) rest h = absurd h
  read_payload_lem reply i (raised a) rest h = absurd h
  read_payload_lem one_way i (raised a) rest h = absurd h

  decode_message_lem :
      (m : ThriftMessage U A) (cx : Cx Extensions) (rest : Bytes)
      → IsConsistent m.payload m.meta.msg_type
      → decode_message p cx (message_bytes m ++ rest)
        ≡ ok (m, (handle_decoded_msg_ident (ident_of m.meta) cx, rest))
  unfolding decode_message message_bytes ident_of meta_of
  decode_message_lem m cx rest h =
      let i = ident_of m.meta in
      let behind = law.body_bytes m.payload ++ (law.end_bytes ++ rest) in
      rw
        (
          append_assoc (law.begin_bytes i) (law.body_bytes m.payload ++ law.end_bytes) rest,
          append_assoc (law.body_bytes m.payload) law.end_bytes rest,
          law.reads_begin i behind,
          read_payload_lem m.meta.msg_type i m.payload (law.end_bytes ++ rest) h,
          law.reads_end rest,
        )
        refl

-- The receiver's context afterwards.
unfoldable pub seen : {U A : Type 0} → Protocol → ThriftMessage U A → Cx Extensions → Cx Extensions
seen kind m cx = insert_protocol kind (handle_decoded_msg_ident (ident_of m.meta) cx)

Begins-IsThrift :
    (kind : Protocol) (bytes more : Bytes) → Begins kind bytes → IsThrift (bytes ++ more)
Begins-IsThrift binary bytes more (rest, e) = inl (rest ++ more, ap (λ b. b ++ more) e)
Begins-IsThrift apache_compact bytes more (b, (rest, e)) =
    inr (b, (rest ++ more, ap (λ b. b ++ more) e))
Begins-IsThrift fb_thrift_compact bytes more h = absurd h

module _ {U A Y : Type 0} (pilota : Protocol → Pilota U A Y) where
  decode-Begins :
      (kind : Protocol) (c : ThriftCodec) (cx : Cx Extensions) (bytes more : Bytes)
      → Begins kind bytes
      → decode pilota c cx (bytes ++ more)
        ≡ (decode_message (pilota kind) cx (bytes ++ more) >>= decoded pilota c kind)
  unfolding decode decode_as detect
  decode-Begins binary c cx bytes more (rest, e) = rw (e) refl
  decode-Begins apache_compact c cx bytes more (b, (rest, e)) = rw (e) refl
  decode-Begins fb_thrift_compact c cx bytes more h = absurd h

  encode_as_lem :
      (kind : Protocol) (law : IsProtocol kind (pilota kind)) (c : ThriftCodec) (dst : Bytes)
      (m : ThriftMessage U A)
      → encode_as pilota c dst m kind ≡ ok (c, dst ++ message_bytes kind (pilota kind) law m)
  unfolding encode_as
  encode_as_lem binary law c dst m = rw (encode_message_lem binary (pilota binary) law m dst) refl
  encode_as_lem apache_compact law c dst m =
      rw (encode_message_lem apache_compact (pilota apache_compact) law m dst) refl
  encode_as_lem fb_thrift_compact law c dst m = absurd (law.begins (ident_of m.meta))

  decode-message_bytes :
      (kind : Protocol) (law : IsProtocol kind (pilota kind)) (d : ThriftCodec) (cx : Cx Extensions)
      (m : ThriftMessage U A) (rest : Bytes)
      → IsConsistent m.payload m.meta.msg_type
      → decode pilota d cx (message_bytes kind (pilota kind) law m ++ rest)
        ≡ ok (some m, (d, (seen kind m cx, rest)))
  unfolding message_bytes decoded seen
  decode-message_bytes kind law d cx m rest h =
      let begin = law.begin_bytes (ident_of m.meta) in
      let behind = law.body_bytes m.payload ++ law.end_bytes in
      ap (decode pilota d cx) (append_assoc begin behind rest)
      ∙ decode-Begins kind d cx begin (behind ++ rest) (law.begins (ident_of m.meta))
      ∙ ap (λ b. decode_message (pilota kind) cx b >>= decoded pilota d kind)
          (sym (append_assoc begin behind rest))
      ∙ ap (λ r. r >>= decoded pilota d kind)
          (decode_message_lem kind (pilota kind) law m cx rest h)

module _ {U A Y : Type 0} (pilota pilota_async : Protocol → Pilota U A Y) where
  -- The codec as a frame is put around it.
  pub thrift_codec-Writes :
      (kind : Protocol) (c : ThriftCodec) (cx : Cx Extensions) (m : ThriftMessage U A)
      → IsProtocol kind (pilota kind)
      → protocol_of c cx ≡ kind
      → IsConsistent m.payload m.meta.msg_type
      → Writes
          (thrift_codec pilota pilota_async)
          (seen kind m)
          c
          cx
          m
          (message_size (pilota kind) m)
  unfolding thrift_codec encode message_bytes
  thrift_codec-Writes kind c cx m law chosen h = record {
    body = message_bytes kind (pilota kind) law m;
    after = c;
    length_same = length-message_bytes kind (pilota kind) law m;
    is_thrift = Begins-IsThrift kind _ _ (law.begins (ident_of m.meta));
    appends = λ dst. ap (encode_as pilota c dst m) chosen ∙ encode_as_lem pilota kind law c dst m;
    reads = λ d from rest. decode-message_bytes pilota kind law d from m rest h;
  }
