-- ===== src/Thrift.antt =====
-- volo-thrift/src/codec/default/thrift.rs: the protocol of a message, and volo-thrift/src/message_wrapper.rs:
-- the message. pilota's protocols are the record `Pilota`.
pub mod RoundTrip
pub mod Messages
pub mod Runs
use volo.Base.{
  ℕ, ◌+◌, Bool, true, false, ◌||◌, List, [], ◌∷◌, Option, none, some, ◌==◌, if◌then◌else◌,
}
use volo.Base.Bytes.{Bytes}
use volo.TtHeader.{Role, client, server}
use volo.TtHeader.Decode.{sub_usize}
use volo.Framed.{Cx, Failure, inner_failed, Result, ok, failed, Inner}

pub data Protocol : Type 0 where
  binary apache_compact fb_thrift_compact : Protocol

pub data TMessageType : Type 0 where
  call reply exception one_way : TMessageType

pub record TMessageIdentifier : Type 0 where
  pub name : Bytes
  pub message_type : TMessageType
  pub sequence_number : ℕ

pub record MessageMeta : Type 0 where
  pub msg_type : TMessageType
  pub method : Bytes
  pub seq_id : ℕ

-- `Ok` or `Err` of the field `data`.
pub data Payload (U A : Type 0) : Type 0 where
  value : U → Payload U A
  raised : A → Payload U A

pub record ThriftMessage (U A : Type 0) : Type 0 where
  pub payload : Payload U A
  pub meta : MessageMeta

pub data ThriftError (Y : Type 0) : Type 0 where
  not_enough_bytes unknown_protocol not_implemented : ThriftError Y
  pilota_error : Y → ThriftError Y

infixl 5 ◌>>=◌
abbrev pub ◌>>=◌ : {X A B : Type 0} → Result X A → (A → Result X B) → Result X B
ok a >>= f = f a
failed e >>= f = failed e

-- A protocol of pilota over bytes. `write` and `read` are the `EntryMessage` of the user's type.
pub record Pilota (U A Y : Type 0) : Type 0 where
  pub write_message_begin : TMessageIdentifier → Bytes → Result (ThriftError Y) Bytes
  pub write_message_end : Bytes → Result (ThriftError Y) Bytes
  pub write : Payload U A → Bytes → Result (ThriftError Y) Bytes
  pub read_message_begin : Bytes → Result (ThriftError Y) (TMessageIdentifier × Bytes)
  pub read_message_end : Bytes → Result (ThriftError Y) Bytes
  pub read : TMessageIdentifier → Bytes → Result (ThriftError Y) (U × Bytes)
  pub read_exception : Bytes → Result (ThriftError Y) (A × Bytes)
  pub message_begin_len : TMessageIdentifier → ℕ
  pub message_end_len : ℕ
  pub len : Payload U A → ℕ
  pub zero_copy_len : Payload U A → ℕ

-- The extensions `ProtocolBinary` and `ProtocolApacheCompact`, and what a server's context keeps of
-- the identifier.
pub record Extensions : Type 0 where
  pub has_binary : Bool
  pub has_compact : Bool
  pub ident : Option TMessageIdentifier

unfoldable pub ident_of : MessageMeta → TMessageIdentifier
ident_of m = record { name = m.method; message_type = m.msg_type; sequence_number = m.seq_id }

unfoldable pub meta_of : TMessageIdentifier → MessageMeta
meta_of i = record { msg_type = i.message_type; method = i.name; seq_id = i.sequence_number }

-- Only a server's context keeps it.
unfoldable pub handle_ident : Role → TMessageIdentifier → Extensions → Extensions
handle_ident client i x = x
handle_ident server i x = record x { ident = some i }

unfoldable pub handle_decoded_msg_ident : TMessageIdentifier → Cx Extensions → Cx Extensions
handle_decoded_msg_ident i cx = record cx { within = handle_ident cx.role i cx.within }

module _ {U A Y : Type 0} (p : Pilota U A Y) where
  unfoldable pub message_size : ThriftMessage U A → ℕ
  message_size m = p.message_begin_len (ident_of m.meta) + p.len m.payload + p.message_end_len

  unfoldable pub encode_message : ThriftMessage U A → Bytes → Result (ThriftError Y) Bytes
  encode_message m dst = do
    dst ← p.write_message_begin (ident_of m.meta) dst
    dst ← p.write m.payload dst
    p.write_message_end dst

  unfoldable pub to_raised : A × Bytes → Result (ThriftError Y) (Payload U A × Bytes)
  to_raised (a, src) = ok (raised a, src)

  unfoldable pub to_value : U × Bytes → Result (ThriftError Y) (Payload U A × Bytes)
  to_value (u, src) = ok (value u, src)

  unfoldable pub read_payload :
      TMessageType → TMessageIdentifier → Bytes → Result (ThriftError Y) (Payload U A × Bytes)
  read_payload exception i src = p.read_exception src >>= to_raised
  read_payload _ i src = p.read i src >>= to_value

  unfoldable pub decode_message :
      Cx Extensions → Bytes → Result (ThriftError Y) (ThriftMessage U A × (Cx Extensions × Bytes))
  decode_message cx src = do
    (i, src) ← p.read_message_begin src
    (payload, src) ← read_payload i.message_type i src
    src ← p.read_message_end src
    ok (record { payload = payload; meta = meta_of i }, (handle_decoded_msg_ident i cx, src))

unfoldable pub detect : ℕ → Option Protocol
detect first =
    if first == 128 || first == 0
    then some binary
    else if first == 130
    then some apache_compact
    else none

pub record ThriftCodec : Type 0 where
  pub protocol : Protocol

-- What the decoder has seen goes before what the codec was made with.
unfoldable pub protocol_of : ThriftCodec → Cx Extensions → Protocol
protocol_of c cx =
    if cx.within.has_binary
    then binary
    else if cx.within.has_compact
    then apache_compact
    else c.protocol

unfoldable pub insert_protocol : Protocol → Cx Extensions → Cx Extensions
insert_protocol binary cx = record cx { within = record cx.within { has_binary = true } }
insert_protocol apache_compact cx = record cx { within = record cx.within { has_compact = true } }
insert_protocol fb_thrift_compact cx = cx

module _ {U A Y : Type 0} (pilota : Protocol → Pilota U A Y) where
  unfoldable pub decoded :
      ThriftCodec
      → Protocol
      → ThriftMessage U A × (Cx Extensions × Bytes)
      → Result
          (ThriftError Y)
          (Option (ThriftMessage U A) × (ThriftCodec × (Cx Extensions × Bytes)))
  decoded c protocol (m, (cx, src)) = ok (some m, (c, (insert_protocol protocol cx, src)))

  unfoldable pub decode_as :
      ThriftCodec
      → Cx Extensions
      → Bytes
      → Option Protocol
      → Result
          (ThriftError Y)
          (Option (ThriftMessage U A) × (ThriftCodec × (Cx Extensions × Bytes)))
  decode_as c cx src none = failed (inner_failed unknown_protocol)
  decode_as c cx src (some fb_thrift_compact) = failed (inner_failed not_implemented)
  decode_as c cx src (some protocol) =
      decode_message (pilota protocol) cx src >>= decoded c protocol

  unfoldable pub decode :
      ThriftCodec
      → Cx Extensions
      → Bytes
      → Result
          (ThriftError Y)
          (Option (ThriftMessage U A) × (ThriftCodec × (Cx Extensions × Bytes)))
  decode c cx [] = failed (inner_failed not_enough_bytes)
  decode c cx (first ∷ rest) = decode_as c cx (first ∷ rest) (detect first)

  unfoldable pub encode_as :
      ThriftCodec
      → Bytes
      → ThriftMessage U A
      → Protocol
      → Result (ThriftError Y) (ThriftCodec × Bytes)
  encode_as c dst m fb_thrift_compact = failed (inner_failed not_implemented)
  encode_as c dst m protocol = encode_message (pilota protocol) m dst >>= λ dst. ok (c, dst)

  unfoldable pub encode :
      ThriftCodec
      → Cx Extensions
      → Bytes
      → ThriftMessage U A
      → Result (ThriftError Y) (ThriftCodec × Bytes)
  encode c cx dst m = encode_as c dst m (protocol_of c cx)

  unfoldable pub size_as :
      ThriftCodec → ThriftMessage U A → Protocol → Result (ThriftError Y) (ThriftCodec × (ℕ × ℕ))
  size_as c m fb_thrift_compact = failed (inner_failed not_implemented)
  size_as c m protocol =
      let real_size = message_size (pilota protocol) m in
      ok (c, (real_size, sub_usize real_size ((pilota protocol).zero_copy_len m.payload)))

  unfoldable pub size :
      ThriftCodec
      → Cx Extensions
      → ThriftMessage U A
      → Result (ThriftError Y) (ThriftCodec × (ℕ × ℕ))
  size c cx m = size_as c m (protocol_of c cx)

module _ {U A Y : Type 0} (pilota pilota_async : Protocol → Pilota U A Y) where
  -- From a buffered reader, which is the bytes that it has not given out yet, by pilota's
  -- protocols that read from it.
  unfoldable pub decode_async :
      ThriftCodec
      → Cx Extensions
      → Bytes
      → Result
          (ThriftError Y)
          (Option (ThriftMessage U A) × (ThriftCodec × (Cx Extensions × Bytes)))
  decode_async c cx [] = failed (inner_failed not_enough_bytes)
  decode_async c cx (first ∷ rest) = decode_as pilota_async c cx (first ∷ rest) (detect first)

  -- As the codec that another one stands around.
  unfoldable pub thrift_codec :
      Inner Extensions ThriftCodec ThriftCodec (ThriftMessage U A) (ThriftError Y)
  thrift_codec = record {
    size = size pilota;
    encode = encode pilota;
    decode = decode pilota;
    decode_async = decode_async;
  }
