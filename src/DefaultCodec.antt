-- ===== src/DefaultCodec.antt =====
-- volo-thrift/src/codec/default/mod.rs: the default codec, a TTHeader around a frame around a message,
-- over a connection.
pub mod Frame
pub mod Call
mod Runs
use volo.Base.{ℕ, Bool, [], ◌∷◌, Option, none, some}
use volo.Base.Bytes.{Bytes}
use volo.TtHeader.{Cx, Externals}
use volo.TtHeader.Outer
use volo.TtHeader.Outer.{Context, TtHeaderEncoder, TtHeaderDecoder, encode, size, decode_async}
use volo.Framed
use volo.Framed.{FramedEncoder, FramedDecoder}
use volo.Thrift.{
  Protocol, ThriftMessage, ThriftError, Pilota, Extensions, ThriftCodec, thrift_codec,
}

-- What the frame and the message use of the context: the extension `HasFramed`, and theirs.
pub record Framing : Type 0 where
  pub has_framed : Bool
  pub thrift : Extensions

module _ {A M : Type 0} where
  unfoldable pub frame_cx : Context A M Framing → Framed.Cx Extensions
  frame_cx k = record {
    role = k.cx.role;
    has_framed = k.within.has_framed;
    within = k.within.thrift;
  }

  unfoldable pub after_frame : Context A M Framing → Framed.Cx Extensions → Context A M Framing
  after_frame k f = record k { within = record { has_framed = f.has_framed; thrift = f.within } }

unfoldable pub lift : {R X : Type 0} → Framed.Result X R → Outer.Result (Framed.Failure X) R
lift (Framed.Result.ok a) = Outer.Result.ok a
lift (Framed.Result.failed e) = Outer.Result.failed (Outer.Failure.inner_failed e)

unfoldable pub lift_read :
    {A M Msg D X : Type 0}
    → Context A M Framing
    → Framed.Result X (Option Msg × (D × (Framed.Cx Extensions × Bytes)))
    → Outer.Result (Framed.Failure X) (Option Msg × (D × (Context A M Framing × Bytes)))
lift_read k (Framed.Result.ok (msg, (d, (f, rest)))) =
    Outer.Result.ok (msg, (d, (after_frame k f, rest)))
lift_read k (Framed.Result.failed e) = Outer.Result.failed (Outer.Failure.inner_failed e)

-- The connection's writer: all bytes and a flush, or an error.
pub record Writer (W : Type 0) : Type 0 where
  pub write_all : W → Bytes → Option W

pub data WriteResult (X R : Type 0) : Type 0 where
  written : R → WriteResult X R
  encode_failed : Outer.Failure X → WriteResult X R
  write_failed : WriteResult X R

pub record DefaultEncoder (W : Type 0) : Type 0 where
  pub encoder : TtHeaderEncoder (FramedEncoder ThriftCodec)
  pub writer : W

pub record DefaultDecoder : Type 0 where
  pub decoder : TtHeaderDecoder (FramedDecoder ThriftCodec)
  pub reader : Bytes

module _ {A M U V Y : Type 0} (ext : Externals A M)
    (pilota pilota_async : Protocol → Pilota U V Y) where
  -- The frame around the message, as the codec inside a TTHeader.
  unfoldable pub framed :
      Outer.Inner A M Framing
        (FramedEncoder ThriftCodec)
        (FramedDecoder ThriftCodec)
        (ThriftMessage U V)
        (Framed.Failure (ThriftError Y))
  framed = record {
    size = λ c k msg. lift (Framed.size (thrift_codec pilota pilota_async) c (frame_cx k) msg);
    encode = λ c k dst msg.
        lift (Framed.encode (thrift_codec pilota pilota_async) c (frame_cx k) dst msg);
    decode = λ d k bytes.
        lift_read k (Framed.decode (thrift_codec pilota pilota_async) d (frame_cx k) bytes);
    decode_async = λ d k reader.
        lift_read k (Framed.decode_async (thrift_codec pilota pilota_async) d (frame_cx k) reader);
  }

  module _ {W : Type 0} (out : Writer W) where
    unfoldable pub write_bytes :
        TtHeaderEncoder (FramedEncoder ThriftCodec)
        → W
        → Context A M Framing
        → Option W
        → WriteResult (Framed.Failure (ThriftError Y)) (DefaultEncoder W × Context A M Framing)
    write_bytes encoder writer k none = write_failed
    write_bytes encoder writer k (some after) =
        written (record { encoder = encoder; writer = after }, k)

    unfoldable pub write_encoded :
        W
        → Context A M Framing
        → Outer.Result
            (Framed.Failure (ThriftError Y))
            (TtHeaderEncoder (FramedEncoder ThriftCodec) × Bytes)
        → WriteResult (Framed.Failure (ThriftError Y)) (DefaultEncoder W × Context A M Framing)
    write_encoded writer k (Outer.Result.failed e) = encode_failed e
    write_encoded writer k (Outer.Result.ok (encoder, linked_bytes)) =
        write_bytes encoder writer k (out.write_all writer linked_bytes)

    -- The buffer is reset before a message is encoded.
    unfoldable pub encode_sized :
        W
        → ThriftMessage U V
        → Outer.Result
            (Framed.Failure (ThriftError Y))
            (TtHeaderEncoder (FramedEncoder ThriftCodec) × (Context A M Framing × (ℕ × ℕ)))
        → WriteResult (Framed.Failure (ThriftError Y)) (DefaultEncoder W × Context A M Framing)
    encode_sized writer msg (Outer.Result.failed e) = encode_failed e
    encode_sized writer msg (Outer.Result.ok (encoder, (k, (real_size, malloc_size)))) =
        write_encoded writer k (encode ext framed encoder k [] msg)

    unfoldable pub default_encode :
        DefaultEncoder W
        → Context A M Framing
        → ThriftMessage U V
        → WriteResult (Framed.Failure (ThriftError Y)) (DefaultEncoder W × Context A M Framing)
    default_encode c k msg = encode_sized c.writer msg (size ext framed c.encoder k msg)

  unfoldable pub with_reader :
      Outer.Result (Framed.Failure (ThriftError Y)) (
        Option (ThriftMessage U V)
        × (TtHeaderDecoder (FramedDecoder ThriftCodec) × (Context A M Framing × Bytes)))
      → Outer.Result
          (Framed.Failure (ThriftError Y))
          (Option (ThriftMessage U V) × (DefaultDecoder × Context A M Framing))
  with_reader (Outer.Result.failed e) = Outer.Result.failed e
  with_reader (Outer.Result.ok (msg, (d, (k, reader)))) =
      Outer.Result.ok (msg, (record { decoder = d; reader = reader }, k))

  unfoldable pub decode_from :
      DefaultDecoder
      → Context A M Framing
      → Bytes
      → Outer.Result
          (Framed.Failure (ThriftError Y))
          (Option (ThriftMessage U V) × (DefaultDecoder × Context A M Framing))
  decode_from d k [] = Outer.Result.ok (none, (d, k))
  decode_from d k (byte ∷ reader) =
      with_reader (decode_async ext framed d.decoder k (byte ∷ reader))

  -- No message at the end of the connection.
  unfoldable pub default_decode :
      DefaultDecoder
      → Context A M Framing
      → Outer.Result
          (Framed.Failure (ThriftError Y))
          (Option (ThriftMessage U V) × (DefaultDecoder × Context A M Framing))
  default_decode d k = decode_from d k d.reader
