-- ===== src/TtHeader/Outer.antt =====
-- volo-thrift/src/codec/default/ttheader.rs: `TTHeaderEncoder` and `TTHeaderDecoder`, the header around
-- an inner codec. A buffered reader is the bytes that it has not given out yet; what the statistics
-- keep is left out.
pub mod Header
pub mod Request
use volo.Base.{
  ℕ, ◌+◌, ◌*◌, ◌^◌, Bool, true, false, ◌&&◌, ◌||◌, [], ◌∷◌, Option, none, some, ◌==◌, if◌then◌else◌,
}
use volo.Base.Bytes.{Bytes, of_be32, split_at?}
use volo.TtHeader.{Role, client, server, Cx, Externals}
use volo.TtHeader.Encode.{EncodeResult, encode as encode_header}
use volo.TtHeader.Size.{encode_size}
use volo.TtHeader.Decode.{Error}
use volo.TtHeader.Decode
use volo.TtHeader.Apply.{decode as decode_header}

-- The context: what the header reads and writes of it, metainfo, the extension `HasTTHeader`, and
-- what the inner codec uses of it.
pub record Context (A M T : Type 0) : Type 0 where
  pub cx : Cx A
  pub meta : M
  pub has_ttheader : Bool
  pub within : T

pub data Failure (X : Type 0) : Type 0 where
  header_error : Error → Failure X
  header_panicked header_stuck size_limit unexpected_eof : Failure X
  inner_failed : X → Failure X

pub data Result (X R : Type 0) : Type 0 where
  ok : R → Result X R
  failed : Failure X → Result X R

-- The codec inside. Its `decode` is given all bytes of a message, and its `decode_async` a reader.
pub record Inner (A M T E D Msg X : Type 0) : Type 0 where
  pub size : E → Context A M T → Msg → Result X (E × (ℕ × ℕ))
  pub encode : E → Context A M T → Bytes → Msg → Result X (E × Bytes)
  pub decode : D → Context A M T → Bytes → Result X (Option Msg × (D × (Context A M T × Bytes)))
  pub decode_async :
      D → Context A M T → Bytes → Result X (Option Msg × (D × (Context A M T × Bytes)))

pub record TtHeaderEncoder (E : Type 0) : Type 0 where
  pub inner : E
  pub inner_size : ℕ

pub record TtHeaderDecoder (D : Type 0) : Type 0 where
  pub inner : D

-- The code tests before that there are six bytes.
unfoldable pub is_ttheader : Bytes → Bool
is_ttheader (a ∷ b ∷ c ∷ d ∷ e ∷ f ∷ rest) = e == 0x10 && f == 0x00
is_ttheader _ = false

unfoldable pub is_client : Role → Bool
is_client client = true
is_client server = false

-- A server writes a header if the request had one.
unfoldable pub writes_header : {A M T : Type 0} → Context A M T → Bool
writes_header k = is_client k.cx.role || k.has_ttheader

module _ {A M T E D Msg X : Type 0} (ext : Externals A M) (codec : Inner A M T E D Msg X) where
  unfoldable pub with_encoder :
      TtHeaderEncoder E → Result X (E × Bytes) → Result X (TtHeaderEncoder E × Bytes)
  with_encoder c (failed e) = failed e
  with_encoder c (ok (inner, dst)) = ok (record c { inner = inner }, dst)

  unfoldable pub encode_behind :
      TtHeaderEncoder E → Context A M T → Msg → EncodeResult → Result X (TtHeaderEncoder E × Bytes)
  encode_behind c k msg EncodeResult.size_limit = failed size_limit
  encode_behind c k msg (EncodeResult.ok dst) = with_encoder c (codec.encode c.inner k dst msg)

  unfoldable pub encode :
      TtHeaderEncoder E → Context A M T → Bytes → Msg → Result X (TtHeaderEncoder E × Bytes)
  encode c k dst msg =
      if writes_header k
      then encode_behind c k msg (encode_header ext k.cx k.meta dst c.inner_size)
      else with_encoder c (codec.encode c.inner k dst msg)

  -- `encode_size` can leave a text in the context.
  unfoldable pub with_sizes :
      TtHeaderEncoder E
      → Context A M T
      → Result X (E × (ℕ × ℕ))
      → Result X (TtHeaderEncoder E × (Context A M T × (ℕ × ℕ)))
  with_sizes c k (failed e) = failed e
  with_sizes c k (ok (inner, (real_size, malloc_size))) =
      let c = record c { inner = inner; inner_size = real_size } in
      let header = encode_size ext k.cx k.meta in
      if writes_header k
      then ok (c, (record k { cx = header.1 }, (real_size + header.0, malloc_size + header.0)))
      else ok (c, (k, (real_size, malloc_size)))

  unfoldable pub size :
      TtHeaderEncoder E
      → Context A M T
      → Msg
      → Result X (TtHeaderEncoder E × (Context A M T × (ℕ × ℕ)))
  size c k msg = with_sizes c k (codec.size c.inner k msg)

  unfoldable pub with_decoder :
      Result X (Option Msg × (D × (Context A M T × Bytes)))
      → Result X (Option Msg × (TtHeaderDecoder D × (Context A M T × Bytes)))
  with_decoder (failed e) = failed e
  with_decoder (ok (msg, (inner, rest))) = ok (msg, (record { inner = inner }, rest))

  -- The inner codec, if the header could be read, with what is behind it.
  unfoldable pub decode_behind :
      TtHeaderDecoder D
      → Context A M T
      → Decode.Result Bytes
      → Result X (Option Msg × (TtHeaderDecoder D × (Context A M T × Bytes)))
  decode_behind d k (Decode.Result.ok rest) = with_decoder (codec.decode d.inner k rest)
  decode_behind d k (Decode.Result.err e) = failed (header_error e)
  decode_behind d k Decode.Result.panicked = failed header_panicked
  decode_behind d k Decode.Result.stuck = failed header_stuck

  unfoldable pub decode_framed :
      TtHeaderDecoder D
      → Context A M T
      → Bytes
      → Result X (Option Msg × (TtHeaderDecoder D × (Context A M T × Bytes)))
  decode_framed d k bytes =
      let r = decode_header ext k.cx k.meta bytes in
      decode_behind d (record k { cx = r.0; meta = r.1; has_ttheader = true }) r.2

  unfoldable pub decode_detected :
      TtHeaderDecoder D
      → Context A M T
      → Bytes
      → Bool
      → Result X (Option Msg × (TtHeaderDecoder D × (Context A M T × Bytes)))
  decode_detected d k (a ∷ b ∷ c ∷ e ∷ bytes) true = decode_framed d k bytes
  decode_detected d k bytes is_header = with_decoder (codec.decode d.inner k bytes)

  unfoldable pub decode :
      TtHeaderDecoder D
      → Context A M T
      → Bytes
      → Result X (Option Msg × (TtHeaderDecoder D × (Context A M T × Bytes)))
  decode d k bytes = decode_detected d k bytes (is_ttheader bytes)

  -- What is left of the buffer is dropped; the reader goes on behind it.
  unfoldable pub behind :
      Bytes
      → Result X (Option Msg × (TtHeaderDecoder D × (Context A M T × Bytes)))
      → Result X (Option Msg × (TtHeaderDecoder D × (Context A M T × Bytes)))
  behind reader (failed e) = failed e
  behind reader (ok (msg, (d, (k, left)))) = ok (msg, (d, (k, reader)))

  -- `read_exact` of so many bytes.
  unfoldable pub decode_exact :
      TtHeaderDecoder D
      → Context A M T
      → Option (Bytes × Bytes)
      → Result X (Option Msg × (TtHeaderDecoder D × (Context A M T × Bytes)))
  decode_exact d k none = failed unexpected_eof
  decode_exact d k (some (buffer, reader)) = behind reader (decode_framed d k buffer)

  unfoldable pub decode_async_detected :
      TtHeaderDecoder D
      → Context A M T
      → Bytes
      → Bool
      → Result X (Option Msg × (TtHeaderDecoder D × (Context A M T × Bytes)))
  decode_async_detected d k (a ∷ b ∷ c ∷ e ∷ reader) true =
      decode_exact d k (split_at? (of_be32 a b c e) reader)
  decode_async_detected d k reader is_header = with_decoder (codec.decode_async d.inner k reader)

  unfoldable pub decode_async :
      TtHeaderDecoder D
      → Context A M T
      → Bytes
      → Result X (Option Msg × (TtHeaderDecoder D × (Context A M T × Bytes)))
  decode_async d k reader = decode_async_detected d k reader (is_ttheader reader)
