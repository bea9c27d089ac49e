-- ===== src/Framed.antt =====
-- volo-thrift/src/codec/default/framed.rs: the length in front of a message. An `i32` is the number
-- below 2 ^ 32 with its bits.
use volo.Base.{
  ℕ, ◌+◌, ◌*◌, ◌%◌, ◌^◌, Bool, true, false, ◌&&◌, ◌||◌, List, [], ◌∷◌, ◌++◌, Option, none, some,
  ltb, leb, ◌==◌, if◌then◌else◌,
}
use volo.Base.Bytes.{Bytes, be32, of_be32, split_at?}
use volo.TtHeader.{Role, client, server}
pub mod RoundTrip
mod Runs

-- What the codec reads and writes of the context, and what the codec inside does.
pub record Cx (T : Type 0) : Type 0 where
  pub role : Role
  pub has_framed : Bool
  pub within : T

pub data Failure (X : Type 0) : Type 0 where
  size_limit negative_size unexpected_eof : Failure X
  inner_failed : X → Failure X

pub data Result (X A : Type 0) : Type 0 where
  ok : A → Result X A
  failed : Failure X → Result X A

-- The codec inside: an encoder with its cached state, and a decoder with its own. It leaves the
-- context alone when it writes. A buffered reader is the bytes that it has not given out yet.
pub record Inner (T E D Msg X : Type 0) : Type 0 where
  pub size : E → Cx T → Msg → Result X (E × (ℕ × ℕ))
  pub encode : E → Cx T → Bytes → Msg → Result X (E × Bytes)
  pub decode : D → Cx T → Bytes → Result X (Option Msg × (D × (Cx T × Bytes)))
  pub decode_async : D → Cx T → Bytes → Result X (Option Msg × (D × (Cx T × Bytes)))

pub record FramedEncoder (E : Type 0) : Type 0 where
  pub inner : E
  pub inner_size : ℕ
  pub max_frame_size : ℕ

pub record FramedDecoder (D : Type 0) : Type 0 where
  pub inner : D
  pub max_frame_size : ℕ

abbrev pub default_max_frame_size : ℕ
default_max_frame_size = 16 * 1024 * 1024

-- The order of `i32` is that of the numbers with the sign bit flipped.
unfoldable pub signed : ℕ → ℕ
signed n = (n + 2 ^ 31) % 2 ^ 32

unfoldable pub check_framed_size : {X : Type 0} → ℕ → ℕ → Option (Failure X)
check_framed_size size max_frame_size =
    if ltb (signed max_frame_size) (signed size)
    then some size_limit
    else if ltb (signed size) (2 ^ 31)
    then some negative_size
    else none

unfoldable pub is_framed : Bytes → Bool
is_framed (a ∷ b ∷ c ∷ d ∷ e ∷ f ∷ rest) = (e == 128 && f == 1) || e == 130
is_framed _ = false

unfoldable pub is_client : Role → Bool
is_client client = true
is_client server = false

-- A server frames its answer if the request was framed.
unfoldable pub writes_frame : {T : Type 0} → Cx T → Bool
writes_frame cx = is_client cx.role || cx.has_framed

module _ {T E D Msg X : Type 0} (codec : Inner T E D Msg X) where
  unfoldable pub with_decoder :
      FramedDecoder D
      → Result X (Option Msg × (D × (Cx T × Bytes)))
      → Result X (Option Msg × (FramedDecoder D × (Cx T × Bytes)))
  with_decoder d (failed e) = failed e
  with_decoder d (ok (msg, (inner, rest))) = ok (msg, (record d { inner = inner }, rest))

  unfoldable pub decode_checked :
      FramedDecoder D
      → Cx T
      → Bytes
      → Option (Failure X)
      → Result X (Option Msg × (FramedDecoder D × (Cx T × Bytes)))
  decode_checked d cx bytes (some e) = failed e
  decode_checked d cx bytes none =
      with_decoder d (codec.decode d.inner (record cx { has_framed = true }) bytes)

  unfoldable pub decode_detected :
      FramedDecoder D
      → Cx T
      → Bytes
      → Bool
      → Result X (Option Msg × (FramedDecoder D × (Cx T × Bytes)))
  decode_detected d cx (a ∷ b ∷ c ∷ e ∷ bytes) true =
      decode_checked d cx bytes (check_framed_size (of_be32 a b c e) d.max_frame_size)
  decode_detected d cx bytes is_frame = with_decoder d (codec.decode d.inner cx bytes)

  -- `is_framed` is false of fewer bytes than it reads, which the code tests before.
  unfoldable pub decode :
      FramedDecoder D → Cx T → Bytes → Result X (Option Msg × (FramedDecoder D × (Cx T × Bytes)))
  decode d cx bytes = decode_detected d cx bytes (is_framed bytes)

  -- What is left of the buffer is dropped; the reader goes on behind it.
  unfoldable pub behind :
      Bytes
      → Result X (Option Msg × (FramedDecoder D × (Cx T × Bytes)))
      → Result X (Option Msg × (FramedDecoder D × (Cx T × Bytes)))
  behind reader (failed e) = failed e
  behind reader (ok (msg, (d, (cx, left)))) = ok (msg, (d, (cx, reader)))

  -- `read_exact` of so many bytes.
  unfoldable pub decode_exact :
      FramedDecoder D
      → Cx T
      → Option (Bytes × Bytes)
      → Result X (Option Msg × (FramedDecoder D × (Cx T × Bytes)))
  decode_exact d cx none = failed unexpected_eof
  decode_exact d cx (some (buffer, reader)) =
      behind reader (with_decoder d (codec.decode d.inner (record cx { has_framed = true }) buffer))

  unfoldable pub decode_async_checked :
      FramedDecoder D
      → Cx T
      → ℕ
      → Bytes
      → Option (Failure X)
      → Result X (Option Msg × (FramedDecoder D × (Cx T × Bytes)))
  decode_async_checked d cx size reader (some e) = failed e
  decode_async_checked d cx size reader none = decode_exact d cx (split_at? size reader)

  unfoldable pub decode_async_detected :
      FramedDecoder D
      → Cx T
      → Bytes
      → Bool
      → Result X (Option Msg × (FramedDecoder D × (Cx T × Bytes)))
  decode_async_detected d cx (a ∷ b ∷ c ∷ e ∷ reader) true =
      let size = of_be32 a b c e in
      decode_async_checked d cx size reader (check_framed_size size d.max_frame_size)
  decode_async_detected d cx reader is_frame = with_decoder d (codec.decode_async d.inner cx reader)

  unfoldable pub decode_async :
      FramedDecoder D → Cx T → Bytes → Result X (Option Msg × (FramedDecoder D × (Cx T × Bytes)))
  decode_async d cx reader = decode_async_detected d cx reader (is_framed reader)

  unfoldable pub with_encoder :
      FramedEncoder E → Result X (E × Bytes) → Result X (FramedEncoder E × Bytes)
  with_encoder c (failed e) = failed e
  with_encoder c (ok (inner, dst)) = ok (record c { inner = inner }, dst)

  unfoldable pub encode : FramedEncoder E → Cx T → Bytes → Msg → Result X (FramedEncoder E × Bytes)
  encode c cx dst msg =
      with_encoder c
        (codec.encode c.inner cx (if writes_frame cx then dst ++ be32 c.inner_size else dst) msg)

  unfoldable pub size_checked :
      FramedEncoder E → ℕ × ℕ → Option (Failure X) → Result X (FramedEncoder E × (ℕ × ℕ))
  size_checked c sizes (some e) = failed e
  size_checked c (real, malloc) none = ok (c, (real + 4, malloc + 4))

  unfoldable pub with_sizes :
      FramedEncoder E → Cx T → Result X (E × (ℕ × ℕ)) → Result X (FramedEncoder E × (ℕ × ℕ))
  with_sizes c cx (failed e) = failed e
  with_sizes c cx (ok (inner, (real, malloc))) =
      let c = record c { inner = inner; inner_size = real % 2 ^ 32 } in
      if writes_frame cx
      then size_checked c (real, malloc) (check_framed_size c.inner_size c.max_frame_size)
      else ok (c, (real, malloc))

  unfoldable pub size : FramedEncoder E → Cx T → Msg → Result X (FramedEncoder E × (ℕ × ℕ))
  size c cx msg = with_sizes c cx (codec.size c.inner cx msg)
