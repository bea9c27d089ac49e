-- ===== src/Grpc/Frames.antt =====
-- volo-grpc/src/codec/encode.rs: the frames of a stream of messages. The serializer, the codecs of
-- the compression and the nodes of a linked buffer are those of other packages.
pub mod Receive
pub mod Stream
pub mod RoundTrip
use volo.Base.{
  ℕ, ◌+◌, ◌-◌, ◌^◌, ◌<◌, Bool, true, false, List, [], ◌∷◌, ◌++◌, Option, none, some, ltb, ◌==◌,
  if◌then◌else◌, length,
}
use volo.Base.Bytes.{Bytes, be32, concat}

-- A serializer writes to the end of the buffer, and may link further nodes behind it.
pub record Codec (T Z : Type 0) : Type 0 where
  pub encode_message : T → Option (Bytes × List Bytes)
  pub decode_message : Bytes → Option T
  pub compress : Z → Bytes → Option Bytes
  pub decompress : Z → Bytes → Option Bytes

-- `inner` is a status that the source or the body gives; the other errors are named for their texts.
pub data Failure (S : Type 0) : Type 0 where
  inner : S → Failure S
  error_encoding error_compressing no_encoding error_decompressing error_decoding : Failure S
  invalid_flag : ℕ → Failure S
  unexpected_eof : Failure S

-- What `source` gives, and what the stream yields. `broken` is the failed `assert!`.
pub data Item (T S : Type 0) : Type 0 where
  message : T → Item T S
  status : S → Item T S

pub data Output (S : Type 0) : Type 0 where
  frame : Bytes → Output S
  error : Failure S → Output S
  broken : Output S

unfoldable pub frames : {S : Type 0} → List Bytes → List (Output S) → List (Output S)
frames [] rest = rest
frames ([] ∷ nodes) rest = frames nodes rest
frames ((b ∷ bytes) ∷ nodes) rest = frame (b ∷ bytes) ∷ frames nodes rest

-- The first node starts with the prefix, which is filled in at the end.
unfoldable pub send_nodes :
    {S : Type 0} → ℕ → Bytes × List Bytes → List (Output S) → List (Output S)
send_nodes flag (head, nodes) rest =
    let len = length (head ++ concat nodes) in
    if ltb len (2 ^ 32) then frames ((flag ∷ (be32 len ++ head)) ∷ nodes) rest else broken ∷ []

-- An error of the serializer or of the compression ends the stream.
unfoldable pub send_compressed : {S : Type 0} → Option Bytes → List (Output S) → List (Output S)
send_compressed none rest = error error_compressing ∷ []
send_compressed (some bytes) rest = send_nodes 1 (bytes, []) rest

unfoldable pub send_plain :
    {S : Type 0} → Option (Bytes × List Bytes) → List (Output S) → List (Output S)
send_plain none rest = error error_encoding ∷ []
send_plain (some nodes) rest = send_nodes 0 nodes rest

module _ {T Z S : Type 0} (codec : Codec T Z) where
  unfoldable pub send_encoded : Z → Option (Bytes × List Bytes) → List (Output S) → List (Output S)
  send_encoded config none rest = error error_encoding ∷ []
  send_encoded config (some (head, nodes)) rest =
      send_compressed (codec.compress config (head ++ concat nodes)) rest

  unfoldable pub send : Option Z → T → List (Output S) → List (Output S)
  send none item rest = send_plain (codec.encode_message item) rest
  send (some config) item rest = send_encoded config (codec.encode_message item) rest

  unfoldable pub encode : Option Z → List (Item T S) → List (Output S)
  encode compression_encoding [] = []
  encode compression_encoding (message item ∷ source) =
      send compression_encoding item (encode compression_encoding source)
  encode compression_encoding (status s ∷ source) =
      error (inner s) ∷ encode compression_encoding source
