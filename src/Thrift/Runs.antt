-- ===== src/Thrift/Runs.antt =====
-- volo-thrift/src/codec/default/thrift.rs: a protocol of one number to a message.
use volo.Base.{
  ℕ, ◌+◌, ◌≡◌, refl, ap, ◌∙◌, [], ◌∷◌, ◌++◌, Option, none, some, arith, ◌==◌, if◌then◌else◌, length,
}
use volo.Base.Bytes.{Bytes, split_at?, split_at?-append}
use volo.Framed.{Result, ok, failed, inner_failed}
use volo.Thrift.{
  binary, TMessageType, call, reply, exception, one_way, TMessageIdentifier, Payload, value, raised,
  ThriftError, pilota_error, Pilota,
}
use volo.Thrift.RoundTrip.{IsProtocol}

unfoldable pub type_code : TMessageType → ℕ
type_code call = 1
type_code reply = 2
type_code exception = 3
type_code one_way = 4

unfoldable pub type_of : ℕ → TMessageType
type_of n = if n == 1 then call else if n == 2 then reply else if n == 3 then exception else one_way

abbrev pub number : Payload ℕ ℕ → ℕ
number (value n) = n
number (raised n) = n

abbrev pub named :
    ℕ → ℕ → Option (Bytes × Bytes) → Result (ThriftError Unit) (TMessageIdentifier × Bytes)
named t n none = failed (inner_failed (pilota_error tt))
named t n (some (name, rest)) =
    ok (record { name = name; message_type = type_of t; sequence_number = n }, rest)

abbrev pub read_ident : Bytes → Result (ThriftError Unit) (TMessageIdentifier × Bytes)
read_ident (a ∷ b ∷ t ∷ n ∷ len ∷ rest) = named t n (split_at? len rest)
read_ident _ = failed (inner_failed (pilota_error tt))

abbrev pub read_number : Bytes → Result (ThriftError Unit) (ℕ × Bytes)
read_number (n ∷ rest) = ok (n, rest)
read_number [] = failed (inner_failed (pilota_error tt))

abbrev pub ident_bytes : TMessageIdentifier → Bytes
ident_bytes i =
    128 ∷ (1 ∷ (type_code i.message_type ∷ (i.sequence_number ∷ (length i.name ∷ i.name))))

abbrev pub numbers : Pilota ℕ ℕ Unit
numbers = record {
  write_message_begin = λ i dst. ok (dst ++ ident_bytes i);
  write_message_end = λ dst. ok (dst ++ []);
  write = λ v dst. ok (dst ++ (number v ∷ []));
  read_message_begin = read_ident;
  read_message_end = λ src. ok src;
  read = λ i src. read_number src;
  read_exception = λ src. read_number src;
  message_begin_len = λ i. 5 + length i.name;
  message_end_len = 0;
  len = λ v. 1;
  zero_copy_len = λ v. 0;
}

type_of-type_code : (t : TMessageType) → type_of (type_code t) ≡ t
unfolding type_of type_code
type_of-type_code t = ground arith

pub numbers-IsProtocol : IsProtocol binary numbers
numbers-IsProtocol = record {
  begin_bytes = ident_bytes;
  body_bytes = λ v. number v ∷ [];
  end_bytes = [];
  begins = λ i. (type_code i.message_type ∷ (i.sequence_number ∷ (length i.name ∷ i.name)), refl);
  begin_len = λ i. omega arith;
  body_len = λ v. refl;
  end_len = refl;
  writes_begin = λ i dst. refl;
  writes_body = λ v dst. refl;
  writes_end = λ dst. refl;
  reads_begin = λ i rest.
      ap (named (type_code i.message_type) i.sequence_number) (split_at?-append i.name rest)
      ∙ ap
          (λ t.
            ok (
              record { name = i.name; message_type = t; sequence_number = i.sequence_number },
              rest,
            ))
          (type_of-type_code i.message_type);
  reads_value = λ i u rest. refl;
  reads_exception = λ a rest. refl;
  reads_end = λ rest. refl;
}
