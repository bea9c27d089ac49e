-- ===== src/Framed/Runs.antt =====
-- volo-thrift/src/codec/default/framed.rs: a frame around a message of three bytes.
use volo.Base.{
  ℕ, ◌^◌, ◌<◌, ◌≡◌, refl, arith, subst, [], ◌∷◌, ◌++◌, Option, none, some, inl, leb, ltb,
  if◌then◌else◌, true, false,
}
use volo.Base.Bytes.{Bytes}
use volo.TtHeader.{client, server}
use volo.Framed.{
  Cx, size_limit, negative_size, Result, ok, Inner, FramedEncoder, FramedDecoder,
  default_max_frame_size, check_framed_size, size, with_sizes, size_checked, signed, writes_frame,
  is_client,
}
use volo.Framed.RoundTrip.{Writes, IsFrame, decode-encode_framed, check_framed_size-exact}

abbrev read_number : Cx Unit → Bytes → Result Unit (Option ℕ × (Unit × (Cx Unit × Bytes)))
read_number cx (a ∷ b ∷ n ∷ rest) = ok (some n, (tt, (cx, rest)))
read_number cx bytes = ok (none, (tt, (cx, bytes)))

abbrev numbers : Inner Unit Unit Unit ℕ Unit
numbers = record {
  size = λ e cx msg. ok (tt, (3, 3));
  encode = λ e cx dst msg. ok (tt, dst ++ (128 ∷ 1 ∷ msg ∷ []));
  decode = λ d cx bytes. read_number cx bytes;
  decode_async = λ d cx bytes. read_number cx bytes;
}

-- The context afterwards.
abbrev same : Cx Unit → Cx Unit
same cx = cx

abbrev asking : Cx Unit
asking = record { role = client; has_framed = false; within = tt }

abbrev asked : Cx Unit
asked = record { role = server; has_framed = false; within = tt }

numbers_write : Writes numbers same tt asking 9 3
numbers_write = record {
  body = 128 ∷ 1 ∷ 9 ∷ [];
  after = tt;
  length_same = refl;
  is_thrift = inl (9 ∷ [], refl);
  appends = λ dst. refl;
  reads = λ d cx rest. refl;
}

numbers_law :
    (inner : Unit) (n m : ℕ)
    → numbers.size tt asking 9 ≡ ok (inner, (n, m))
    → (n < 2 ^ 32) × Writes numbers same inner asking 9 n
numbers_law inner n m h =
    let three : 3 ≡ n = cc in
    (omega (arith, three), subst (Writes numbers same inner asking 9) three numbers_write)

abbrev fresh : FramedEncoder Unit
fresh = record { inner = tt; inner_size = 0; max_frame_size = default_max_frame_size }

abbrev sized : FramedEncoder Unit
sized = record { inner = tt; inner_size = 3; max_frame_size = default_max_frame_size }

abbrev reader : FramedDecoder Unit
reader = record { inner = tt; max_frame_size = default_max_frame_size }

asking_frames : writes_frame asking ≡ true
unfolding writes_frame is_client
asking_frames = refl

numbers-sized : size numbers fresh asking 9 ≡ ok (sized, (7, 7))
unfolding size with_sizes size_checked writes_frame is_client check_framed_size signed
numbers-sized = refl

decode-encode_framed_example :
    IsFrame numbers same sized asking 9 7 × (sized.max_frame_size ≡ fresh.max_frame_size)
decode-encode_framed_example =
    decode-encode_framed numbers same fresh sized asking 9 7 7 asking_frames numbers_law
      numbers-sized

check_framed_size-exact_example : check_framed_size {X = Unit} 17000000 default_max_frame_size ≡ (
    if leb 17000000 default_max_frame_size
    then none
    else if ltb 17000000 (2 ^ 31)
    then some size_limit
    else some negative_size)
check_framed_size-exact_example =
    check_framed_size-exact 17000000 default_max_frame_size (omega arith) (omega arith)
