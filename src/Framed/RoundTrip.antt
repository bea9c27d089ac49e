-- ===== src/Framed/RoundTrip.antt =====
-- volo-thrift/src/codec/default/framed.rs: a frame that is written, and read again.
use volo.Base.{
  ℕ, ◌+◌, ◌%◌, ◌^◌, ◌<◌, ◌≡◌, refl, sym, ◌∙◌, ap, true, ◌⊎◌, inl, inr, ◌∷◌, ◌++◌, Option, none,
  some, arith, subst, if◌then◌else◌, leb, ltb, length, append_assoc,
}
use volo.Base.Bytes.{Bytes, be32, of_be32-be32}
use volo.Framed.{
  signed, Cx, Failure, size_limit, negative_size, Result, ok, failed, Inner, FramedEncoder,
  FramedDecoder, check_framed_size, is_framed, writes_frame, with_decoder, decode_checked,
  decode_detected, decode, with_encoder, encode, size_checked, with_sizes, size,
}

-- A message that begins as one of the binary or the compact protocol does.
abbrev pub IsThrift : Bytes → Type 0
IsThrift body =
    ((more : Bytes) × (body ≡ 128 ∷ 1 ∷ more))
    ⊎ ((b : ℕ) × ((more : Bytes) × (body ≡ 130 ∷ b ∷ more)))

IsThrift-is_framed :
    (a b c d : ℕ) (body rest : Bytes)
    → IsThrift body
    → is_framed (a ∷ b ∷ c ∷ d ∷ (body ++ rest)) ≡ true
unfolding is_framed
IsThrift-is_framed a b c d body rest (inl (more, e)) = rw (e) refl
IsThrift-is_framed a b c d body rest (inr (x, (more, e))) = rw (e) refl

module _ {T E D Msg X : Type 0} (codec : Inner T E D Msg X) where
  -- The inner codec appends as many bytes as it has announced, and reads them again, which makes
  -- `seen` of the context.
  pub record Writes (seen : Cx T → Cx T) (inner : E) (cx : Cx T) (msg : Msg) (n : ℕ) : Type 0 where
    pub body : Bytes
    pub after : E
    pub length_same : length body ≡ n
    pub is_thrift : IsThrift body
    pub appends : (dst : Bytes) → codec.encode inner cx dst msg ≡ ok (after, dst ++ body)
    pub reads :
        (d : D) (cx : Cx T) (rest : Bytes)
        → codec.decode d cx (body ++ rest) ≡ ok (some msg, (d, (seen cx, rest)))

  -- What is written is one frame, of the announced length, from which the message is read.
  pub record IsFrame (seen : Cx T → Cx T) (c : FramedEncoder E) (cx : Cx T) (msg : Msg) (real : ℕ)
      : Type 0 where
    pub frame : Bytes
    pub after : FramedEncoder E
    pub length_same : length frame ≡ real
    pub written : (dst : Bytes) → encode codec c cx dst msg ≡ ok (after, dst ++ frame)
    pub read :
        (d : FramedDecoder D) (from : Cx T) (rest : Bytes)
        → d.max_frame_size ≡ c.max_frame_size
        → decode codec d from (frame ++ rest)
          ≡ ok (some msg, (d, (seen (record from { has_framed = true }), rest)))

  write-IsFrame :
      (seen : Cx T → Cx T) (c : FramedEncoder E) (cx : Cx T) (msg : Msg)
      → writes_frame cx ≡ true
      → c.inner_size < 2 ^ 32
      → check_framed_size {X = X} c.inner_size c.max_frame_size ≡ none
      → Writes seen c.inner cx msg c.inner_size
      → IsFrame seen c cx msg (c.inner_size + 4)
  unfolding encode with_encoder decode decode_detected decode_checked with_decoder
  write-IsFrame seen c cx msg framed small checked w = record {
    frame = be32 c.inner_size ++ w.body;
    after = record c { inner = w.after };
    length_same = omega (arith, w.length_same);
    written = λ dst.
        rw (framed, w.appends (dst ++ be32 c.inner_size))
          (ap (λ t. ok (record c { inner = w.after }, t))
            (append_assoc dst (be32 c.inner_size) w.body));
    read = λ d from rest max.
        rw
          (
            IsThrift-is_framed _ _ _ _ w.body rest w.is_thrift,
            of_be32-be32 c.inner_size small,
            max,
            checked,
            w.reads d.inner (record from { has_framed = true }) rest,
          )
          refl;
  }

  sized-IsFrame :
      (seen : Cx T → Cx T) (c after : FramedEncoder E) (cx : Cx T) (msg : Msg) (real malloc n m : ℕ)
      (o : Option (Failure X))
      → writes_frame cx ≡ true
      → n < 2 ^ 32
      → c.inner_size ≡ n
      → check_framed_size c.inner_size c.max_frame_size ≡ o
      → Writes seen c.inner cx msg n
      → size_checked codec c (n, m) o ≡ ok (after, (real, malloc))
      → IsFrame seen after cx msg real × (c ≡ after)
  unfolding size_checked
  sized-IsFrame seen c after cx msg real malloc n m (some e) framed small same h w sized = absurd cc
  sized-IsFrame seen c after cx msg real malloc n m none framed small same h w sized =
      let c_same : c ≡ after = cc in
      let real_same : n + 4 ≡ real = cc in
      let written = subst (Writes seen c.inner cx msg) (sym same) w in
      let small_size : c.inner_size < 2 ^ 32 = omega (arith, same) in
      let f = write-IsFrame seen c cx msg framed small_size h written in
      (
        subst (λ a. IsFrame seen a cx msg real) c_same
            (subst (IsFrame seen c cx msg) (ap (λ k. k + 4) same ∙ real_same) f),
        c_same,
      )

  size-IsFrame :
      (seen : Cx T → Cx T) (c after : FramedEncoder E) (cx : Cx T) (msg : Msg) (real malloc : ℕ)
      (r : Result X (E × (ℕ × ℕ)))
      → writes_frame cx ≡ true
      → ((inner : E) (n m : ℕ) → r ≡ ok (inner, (n, m)) → (n < 2 ^ 32) × Writes seen inner cx msg n)
      → with_sizes codec c cx r ≡ ok (after, (real, malloc))
      → IsFrame seen after cx msg real × (after.max_frame_size ≡ c.max_frame_size)
  unfolding with_sizes
  size-IsFrame seen c after cx msg real malloc (failed e) framed law sized = absurd cc
  size-IsFrame seen c after cx msg real malloc (ok (inner, (n, m))) framed law sized =
      let (small, w) = law inner n m refl in
      let wrapped : n % 2 ^ 32 ≡ n = omega (arith, small) in
      let sent : FramedEncoder E = record c { inner = inner; inner_size = n % 2 ^ 32 } in
      let taken =
        sym (
          ap
            (λ b.
              if b
              then size_checked codec sent (n, m)
                  (check_framed_size sent.inner_size sent.max_frame_size)
              else ok (sent, (n, m)))
            framed)
        ∙ sized in
      let (f, same) =
        sized-IsFrame seen sent after cx msg real malloc n m _ framed small wrapped refl w taken in
      (f, sym (ap (λ (a : FramedEncoder E). a.max_frame_size) same))

  -- Where the context says that frames are written, and the inner codec appends what it has
  -- announced, fewer than 2 ^ 32 bytes of a binary or a compact message that it reads again: if
  -- `size` succeeds, then `encode` appends as many bytes as `size` has said. Whatever is behind them,
  -- `decode` with the same limit reads the message from them and leaves what is behind, and the
  -- receiver's context is what the inner codec makes of one that knows that the message was framed.
  -- The encoder's limit stays as it was.
  pub decode-encode_framed :
      (seen : Cx T → Cx T) (c after : FramedEncoder E) (cx : Cx T) (msg : Msg) (real malloc : ℕ)
      → writes_frame cx ≡ true
      → ((inner : E) (n m : ℕ)
          → codec.size c.inner cx msg ≡ ok (inner, (n, m))
          → (n < 2 ^ 32) × Writes seen inner cx msg n)
      → size codec c cx msg ≡ ok (after, (real, malloc))
      → IsFrame seen after cx msg real × (after.max_frame_size ≡ c.max_frame_size)
  unfolding size
  decode-encode_framed seen c after cx msg real malloc framed law sized =
      size-IsFrame seen c after cx msg real malloc _ framed law sized

-- Under a limit that is not negative, a length is accepted exactly when it is not above the limit;
-- one above it is reported as too large, or, if its sign bit is set, as negative.
pub check_framed_size-exact :
    {X : Type 0} (n max : ℕ)
    → n < 2 ^ 32
    → max < 2 ^ 31
    → (check_framed_size {X = X} n max ≡ (
        if leb n max then none else if ltb n (2 ^ 31) then some size_limit else some negative_size))
unfolding check_framed_size signed
check_framed_size-exact n max h k = ground arith
