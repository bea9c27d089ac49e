-- ===== src/TtHeader/Layout/Refines.antt =====
-- volo-thrift/src/codec/default/ttheader.rs: `encode` and the described header.
use volo.Base.{
  ℕ, ◌+◌, ◌-◌, ◌/◌, ◌%◌, ◌^◌, ◌≡◌, refl, sym, ap, ap₂, ◌∙◌, [], ◌∷◌, ◌++◌, append_assoc, append-nil,
  arith, ltb, if◌then◌else◌, length, length-append, replicate, Bool-cases, inl, inr,
}
use volo.Base.Bytes.{Bytes, be16, be32, patch, patch-append}
use volo.TtHeader.{Cx, Externals}
use volo.TtHeader.Encode.{
  ok, size_limit, Writer, has_string_kv, put_string_kvs, put_section, put_sections, put_padding,
  write_lengths, fill_lengths, encode,
}
use volo.TtHeader.Layout.{
  padding_of, section_bytes, fixed_bytes, string_section, int_section, unpadded, body, words, total,
  header,
}
use volo.TtHeader.Layout.Writer.{Puts, put_string_kvs-PutsKvs, put_int_kvs-PutsInts}

be16_wrap : (n : ℕ) → be16 ((0 + n) % 2 ^ 16) ≡ be16 n
be16_wrap n = ap₂ (λ a b. a ∷ b ∷ []) (omega arith) (omega arith)

patch_counter :
    (start bs : Bytes) (n : ℕ)
    → patch ((start ++ (0 ∷ 0 ∷ [])) ++ bs) (length start) (be16 n) ≡ start ++ (be16 n ++ bs)
patch_counter start bs n =
    rw (append_assoc start (0 ∷ 0 ∷ []) bs) (patch-append start (0 ∷ 0 ∷ []) (be16 n) bs refl)

put_section_lem :
    (id : ℕ) (f : Writer → Writer) (bs : Bytes) (n : ℕ) (dst : Bytes)
    → Puts f bs n
    → put_section id f dst ≡ dst ++ section_bytes id n bs
unfolding put_section
put_section_lem id f bs n dst p =
    let start : Bytes = dst ++ (id ∷ []) in
    ap (λ (w : Writer). patch w.dst (length start) (be16 w.kv_len)) (p (start ++ (0 ∷ 0 ∷ [])) 0)
    ∙ ap (patch ((start ++ (0 ∷ 0 ∷ [])) ++ bs) (length start)) (be16_wrap n)
    ∙ patch_counter start bs n
    ∙ append_assoc dst (id ∷ []) (be16 n ++ bs)

-- Both placeholders are overwritten, the words at 12 and the total at 0.
write_lengths_lem :
    (dst fixed body : Bytes) (words total : ℕ)
    → length fixed ≡ 8
    → write_lengths
        (length dst)
        words
        total
        (dst ++ ((0 ∷ 0 ∷ 0 ∷ 0 ∷ []) ++ (fixed ++ ((0 ∷ 0 ∷ []) ++ body))))
      ≡ (if ltb words (2 ^ 16)
          then if ltb total (2 ^ 32)
            then ok (dst ++ (be32 total ++ (fixed ++ (be16 words ++ body))))
            else size_limit
          else size_limit)
unfolding write_lengths
write_lengths_lem dst fixed body words total h =
    ap
      (λ (b : Bytes).
        if ltb words (2 ^ 16)
        then if ltb total (2 ^ 32) then ok (patch b (length dst) (be32 total)) else size_limit
        else size_limit)
      inner
    ∙ ap
        (λ (b : Bytes).
          if ltb words (2 ^ 16)
          then if ltb total (2 ^ 32) then ok b else size_limit
          else size_limit)
        (patch-append dst (0 ∷ 0 ∷ 0 ∷ 0 ∷ []) (be32 total) _ refl)
  where
    front : Bytes
    front = dst ++ ((0 ∷ 0 ∷ 0 ∷ 0 ∷ []) ++ fixed)

    front_length : length dst + 12 ≡ length front
    front_length = omega (arith, length-append dst ((0 ∷ 0 ∷ 0 ∷ 0 ∷ []) ++ fixed))

    inner :
        patch
          (dst ++ ((0 ∷ 0 ∷ 0 ∷ 0 ∷ []) ++ (fixed ++ ((0 ∷ 0 ∷ []) ++ body))))
          (length dst + 12)
          (be16 words)
        ≡ dst ++ ((0 ∷ 0 ∷ 0 ∷ 0 ∷ []) ++ (fixed ++ (be16 words ++ body)))
    inner = rw front_length (
        ap (λ (b : Bytes). patch b (length front) (be16 words)) (simp append_assoc)
        ∙ patch-append front (0 ∷ 0 ∷ []) (be16 words) body refl
        ∙ simp append_assoc)

module _ {A M : Type 0} (ext : Externals A M) (cx : Cx A) (m : M) where
  string_section_lem :
      (dst : Bytes)
      → (if has_string_kv ext cx.role cx m
          then put_section 1 (put_string_kvs ext cx.role cx m) dst
          else dst)
        ≡ dst ++ string_section ext cx m
  unfolding string_section
  string_section_lem dst = elim (Bool-cases (has_string_kv ext cx.role cx m)) [
    | inl e ↦ rw e (put_section_lem 1 _ _ _ dst (put_string_kvs-PutsKvs ext cx.role cx m).puts)
    | inr e ↦ rw e (sym (append-nil dst))
  ]

  put_sections_lem :
      (dst : Bytes)
      → put_sections ext cx m dst
        ≡ dst
          ++ ((0 ∷ 0 ∷ 0 ∷ 0 ∷ [])
              ++ (fixed_bytes cx.seq_id ++ ((0 ∷ 0 ∷ []) ++ unpadded ext cx m)))
  unfolding put_sections unpadded int_section
  put_sections_lem dst =
      put_section_lem 16 _ _ _ _ (put_int_kvs-PutsInts ext cx.role cx).puts
      ∙ ap (λ (d : Bytes). d ++ int_section ext cx) (string_section_lem _)
      ∙ simp append_assoc

  length-unpadded :
      (dst : Bytes)
      → length (put_sections ext cx m dst) ≡ length dst + (14 + length (unpadded ext cx m))
  length-unpadded dst = ap length (put_sections_lem dst) ∙ rw (length-append dst _) (omega arith)

  put_padding_lem :
      (dst : Bytes)
      → put_padding (length dst) (put_sections ext cx m dst)
        ≡ dst
          ++ ((0 ∷ 0 ∷ 0 ∷ 0 ∷ []) ++ (fixed_bytes cx.seq_id ++ ((0 ∷ 0 ∷ []) ++ body ext cx m)))
  unfolding put_padding body padding_of
  put_padding_lem dst =
      ap (λ (n : ℕ). put_sections ext cx m dst ++ replicate ((4 - n % 4) % 4) 0)
        (omega (arith, length-unpadded dst))
      ∙ ap (λ (d : Bytes). d ++ replicate ((4 - length (unpadded ext cx m) % 4) % 4) 0)
          (put_sections_lem dst)
      ∙ simp append_assoc

  -- `encode` keeps `dst` and appends exactly the described header, where the header has fewer
  -- than 2 ^ 16 words and the whole message fewer than 2 ^ 32 bytes behind the length field;
  -- otherwise it reports the size limit.
  pub encode-header :
      (dst : Bytes) (size : ℕ)
      → encode ext cx m dst size ≡ (
          if ltb (words ext cx m) (2 ^ 16)
          then if ltb (total ext cx m size) (2 ^ 32)
            then ok (dst ++ header ext cx m size)
            else size_limit
          else size_limit)
  unfolding encode fill_lengths words total header
  encode-header dst size =
      ap (fill_lengths (length dst) size) (put_padding_lem dst)
      ∙ ap₂ (λ (a b : ℕ). write_lengths (length dst) a b padded) words_eq total_eq
      ∙ write_lengths_lem dst (fixed_bytes cx.seq_id) (body ext cx m) _ _ refl
    where
      rest : Bytes
      rest = (0 ∷ 0 ∷ 0 ∷ 0 ∷ []) ++ (fixed_bytes cx.seq_id ++ ((0 ∷ 0 ∷ []) ++ body ext cx m))

      padded : Bytes
      padded = dst ++ rest

      words_eq : (length padded - length dst - 14) / 4 ≡ length (body ext cx m) / 4
      words_eq = omega (arith, length-append dst rest)

      total_eq : length padded - length dst + size - 4 ≡ 10 + length (body ext cx m) + size
      total_eq = omega (arith, length-append dst rest)
