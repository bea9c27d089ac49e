-- ===== src/TtHeader/RoundTrip.antt =====
-- volo-thrift/src/codec/default/ttheader.rs: `decode` after `encode`.
use volo.Base.{
  ℕ, zero, suc, ◌+◌, ◌*◌, ◌^◌, ◌≤◌, ◌<◌, ◌≡◌, ap, ap₂, ◌∙◌, Bool, true, false, List, [], ◌∷◌, ◌++◌,
  append_assoc, none, some, refl, Bool-cases, inl, inr, arith, if◌then◌else◌, length, length-append,
  length-replicate, replicate, drop,
}
use volo.Base.Bytes.{Bytes, be16, of_be16-be16, split_at?}
use volo.Base.Maps.{nat_eq, bytes_eq, lookup}
use volo.TtHeader.{IntMetaKey, Cx, Externals, protocol_byte, protocol_round}
use volo.TtHeader.Encode.{EncodeResult, has_string_kv, protocol_of, encode}
use volo.TtHeader.Layout.{
  kv_bytes, int_kv_bytes, entries, int_entries, string_kvs, int_kvs, padding_of, section_bytes,
  fixed_bytes, string_section, int_section, unpadded, body, words, header,
}
use volo.TtHeader.Layout.Refines.{encode-header}
use volo.TtHeader.Decode.{
  Result, Reading, get_u8, get_u16, get_u32, split_to, sub_usize, read_start, read_rest,
  read_sections,
}
use volo.TtHeader.Apply.{finish_decode, decode_after, decode}
use volo.TtHeader.Learned.{
  learns, apply-learns, last_of, last_int_of, lookup-insert_all, lookup-insert_ints,
}
use volo.TtHeader.Reads.{
  insert_all, insert_ints, FitsKvs, FitsInts, reading, read_section-entries,
  read_section-int_entries, read_sections_step, read_sections-padding, sub_two,
}

count-entries : (kvs : List (Bytes × Bytes)) → 4 * length kvs ≤ length (entries kvs)
unfolding entries kv_bytes
count-entries [] = omega arith
count-entries ((k, v) ∷ kvs) = simp length-append (omega (arith, count-entries kvs))

count-int_entries : (kvs : List (IntMetaKey × Bytes)) → 4 * length kvs ≤ length (int_entries kvs)
unfolding int_entries int_kv_bytes
count-int_entries [] = omega arith
count-int_entries ((k, v) ∷ kvs) = simp length-append (omega (arith, count-int_entries kvs))

-- The loop over a string section, an int section and padding.
read_both :
    (kvs : List (Bytes × Bytes)) (ints : List (IntMetaKey × Bytes)) (p fuel : ℕ) (rest : Bytes)
    → FitsKvs kvs
    → FitsInts ints
    → 6 + length (entries kvs) + length (int_entries ints) + p < 2 ^ 18
    → 2 + p ≤ fuel
    → read_sections fuel (
        reading
          (3 + length (entries kvs) + (3 + length (int_entries ints) + p))
          (section_bytes 1 (length kvs) (entries kvs)
            ++ (section_bytes 16 (length ints) (int_entries ints) ++ (replicate p 0 ++ rest)))
          []
          [])
      ≡ Result.ok (reading 0 rest (insert_all kvs []) (insert_ints ints []))
read_both kvs ints p zero rest f g fit le = absurd (omega arith)
read_both kvs ints p (suc zero) rest f g fit le = absurd (omega arith)
read_both kvs ints p (suc (suc fuel)) rest f g fit le =
    read_sections_step (suc fuel) _ _ (omega arith) (
      read_section-entries kvs _ (3 + length (int_entries ints) + p) [] [] f
        (omega (arith, count-entries kvs)) (omega arith))
    ∙ read_sections_step fuel _ _ (omega arith) (
        read_section-int_entries ints (replicate p 0 ++ rest) p (insert_all kvs []) [] g
          (omega (arith, count-int_entries ints)) (omega arith))
    ∙ read_sections-padding p fuel rest _ _ (omega arith) (omega arith)

read_ints :
    (ints : List (IntMetaKey × Bytes)) (p fuel : ℕ) (rest : Bytes)
    → FitsInts ints
    → 3 + length (int_entries ints) + p < 2 ^ 18
    → 1 + p ≤ fuel
    → read_sections fuel (
        reading
          (3 + length (int_entries ints) + p)
          (section_bytes 16 (length ints) (int_entries ints) ++ (replicate p 0 ++ rest))
          []
          [])
      ≡ Result.ok (reading 0 rest [] (insert_ints ints []))
read_ints ints p zero rest g fit le = absurd (omega arith)
read_ints ints p (suc fuel) rest g fit le =
    read_sections_step fuel _ _ (omega arith) (
      read_section-int_entries ints (replicate p 0 ++ rest) p [] [] g
        (omega (arith, count-int_entries ints)) (omega arith))
    ∙ read_sections-padding p fuel rest _ _ (omega arith) (omega arith)

read_choice :
    (b : Bool) (kvs : List (Bytes × Bytes)) (ints : List (IntMetaKey × Bytes)) (p fuel : ℕ)
    (rest : Bytes)
    → let info : Bytes =
        (if b then section_bytes 1 (length kvs) (entries kvs) else [])
        ++ section_bytes 16 (length ints) (int_entries ints) in
      FitsKvs kvs
      → FitsInts ints
      → length info + p < 2 ^ 18
      → 2 + p ≤ fuel
      → read_sections fuel (reading (length info + p) (info ++ (replicate p 0 ++ rest)) [] [])
        ≡ Result.ok (reading 0 rest (if b then insert_all kvs [] else []) (insert_ints ints []))
read_choice true kvs ints p fuel rest f g fit le =
    let total : length (entries kvs ++ section_bytes 16 (length ints) (int_entries ints))
        ≡ length (entries kvs) + length (section_bytes 16 (length ints) (int_entries ints)) =
      length-append (entries kvs) (section_bytes 16 (length ints) (int_entries ints)) in
    ap (read_sections fuel) (
      ap₂ (λ (n : ℕ) (bs : Bytes). reading n bs [] []) (omega (arith, total))
        (append_assoc (section_bytes 1 (length kvs) (entries kvs))
          (section_bytes 16 (length ints) (int_entries ints)) (replicate p 0 ++ rest)))
    ∙ read_both kvs ints p fuel rest f g (omega (arith, total)) le
read_choice false kvs ints p fuel rest f g fit le =
    ap
      (λ (n : ℕ). read_sections fuel (
        reading n (section_bytes 16 (length ints) (int_entries ints) ++ (replicate p 0 ++ rest)) []
          []))
      (omega arith)
    ∙ read_ints ints p fuel rest g (omega arith) (omega arith)

module _ {A M : Type 0} (ext : Externals A M) (cx : Cx A) (m : M) where
  -- Every string of the header has at most 65535 bytes.
  pub record Fits : Type 0 where
    pub strings : FitsKvs (string_kvs ext cx.role cx m)
    pub ints : FitsInts (int_kvs ext cx.role cx)

  -- What the decoder reads of the header: the maps of the pairs, in their order.
  abbrev pub sent : Bytes → Reading
  sent payload =
      reading 0 payload
        (if has_string_kv ext cx.role cx m then insert_all (string_kvs ext cx.role cx m) [] else [])
        (insert_ints (int_kvs ext cx.role cx) [])

  pad : ℕ
  pad = padding_of (length (unpadded ext cx m))

  info : Bytes
  info = string_section ext cx m ++ int_section ext cx

  read_info_sections :
      (fuel : ℕ) (payload : Bytes)
      → Fits
      → length info + pad < 2 ^ 18
      → 2 + pad ≤ fuel
      → read_sections fuel
          (reading (length info + pad) (info ++ (replicate pad 0 ++ payload)) [] [])
        ≡ Result.ok (sent payload)
  unfolding info string_section int_section
  read_info_sections fuel payload f fit le =
      read_choice (has_string_kv ext cx.role cx m) (string_kvs ext cx.role cx m)
        (int_kvs ext cx.role cx) pad fuel payload f.strings f.ints fit le

  length-body : length (body ext cx m) ≡ 2 + length info + pad
  unfolding body unpadded info pad
  length-body =
      length-append (unpadded ext cx m) (replicate pad 0)
      ∙ omega (arith, length-replicate {A = ℕ} pad 0)

  pad_eq : pad ≡ padding_of (2 + length info)
  unfolding pad unpadded info
  pad_eq = ap padding_of (omega arith)

  words_four : words ext cx m * 4 ≡ 2 + length info + pad
  unfolding words padding_of
  words_four = omega (arith, length-body, pad_eq)

  info_pos : 3 ≤ length info
  unfolding info int_section
  info_pos = omega (arith, length-append (string_section ext cx m) (int_section ext cx))

  -- `read_rest` of the header's body, behind the protocol id.
  read_rest-body :
      (payload : Bytes)
      → Fits
      → words ext cx m < 2 ^ 16
      → read_rest (words ext cx m) (0 ∷ (info ++ (replicate pad 0 ++ payload)))
        ≡ Result.ok (sent payload)
  unfolding read_rest get_u8 split_to split_at?
  read_rest-body payload f small =
      let rest : Bytes = info ++ (replicate pad 0 ++ payload) in
      ap
        (λ (n : ℕ).
          read_sections (length rest + 1) (reading (sub_usize (sub_usize n 2) 0) rest [] []))
        words_four
      ∙ ap (λ (n : ℕ). read_sections (length rest + 1) (reading n rest [] []))
          (sub_two (length info + pad) 2 0 (2 + length info + pad) (omega (arith, words_four))
            (omega arith))
      ∙ read_info_sections (length rest + 1) payload f (omega (arith, words_four)) (
          omega (
            arith,
            info_pos,
            length-append info (replicate pad 0 ++ payload),
            length-append (replicate pad 0) payload,
            length-replicate {A = ℕ} pad 0,
          ))

  -- `read_start` of the header behind its length field.
  read_start-header :
      (rest : Bytes)
      → words ext cx m < 2 ^ 16
      → read_start (
          fixed_bytes cx.seq_id
          ++ (be16 (words ext cx m) ++ (protocol_byte (protocol_of cx.protocol_id) ∷ rest)))
        ≡ Result.ok (words ext cx m, protocol_byte (protocol_of cx.protocol_id), rest)
  unfolding read_start get_u8 get_u16 get_u32
  read_start-header rest small =
      ap (λ (n : ℕ). Result.ok (n, protocol_byte (protocol_of cx.protocol_id), rest))
        (of_be16-be16 (words ext cx m) small)

  encoded :
      (size : ℕ) (out : Bytes)
      → encode ext cx m [] size ≡ EncodeResult.ok out
      → (out ≡ header ext cx m size) × (words ext cx m < 2 ^ 16)
  encoded size out e = (
    ground (arith, encode-header ext cx m [] size),
    ground (arith, encode-header ext cx m [] size),
  )

  body_parts :
      (payload : Bytes)
      → body ext cx m ++ payload
        ≡ protocol_byte (protocol_of cx.protocol_id) ∷ (0 ∷ (info ++ (replicate pad 0 ++ payload)))
  unfolding body unpadded info pad
  body_parts payload = append_assoc (unpadded ext cx m) (replicate pad 0) payload

  header_parts :
      (size : ℕ) (payload : Bytes)
      → drop 4 (header ext cx m size) ++ payload
        ≡ fixed_bytes cx.seq_id
          ++ (be16 (words ext cx m)
              ++ (protocol_byte (protocol_of cx.protocol_id)
                  ∷ (0 ∷ (info ++ (replicate pad 0 ++ payload)))))
  unfolding header
  header_parts size payload =
      ap (λ (b : Bytes). fixed_bytes cx.seq_id ++ (be16 (words ext cx m) ++ b)) (body_parts payload)

  pub decode-encode_reading :
      (cx' : Cx A) (m' : M) (size : ℕ) (out payload : Bytes)
      → Fits
      → encode ext cx m [] size ≡ EncodeResult.ok out
      → decode ext cx' m' (drop 4 out ++ payload)
        ≡ finish_decode ext
            (record cx' { protocol_id = some (protocol_of cx.protocol_id) })
            m'
            (Result.ok (sent payload))
  unfolding decode decode_after
  decode-encode_reading cx' m' size out payload f e =
      let (same, small) = encoded size out e in
      let rest : Bytes = 0 ∷ (info ++ (replicate pad 0 ++ payload)) in
      ap (λ (b : Bytes). decode ext cx' m' b)
        (ap (λ (b : Bytes). drop 4 b ++ payload) same ∙ header_parts size payload)
      ∙ ap (decode_after ext cx' m') (read_start-header rest small)
      ∙ rw (protocol_round (protocol_of cx.protocol_id), decode_after)
          (ap (finish_decode ext _ m') (read_rest-body payload f small))

  pub sent_strings : List (Bytes × Bytes)
  sent_strings = if has_string_kv ext cx.role cx m then string_kvs ext cx.role cx m else []

  sent-headers : (payload : Bytes) → (sent payload).headers ≡ insert_all sent_strings []
  unfolding sent_strings insert_all
  sent-headers payload = elim (Bool-cases (has_string_kv ext cx.role cx m)) [
    | inl h ↦ rw (h) refl
    | inr h ↦ rw (h) refl
  ]

  -- Where the lengths of all keys and values fit 16 bits, `decode` reads back what `encode` wrote,
  -- behind the length field, and leaves the payload. A map with the string pairs and a map with
  -- the int pairs, in which a key has the value that was sent last for it, change the reader's
  -- context and metainfo as `learns` describes for its role: a server gets the IDL service name,
  -- the names of the caller and of itself, the caller's address beside its name, and the timeout,
  -- and its metainfo the persistent and the transient pairs; a client gets the server's address,
  -- whether the connection may be reused, and the business error, and its metainfo the backward
  -- pairs. What was not sent, or cannot be parsed, stays as it was, and the protocol id is the one
  -- that was sent.
  pub decode-encode :
      (cx' : Cx A) (m' : M) (size : ℕ) (out payload : Bytes)
      → Fits
      → encode ext cx m [] size ≡ EncodeResult.ok out
      → let strings = insert_all sent_strings [] in
        let ints = insert_ints (int_kvs ext cx.role cx) [] in
        let learned =
          learns ext cx'.role strings ints
            (record cx' { protocol_id = some (protocol_of cx.protocol_id) })
            m' in
        (decode ext cx' m' (drop 4 out ++ payload) ≡ (learned.0, learned.1, Result.ok payload))
        × ((k : Bytes) → lookup k strings ≡ last_of k sent_strings none)
        × ((k : ℕ) → lookup k ints ≡ last_int_of k (int_kvs ext cx.role cx) none)
  unfolding finish_decode lookup
  decode-encode cx' m' size out payload f e =
      let cx1 : Cx A = record cx' { protocol_id = some (protocol_of cx.protocol_id) } in
      let ints = insert_ints (int_kvs ext cx.role cx) [] in
      (
        decode-encode_reading cx' m' size out payload f e
            ∙ ap (λ o. (o.0, o.1, Result.ok payload))
                (apply-learns ext cx'.role (sent payload) cx1 m'
                  ∙ ap (λ h. learns ext cx'.role h ints cx1 m') (sent-headers payload)),
        (λ k. lookup-insert_all k sent_strings []),
        (λ k. lookup-insert_ints k (int_kvs ext cx.role cx) []),
      )
