-- ===== src/Grpc/Trailers.antt =====
-- volo-grpc/src/status.rs: the headers that carry a status, and the status that is read from them.
pub mod Escapes
use volo.Base.{
  not, ◌&&◌, ltb, ◌++◌, ℕ, ◌≡◌, refl, sym, ◌∙◌, ap, Bool, true, false, ◌||◌, ◌==◌, ◌⊎◌, [], ◌∷◌,
  Option, none, some, if◌then◌else◌, Bool-cases, inl, inr,
}
use volo.Base.Bytes.{Bytes, eqb}
use volo.Base.Maps.{lookup, insert, bytes_eq, lookup-insert}
use volo.Grpc.Trailers.Escapes.{
  AsciiSet, encoding_set, has_percent, is_raw, IsPercent, is_raw-append, is_raw-encoding_set,
  not_empty,
}
use volo.Grpc.Status.{to_header_value, from_bytes-to_header_value}
use volo.Grpc.Infer.{
  Message, text, HeaderMap, Status, done, expect, grpc_status, grpc_message, grpc_details,
  message_of, details_of, other_headers, status_of, with_details, with_code, from_header_map,
}

-- The value that is not valid, as the error.
pub data Added : Type 0 where
  added : HeaderMap → Added
  invalid_header_value : Added

unfoldable pub extend : HeaderMap → HeaderMap → HeaderMap
extend headers [] = headers
extend headers ((k, v) ∷ more) = extend (insert k v headers) more

-- The encodings and the crate's set of controls, the test of a header's value, the metadata without reserved names, and the text of
-- a message are arguments.
module _ (percent_encode : AsciiSet → Bytes → Bytes) (controls : AsciiSet)
    (base64_encode : Bytes → Bytes) (is_value : Bytes → Bool) (sanitized : HeaderMap → HeaderMap)
    (message_text : Message → Bytes) where
  unfoldable pub insert_value : Bytes → Bytes → HeaderMap → Added
  insert_value key v headers =
      if is_value v then added (insert key v headers) else invalid_header_value

  unfoldable pub add_message : Bytes → HeaderMap → Added
  add_message [] headers = added headers
  add_message (b ∷ bytes) headers =
      insert_value grpc_message (percent_encode (encoding_set controls) (b ∷ bytes)) headers

  unfoldable pub add_details : Bytes → Added → Added
  add_details details invalid_header_value = invalid_header_value
  add_details [] (added headers) = added headers
  add_details (b ∷ bytes) (added headers) =
      insert_value grpc_details (base64_encode (b ∷ bytes)) headers

  unfoldable pub add_header : Status → HeaderMap → Added
  add_header s headers = add_details s.details (
      add_message (message_text s.message)
        (insert grpc_status (to_header_value s.code) (extend headers (sanitized s.metadata))))

  unfoldable pub to_header_map : Status → Added
  to_header_map s = add_header s []

  insert_value-added :
      (k v : Bytes) (headers after : HeaderMap)
      → insert_value k v headers ≡ added after
      → after ≡ insert k v headers
  unfolding insert_value
  insert_value-added k v headers after h = elim (Bool-cases (is_value v)) [
    | inl e ↦
        injected
          (sym (ap (λ b. if b then added (insert k v headers) else invalid_header_value) e) ∙ h)
    | inr e ↦
        refused
          (sym (ap (λ b. if b then added (insert k v headers) else invalid_header_value) e) ∙ h)
  ]
    where
      injected : added (insert k v headers) ≡ added after → after ≡ insert k v headers
      injected g = cc

      refused : invalid_header_value ≡ added after → after ≡ insert k v headers
      refused g = absurd cc

  module _ (percent_decode base64 : Bytes → Option Bytes) (is_text : Bytes → Bool)
      (percent_law : IsPercent percent_encode percent_decode is_text)
      (base64_law : (d : Bytes) → base64 (base64_encode d) ≡ some d) where
    add_message_lem :
        (m m_read : Bytes) (headers after : HeaderMap)
        → percent_decode (percent_encode (encoding_set controls) m) ≡ some m_read
        → (m ≡ [] → m_read ≡ [])
        → lookup grpc_message headers ≡ none
        → add_message m headers ≡ added after
        → (lookup grpc_status after ≡ lookup grpc_status headers)
          × ((lookup grpc_details after ≡ lookup grpc_details headers)
              × (message_of percent_decode base64 (lookup grpc_message after) ≡ some m_read))
    unfolding add_message message_of eqb
    add_message_lem [] m_read headers after decodes none_read fresh h =
        let same : headers ≡ after = cc in
        (
          ap (lookup grpc_status) (sym same),
          (
            ap (lookup grpc_details) (sym same),
            ap (message_of percent_decode base64) (ap (lookup grpc_message) (sym same) ∙ fresh)
                ∙ ap some (sym (none_read refl)),
          ),
        )
    add_message_lem (b ∷ bytes) m_read headers after decodes none_read fresh h =
        let v = percent_encode (encoding_set controls) (b ∷ bytes) in
        let same = insert_value-added grpc_message v headers after h in
        (
          ap (lookup grpc_status) same ∙ lookup-insert grpc_message grpc_status v headers,
          (
            ap (lookup grpc_details) same ∙ lookup-insert grpc_message grpc_details v headers,
            ap (message_of percent_decode base64) (
                  ap (lookup grpc_message) same ∙ lookup-insert grpc_message grpc_message v headers)
                ∙ decodes,
          ),
        )

    add_details_lem :
        (d : Bytes) (headers after : HeaderMap)
        → lookup grpc_details headers ≡ none
        → add_details d (added headers) ≡ added after
        → (lookup grpc_status after ≡ lookup grpc_status headers)
          × ((lookup grpc_message after ≡ lookup grpc_message headers)
              × (details_of percent_decode base64 (lookup grpc_details after) ≡ done d))
    unfolding add_details details_of eqb expect
    add_details_lem [] headers after fresh h =
        let same : headers ≡ after = cc in
        (
          ap (lookup grpc_status) (sym same),
          (
            ap (lookup grpc_message) (sym same),
            ap (details_of percent_decode base64) (ap (lookup grpc_details) (sym same) ∙ fresh),
          ),
        )
    add_details_lem (b ∷ bytes) headers after fresh h =
        let v = base64_encode (b ∷ bytes) in
        let same = insert_value-added grpc_details v headers after h in
        (
          ap (lookup grpc_status) same ∙ lookup-insert grpc_details grpc_status v headers,
          (
            ap (lookup grpc_message) same ∙ lookup-insert grpc_details grpc_message v headers,
            ap (details_of percent_decode base64) (
                  ap (lookup grpc_details) same ∙ lookup-insert grpc_details grpc_details v headers)
                ∙ ap expect (base64_law (b ∷ bytes)),
          ),
        )

    -- The headers carry the code and the details of the status, and a message.
    pub record Carries (s : Status) (m_read : Bytes) (headers : HeaderMap) : Type 0 where
      pub has_code : lookup grpc_status headers ≡ some (to_header_value s.code)
      pub has_message : message_of percent_decode base64 (lookup grpc_message headers) ≡ some m_read
      pub has_details :
          details_of percent_decode base64 (lookup grpc_details headers) ≡ done s.details

    added-Carries :
        (s : Status) (m_read : Bytes) (headers after : HeaderMap) (o : Added)
        → percent_decode (percent_encode (encoding_set controls) (message_text s.message))
          ≡ some m_read
        → (message_text s.message ≡ [] → m_read ≡ [])
        → lookup grpc_message headers ≡ none
        → lookup grpc_details headers ≡ none
        → add_message (message_text s.message) (insert grpc_status (to_header_value s.code) headers)
          ≡ o
        → add_details s.details o ≡ added after
        → Carries s m_read after
    unfolding add_details eqb
    added-Carries s m_read headers after invalid_header_value decodes none_read no_message
          no_details first second =
        absurd cc
    added-Carries s m_read headers after (added mid) decodes none_read no_message no_details first
          second =
        let v = to_header_value s.code in
        let h = insert grpc_status v headers in
        let (c, (d, m)) =
          add_message_lem (message_text s.message) m_read h mid decodes none_read
            (lookup-insert grpc_status grpc_message v headers ∙ no_message) first in
        let (code_kept, (message_kept, details_read)) =
          add_details_lem s.details mid after
            (d ∙ lookup-insert grpc_status grpc_details v headers ∙ no_details) second in
        record {
          has_code = code_kept ∙ c ∙ lookup-insert grpc_status grpc_status v headers;
          has_message = ap (message_of percent_decode base64) message_kept ∙ m;
          has_details = details_read;
        }

    abbrev pub ReadAs : Status → Bytes → HeaderMap → Type 0
    ReadAs s m_read headers =
        from_header_map percent_decode base64 headers
        ≡ done (
            some (record {
              code = s.code;
              message = text m_read;
              details = s.details;
              metadata = other_headers percent_decode base64 headers;
            }))

    Carries-read :
        (s : Status) (m_read : Bytes) (headers : HeaderMap)
        → Carries s m_read headers
        → ReadAs s m_read headers
    unfolding from_header_map with_code with_details status_of
    Carries-read s m_read headers c =
        rw (c.has_code, c.has_details, c.has_message, (from_bytes-to_header_value s.code).0) refl

    -- With a percent coding as documented, an encoding of the details that its decoding undoes, and
    -- metadata that have, without the reserved names, neither a message nor details: if the message
    -- is a text without a percent sign, and the headers of the status are built without an error,
    -- then the status that is read from them has its code, its message and its details, and the
    -- other headers as its metadata.
    pub from_header_map-to_header_map :
        (s : Status) (headers : HeaderMap)
        → is_text (message_text s.message) ≡ true
        → has_percent (message_text s.message) ≡ false
        → lookup grpc_message (extend [] (sanitized s.metadata)) ≡ none
        → lookup grpc_details (extend [] (sanitized s.metadata)) ≡ none
        → to_header_map s ≡ added headers
        → ReadAs s (message_text s.message) headers
    unfolding to_header_map add_header
    from_header_map-to_header_map s headers utf plain no_message no_details h =
        let m = message_text s.message in
        Carries-read s m headers (
          added-Carries s m (extend [] (sanitized s.metadata)) headers _
            (percent_law.decodes (encoding_set controls) m utf (inr plain)) (λ e. e) no_message
            no_details refl h)

    -- With a percent coding as documented, an encoding of the details that its decoding undoes, and
    -- metadata that have, without the reserved names, neither a message nor details: a message that
    -- holds %20 between two texts without a percent sign and without a byte that the encoding set
    -- escapes, where the three bytes of %20 are no controls, is read back with a space in its place,
    -- from the headers that are built of its status without an error.
    pub from_header_map_percent :
        (s : Status) (headers : HeaderMap) (a b : Bytes)
        → message_text s.message ≡ a ++ (37 ∷ 50 ∷ 48 ∷ b)
        → is_raw controls (37 ∷ 50 ∷ 48 ∷ []) ≡ true
        → is_raw (encoding_set controls) a ≡ true
        → is_raw (encoding_set controls) b ≡ true
        → is_text a ≡ true
        → is_text b ≡ true
        → has_percent a ≡ false
        → has_percent b ≡ false
        → lookup grpc_message (extend [] (sanitized s.metadata)) ≡ none
        → lookup grpc_details (extend [] (sanitized s.metadata)) ≡ none
        → to_header_map s ≡ added headers
        → ReadAs s (a ++ (32 ∷ b)) headers
    unfolding to_header_map add_header
    from_header_map_percent s headers a b same raw raw_a raw_b text_a text_b plain_a plain_b
          no_message no_details h =
        let set = encoding_set controls in
        let whole = is_raw-append set a _ raw_a (is_raw-encoding_set controls b raw raw_b) in
        let rest =
          ap percent_decode (sym (percent_law.keeps_raw set b raw_b))
          ∙ percent_law.decodes set b text_b (inr plain_b) in
        Carries-read s (a ++ (32 ∷ b)) headers (
          added-Carries s (a ++ (32 ∷ b)) (extend [] (sanitized s.metadata)) headers _
            (ap percent_decode (ap (percent_encode set) same ∙ percent_law.keeps_raw set _ whole)
              ∙ percent_law.reads_space a b b text_a plain_a rest)
            (λ e. not_empty a (50 ∷ 48 ∷ b) 37 (sym same ∙ e)) no_message no_details refl h)
