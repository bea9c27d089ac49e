-- ===== src/Http/Sse/Built.antt =====
-- volo-http/src/server/response/sse.rs: the lines that the builder of an event writes, and what
-- volo-http/src/client/sse.rs reads in them.
use volo.Base.{
  ℕ, ◌*◌, ◌/◌, ◌≡◌, refl, sym, ◌∙◌, ap, Bool, true, false, List, [], ◌∷◌, ◌++◌, Option, none, some,
  map, arith, append_assoc, append-nil, Bool-cases, inl, inr, if◌then◌else◌,
}
use volo.Base.Bytes.{Bytes, eqb}
use volo.Base.Decimal.{parse_u64}
use volo.Http.Sse.{data_key, event_key, id_key, retry_key, lf, is_break}
use volo.Http.Sse.Server.{
  push_front, memchr_split, Setter, event, data_lines, id, comment, json, retry,
}
use volo.Http.Sse.Pending.{
  SseEvent, EventBuffer, add_line, add_field, add_data, add_event, add_id, add_retry, split_colon,
  strip_space, push_key, has_nul,
}
use volo.Http.Sse.Reader.{or_default}
use volo.Http.Sse.Messages.{join}
use volo.Http.Sse.Settled.{add_lines}

-- What a reader should learn of an event: its fields, where a retry time has lost what is below a
-- millisecond, and an id with a null byte is none.
unfoldable pub note : Setter → SseEvent → SseEvent
note (event v) e = record e { event = some v }
note (data_lines v) e = record e { content = some v }
note (id v) e = if has_nul v then e else record e { id = some v }
note (retry timeout) e = record e { retry = some (timeout / 1000000 * 1000000) }
note (comment v) e = e
note (json payload) e = e

unfoldable pub note_all : List Setter → SseEvent → SseEvent
note_all [] e = e
note_all (s ∷ ss) e = note_all ss (note s e)

unfoldable pub nothing : SseEvent
nothing = record { content = none; event = none; id = none; retry = none }

abbrev pub is_some : {A : Type 0} → Option A → Bool
is_some none = false
is_some (some a) = true

unfoldable pub pending_of : SseEvent → EventBuffer
pending_of e = record {
  bit_data = is_some e.content;
  bit_event = is_some e.event;
  bit_id = is_some e.id;
  bit_retry = is_some e.retry;
  content = or_default e.content;
  event = e.event;
  id = e.id;
  retry = e.retry;
}

unfoldable pub line : Bytes → Bytes → Bytes
line key v = key ++ (58 ∷ 32 ∷ v)

module _ (format : ℕ → Bytes) where
  unfoldable pub lines_of : Setter → List Bytes
  lines_of (event v) = line event_key v ∷ []
  lines_of (data_lines v) = map (line data_key) (memchr_split v)
  lines_of (id v) = line id_key v ∷ []
  lines_of (retry timeout) = line retry_key (format (timeout / 1000000)) ∷ []
  lines_of (comment v) = line [] v ∷ []
  lines_of (json payload) = []

  unfoldable pub all_lines : List Setter → List Bytes
  all_lines [] = []
  all_lines (s ∷ ss) = lines_of s ++ all_lines ss

unfoldable pub Kept : (Bytes → Bytes) → List Bytes → Type 0
Kept lossy [] = Unit {0}
Kept lossy (l ∷ ls) = (lossy l ≡ l) × Kept lossy ls

joined : List Bytes → Bytes
joined [] = []
joined (l ∷ ls) = lf ++ (l ++ joined ls)

joined-push_front :
    (b : ℕ) (bytes : Bytes) (ls : List Bytes)
    → joined ls ≡ 10 ∷ bytes
    → joined (push_front b ls) ≡ 10 ∷ b ∷ bytes
unfolding joined push_front
joined-push_front b bytes [] h = absurd cc
joined-push_front b bytes (l ∷ ls) h =
    let tail : l ++ joined ls ≡ bytes = cc in ap (λ t. 10 ∷ b ∷ t) tail

joined-memchr_split : (v : Bytes) → joined (memchr_split v) ≡ 10 ∷ v
unfolding joined memchr_split
joined-memchr_split [] = refl
joined-memchr_split (b ∷ v) =
    let rest = joined-memchr_split v in
    let front = joined-push_front b v (memchr_split v) rest in ground (arith, rest, front)

pub add_data_line : (v : Bytes) (p : EventBuffer) → add_line (line data_key v) p ≡ add_data v p
unfolding add_line line split_colon push_key strip_space add_field eqb
add_data_line v p = refl

add_more_data :
    (ls : List Bytes) (c : Bytes) (p : EventBuffer)
    → add_lines (map (line data_key) ls) (record p { content = c; bit_data = true })
      ≡ record p { content = c ++ joined ls; bit_data = true }
unfolding add_lines joined add_data
add_more_data [] c p = rw (append-nil c) refl
add_more_data (l ∷ ls) c p =
    let text = append_assoc (c ++ lf) l (joined ls) ∙ append_assoc c lf (l ++ joined ls) in
    ap (add_lines (map (line data_key) ls))
      (add_data_line l (record p { content = c; bit_data = true }))
    ∙ add_more_data ls ((c ++ lf) ++ l) p
    ∙ ap (λ t. record p { content = t; bit_data = true }) text

add_first_data :
    (v : Bytes) (p : EventBuffer)
    → p.bit_data ≡ false
    → p.content ≡ []
    → add_data v p ≡ record p { content = v; bit_data = true }
unfolding add_data
add_first_data v p unset nil = rw (unset, nil) refl

add_all_data :
    (ls : List Bytes) (v : Bytes) (p : EventBuffer)
    → joined ls ≡ 10 ∷ v
    → p.bit_data ≡ false
    → p.content ≡ []
    → add_lines (map (line data_key) ls) p ≡ record p { content = v; bit_data = true }
unfolding add_lines joined add_data
add_all_data [] v p same unset nil = absurd cc
add_all_data (l ∷ ls) v p same unset nil =
    let tail : l ++ joined ls ≡ v = cc in
    ap (add_lines (map (line data_key) ls)) (add_data_line l p ∙ add_first_data l p unset nil)
    ∙ add_more_data ls l p
    ∙ ap (λ t. record p { content = t; bit_data = true }) tail

pub add_lines-append :
    (ks ls : List Bytes) (p : EventBuffer) → add_lines (ks ++ ls) p ≡ add_lines ls (add_lines ks p)
unfolding add_lines
add_lines-append [] ls p = refl
add_lines-append (k ∷ ks) ls p = add_lines-append ks ls (add_line k p)

pub join-append : (ks ls : List Bytes) → join (ks ++ ls) ≡ join ks ++ join ls
unfolding join
join-append [] ls = refl
join-append (k ∷ ks) ls =
    ap (λ t. (k ++ lf) ++ t) (join-append ks ls) ∙ sym (append_assoc (k ++ lf) (join ks) (join ls))

-- A duration of fewer than 2 ^ 64 milliseconds, whose digits are read back.
unfoldable pub IsSent : (ℕ → Bytes) → Setter → Type 0
IsSent format (json payload) = ⊥
IsSent format (retry timeout) =
    (is_break (format (timeout / 1000000)) ≡ false)
    × (parse_u64 (format (timeout / 1000000)) ≡ some (timeout / 1000000))
IsSent format s = Unit {0}

pub add_lines_of :
    (format : ℕ → Bytes) (s : Setter) (e : SseEvent)
    → IsSent format s
    → (put : (v : Bytes) → s ≡ data_lines v → e.content ≡ none)
    → add_lines (lines_of format s) (pending_of e) ≡ pending_of (note s e)
unfolding lines_of add_lines pending_of note IsSent add_line line split_colon push_key strip_space
    add_field eqb add_event add_id add_retry or_default
add_lines_of format (event v) e sent put = refl
add_lines_of format (data_lines v) e sent put =
    let unset = put v refl in
    add_all_data (memchr_split v) v (pending_of e) (joined-memchr_split v) (rw (unset) refl)
      (rw (unset) refl)
add_lines_of format (id v) e sent put = elim (Bool-cases (has_nul v)) [
  | inl h ↦ rw (h) refl
  | inr h ↦ rw (h) refl
]
add_lines_of format (retry timeout) e sent put = rw (sent.1) refl
add_lines_of format (comment v) e sent put = refl
add_lines_of format (json payload) e sent put = absurd sent
