-- ===== src/Http/Sse/Writes.antt =====
-- volo-http/src/server/response/sse.rs: what each call of the builder of an event appends.
use volo.Base.{
  ℕ, ◌/◌, ◌≡◌, refl, sym, ◌∙◌, ap, Bool, true, false, List, [], ◌∷◌, ◌++◌, Option, none, some, map,
  arith, append_assoc, append-nil, Bool-cases, inl, inr, if◌then◌else◌,
}
use mathlib.Core.Option.{bind}
use volo.Base.Bytes.{Bytes}
use volo.Http.Sse.{data_key, event_key, id_key, retry_key, lf, is_break}
use volo.Http.Sse.Server.{
  Event, put_field, field, memchr_split, put_lines, Setter, event, data_lines, id, comment, json,
  retry, set, set_all,
}
use volo.Http.Sse.Pending.{SseEvent, has_nul}
use volo.Http.Sse.Messages.{join, IsLine, AreLines}
use volo.Http.Sse.Settled.{add_lines}
use volo.Http.Sse.Built.{
  note, note_all, pending_of, line, lines_of, all_lines, Kept, IsSent, add_lines_of,
  add_lines-append, join-append,
}

bind-some :
    {A B : Type 0} (o : Option A) (f : A → Option B) (b : B)
    → bind o f ≡ some b
    → (a : A) × (o ≡ some a) × (f a ≡ some b)
unfolding bind
bind-some none f b h = absurd cc
bind-some (some a) f b h = (a, refl, h)

if_some :
    {A : Type 0} (t : Bool) (o : Option A) (a : A)
    → (if t then none else o) ≡ some a
    → (t ≡ false) × (o ≡ some a)
if_some true o a h = absurd cc
if_some false o a h = (refl, h)

put_field-line :
    (key v : Bytes) (e : Event) → (put_field key v e).buffer ≡ e.buffer ++ join (line key v ∷ [])
unfolding put_field join line
put_field-line key v e =
    ap (λ t. e.buffer ++ t) (sym (append-nil _ ∙ append_assoc key (58 ∷ 32 ∷ v) lf))

field-some :
    (key v : Bytes) (e after : Event)
    → field key v e ≡ some after
    → (is_break v ≡ false) × (after ≡ put_field key v e)
unfolding field
field-some key v e after h =
    let (unbroken, same) = if_some (is_break v) (some (put_field key v e)) after h in (unbroken, cc)

Kept-append :
    (lossy : Bytes → Bytes) (ks ls : List Bytes)
    → Kept lossy (ks ++ ls)
    → Kept lossy ks × Kept lossy ls
unfolding Kept
Kept-append lossy [] ls h = (tt, h)
Kept-append lossy (k ∷ ks) ls h =
    let (front, back) = Kept-append lossy ks ls h.1 in ((h.0, front), back)

AreLines-append :
    (lossy : Bytes → Bytes) (ks ls : List Bytes)
    → AreLines lossy ks
    → AreLines lossy ls
    → AreLines lossy (ks ++ ls)
unfolding AreLines
AreLines-append lossy [] ls h k = k
AreLines-append lossy (l ∷ ks) ls h k = (h.0, AreLines-append lossy ks ls h.1 k)

-- Lines were appended, none of them broken.
record Wrote (ls : List Bytes) (e after : Event) : Type 0 where
  bytes : after.buffer ≡ e.buffer ++ join ls
  whole : (lossy : Bytes → Bytes) → Kept lossy ls → AreLines lossy ls
  flag : after.has_data ≡ e.has_data

Wrote-put_field :
    (key v : Bytes) (e after : Event)
    → ((lossy : Bytes → Bytes)
        → is_break v ≡ false
        → lossy (line key v) ≡ line key v
        → IsLine lossy (line key v))
    → is_break v ≡ false
    → after ≡ put_field key v e
    → Wrote (line key v ∷ []) e after
unfolding Kept AreLines put_field
Wrote-put_field key v e after is_line unbroken same = record {
  bytes = ap (λ a. a.buffer) same ∙ put_field-line key v e;
  whole = λ lossy kept. (is_line lossy unbroken kept.0, kept.1);
  flag = ap (λ a. a.has_data) same;
}

Wrote-field :
    (key v : Bytes) (e after : Event)
    → ((lossy : Bytes → Bytes)
        → is_break v ≡ false
        → lossy (line key v) ≡ line key v
        → IsLine lossy (line key v))
    → field key v e ≡ some after
    → Wrote (line key v ∷ []) e after
Wrote-field key v e after is_line h =
    let (unbroken, same) = field-some key v e after h in
    Wrote-put_field key v e after is_line unbroken same

Wrote-append :
    (ks ls : List Bytes) (e mid after : Event)
    → Wrote ks e mid
    → Wrote ls mid after
    → Wrote (ks ++ ls) e after
unfolding Kept
Wrote-append ks ls e mid after h k = record {
  bytes =
      k.bytes
      ∙ ap (λ t. t ++ join ls) h.bytes
      ∙ append_assoc e.buffer (join ks) (join ls)
      ∙ ap (λ t. e.buffer ++ t) (sym (join-append ks ls));
  whole = λ lossy kept.
      let (front, back) = Kept-append lossy ks ls kept in
      AreLines-append lossy ks ls (h.whole lossy front) (k.whole lossy back);
  flag = k.flag ∙ h.flag;
}

pub data_line :
    (v : Bytes) (lossy : Bytes → Bytes)
    → is_break v ≡ false
    → lossy (line data_key v) ≡ line data_key v
    → IsLine lossy (line data_key v)
unfolding IsLine is_break line
data_line v lossy h e = (omega arith, (h, e))

event_line :
    (v : Bytes) (lossy : Bytes → Bytes)
    → is_break v ≡ false
    → lossy (line event_key v) ≡ line event_key v
    → IsLine lossy (line event_key v)
unfolding IsLine is_break line
event_line v lossy h e = (omega arith, (h, e))

id_line :
    (v : Bytes) (lossy : Bytes → Bytes)
    → is_break v ≡ false
    → lossy (line id_key v) ≡ line id_key v
    → IsLine lossy (line id_key v)
unfolding IsLine is_break line
id_line v lossy h e = (omega arith, (h, e))

retry_line :
    (v : Bytes) (lossy : Bytes → Bytes)
    → is_break v ≡ false
    → lossy (line retry_key v) ≡ line retry_key v
    → IsLine lossy (line retry_key v)
unfolding IsLine is_break line
retry_line v lossy h e = (omega arith, (h, e))

comment_line :
    (v : Bytes) (lossy : Bytes → Bytes)
    → is_break v ≡ false
    → lossy (line [] v) ≡ line [] v
    → IsLine lossy (line [] v)
unfolding IsLine is_break line
comment_line v lossy h e = (omega arith, (h, e))

Wrote-put_lines :
    (ls : List Bytes) (e after : Event)
    → put_lines ls e ≡ some after
    → Wrote (map (line data_key) ls) e after
unfolding put_lines AreLines join
Wrote-put_lines [] e after h = record {
  bytes = ap (λ a. a.buffer) (sym same) ∙ sym (append-nil e.buffer);
  whole = λ lossy kept. tt;
  flag = ap (λ a. a.has_data) (sym same);
}
  where
    same : e ≡ after
    same = cc
Wrote-put_lines (l ∷ ls) e after h =
    let (mid, first, others) = bind-some (field data_key l e) (put_lines ls) after h in
    Wrote-append (line data_key l ∷ []) (map (line data_key) ls) e mid after
      (Wrote-field data_key l e mid (data_line l) first) (Wrote-put_lines ls mid after others)

note_id : (v : Bytes) (x : SseEvent) → (note (id v) x).content ≡ x.content
unfolding note
note_id v x = elim (Bool-cases (has_nul v)) [ inl h ↦ rw (h) refl | inr h ↦ rw (h) refl ]

module _ (format : ℕ → Bytes) where
  record Writes (s : Setter) (e after : Event) : Type 0 where
    bytes : after.buffer ≡ e.buffer ++ join (lines_of format s)
    whole :
        (lossy : Bytes → Bytes)
        → Kept lossy (lines_of format s)
        → AreLines lossy (lines_of format s)
    fresh : (v : Bytes) → s ≡ data_lines v → e.has_data ≡ false
    keeps :
        (x : SseEvent)
        → (e.has_data ≡ false → x.content ≡ none)
        → after.has_data ≡ false
        → (note s x).content ≡ none

  set-Writes :
      (s : Setter) (e after : Event)
      → IsSent format s
      → set format s e ≡ some after
      → Writes s e after
  unfolding set lines_of IsSent note
  set-Writes (event v) e after sent h =
      let (unset, put) = if_some e.has_event _ after h in
      let w = Wrote-field event_key v (record e { has_event = true }) after (event_line v) put in
      record {
        bytes = w.bytes;
        whole = w.whole;
        fresh = λ u same. absurd cc;
        keeps = λ x f un. f (sym w.flag ∙ un);
      }
  set-Writes (data_lines v) e after sent h =
      let (unset, put) = if_some e.has_data _ after h in
      let w = Wrote-put_lines (memchr_split v) (record e { has_data = true }) after put in
      record {
        bytes = w.bytes;
        whole = w.whole;
        fresh = λ u same. unset;
        keeps = λ x f un. absurd cc;
      }
  set-Writes (id v) e after sent h =
      let (unset, put) = if_some e.has_id _ after h in
      let w = Wrote-field id_key v (record e { has_id = true }) after (id_line v) put in
      record {
        bytes = w.bytes;
        whole = w.whole;
        fresh = λ u same. absurd cc;
        keeps = λ x f un. note_id v x ∙ f (sym w.flag ∙ un);
      }
  set-Writes (retry timeout) e after sent h =
      let (unset, put) = if_some e.has_retry _ after h in
      let v = format (timeout / 1000000) in
      let same : after ≡ put_field retry_key v (record e { has_retry = true }) = cc in
      let w =
        Wrote-put_field retry_key v (record e { has_retry = true }) after (retry_line v) sent.0
          same in
      record {
        bytes = w.bytes;
        whole = w.whole;
        fresh = λ u same. absurd cc;
        keeps = λ x f un. f (sym w.flag ∙ un);
      }
  set-Writes (comment v) e after sent h =
      let w = Wrote-field [] v e after (comment_line v) h in
      record {
        bytes = w.bytes;
        whole = w.whole;
        fresh = λ u same. absurd cc;
        keeps = λ x f un. f (sym w.flag ∙ un);
      }
  set-Writes (json payload) e after sent h = absurd sent

  unfoldable pub AllSent : List Setter → Type 0
  AllSent [] = Unit {0}
  AllSent (s ∷ ss) = IsSent format s × AllSent ss

  -- The bytes that the calls append are lines, and what the reader makes of them is the event.
  pub record Announces (ss : List Setter) (e after : Event) (x : SseEvent) : Type 0 where
    pub bytes : after.buffer ≡ e.buffer ++ join (all_lines format ss)
    pub whole :
        (lossy : Bytes → Bytes)
        → Kept lossy (all_lines format ss)
        → AreLines lossy (all_lines format ss)
    pub reads : add_lines (all_lines format ss) (pending_of x) ≡ pending_of (note_all ss x)

  pub set_all-Announces :
      (ss : List Setter) (e after : Event) (x : SseEvent)
      → AllSent ss
      → (e.has_data ≡ false → x.content ≡ none)
      → set_all format ss e ≡ some after
      → Announces ss e after x
  unfolding set_all all_lines note_all join AreLines add_lines AllSent
  set_all-Announces [] e after x sent fresh h = record {
    bytes = ap (λ a. a.buffer) (sym same) ∙ sym (append-nil e.buffer);
    whole = λ lossy kept. tt;
    reads = refl;
  }
    where
      same : e ≡ after
      same = cc
  set_all-Announces (s ∷ ss) e after x sent fresh h =
      let (mid, first, others) = bind-some (set format s e) (set_all format ss) after h in
      let w = set-Writes s e mid sent.0 first in
      let k = set_all-Announces ss mid after (note s x) sent.1 (w.keeps x fresh) others in
      let ls = lines_of format s in
      let ks = all_lines format ss in
      record {
        bytes =
            k.bytes
            ∙ ap (λ t. t ++ join ks) w.bytes
            ∙ append_assoc e.buffer (join ls) (join ks)
            ∙ ap (λ t. e.buffer ++ t) (sym (join-append ls ks));
        whole = λ lossy kept.
            let (front, back) = Kept-append lossy ls ks kept in
            AreLines-append lossy ls ks (w.whole lossy front) (k.whole lossy back);
        reads =
            add_lines-append ls ks (pending_of x)
            ∙ ap (add_lines ks) (add_lines_of format s x sent.0 (λ v same. fresh (w.fresh v same)))
            ∙ k.reads;
      }
