-- ===== src/Http/Sse/Settled.antt =====
-- volo-http/src/client/sse.rs: the lines of a message, and what is pending after them.
use volo.Base.{
  ℕ, ◌*◌, ◌≡◌, refl, Bool, true, false, List, [], ◌∷◌, Option, none, some, arith, if◌then◌else◌,
}
use volo.Base.Bytes.{Bytes}
use volo.Base.Decimal.{parse_u64}
use volo.Http.Sse.Pending.{
  EventBuffer, empty, has_field, add_line, add_field, add_data, add_event, add_id, has_nul,
  add_retry, split_colon,
}

unfoldable pub add_lines : List Bytes → EventBuffer → EventBuffer
add_lines [] p = p
add_lines (l ∷ ls) p = add_lines ls (add_line l p)

-- Without a bit, nothing is set.
abbrev pub Settled : EventBuffer → Type 0
Settled p = has_field p ≡ false → p ≡ empty

Settled-if : (b : Bool) (p q : EventBuffer) → Settled p → Settled q → Settled (if b then p else q)
Settled-if true p q h k = h
Settled-if false p q h k = k

Settled-set : (p : EventBuffer) → has_field p ≡ true → Settled p
Settled-set p h = λ e. absurd cc

has_field_data : (v : Bytes) (p : EventBuffer) → has_field (add_data v p) ≡ true
unfolding add_data has_field
has_field_data v p = refl

has_field_event : (v : Bytes) (p : EventBuffer) → has_field (add_event v p) ≡ true
unfolding add_event has_field
has_field_event v p = ground arith

add_id-Settled : (v : Bytes) (p : EventBuffer) → Settled p → Settled (add_id v p)
unfolding add_id has_field
add_id-Settled v p h =
    Settled-if (has_nul v) p (record p { id = some v; bit_id = true }) h
      (Settled-set (record p { id = some v; bit_id = true }) (ground arith))

add_retry-Settled : (ms : Option ℕ) (p : EventBuffer) → Settled p → Settled (add_retry ms p)
unfolding add_retry has_field
add_retry-Settled none p h = h
add_retry-Settled (some ms) p h =
    Settled-set (record p { retry = some (ms * 1000000); bit_retry = true }) (ground arith)

add_field-Settled : (f : Bytes × Bytes) (p : EventBuffer) → Settled p → Settled (add_field f p)
unfolding add_field
add_field-Settled (key, value) p h = Settled-if _ _ _ (Settled-set _ (has_field_data value p)) (
    Settled-if _ _ _ (Settled-set _ (has_field_event value p)) (
      Settled-if _ _ _ (add_id-Settled value p h)
        (Settled-if _ _ _ (add_retry-Settled (parse_u64 value) p h) h)))

pub add_lines-Settled : (ls : List Bytes) (p : EventBuffer) → Settled p → Settled (add_lines ls p)
unfolding add_lines add_line
add_lines-Settled [] p h = h
add_lines-Settled ([] ∷ ls) p h = add_lines-Settled ls p h
add_lines-Settled ((c ∷ l) ∷ ls) p h =
    add_lines-Settled ls _ (Settled-if _ p _ h (add_field-Settled (split_colon (c ∷ l)) p h))
