-- ===== src/Grpc/Percent.antt =====
-- A percent coding of texts in ASCII, in place of the crate's that volo-grpc/src/status.rs uses.
use volo.Base.{
  ◌++◌, ℕ, ◌+◌, ◌-◌, ◌*◌, ◌/◌, ◌%◌, ◌<◌, ◌≡◌, refl, ◌∙◌, ap, Bool, true, false, ◌||◌, ◌&&◌, ◌==◌,
  ltb, leb, ◌⊎◌, inl, inr, Bool-cases, [], ◌∷◌, Option, none, some, if◌then◌else◌, arith,
}
use volo.Base.Bytes.{Bytes}
use volo.Grpc.Trailers.Escapes.{AsciiSet, IsPercent, has_percent, is_raw}

unfoldable pub is_ascii : Bytes → Bool
is_ascii [] = true
is_ascii (b ∷ bytes) = ltb b 128 && is_ascii bytes

unfoldable pub hex : ℕ → ℕ
hex d = if ltb d 10 then 48 + d else 55 + d

unfoldable pub unhex : ℕ → Option ℕ
unhex c =
    if leb 48 c && leb c 57
    then some (c - 48)
    else if leb 65 c && leb c 70
    then some (c - 55)
    else if leb 97 c && leb c 102
    then some (c - 87)
    else none

unfoldable pub pair : Option ℕ → Option ℕ → Option ℕ
pair none l = none
pair (some h) none = none
pair (some h) (some l) = some (16 * h + l)

unfoldable pub escaped : ℕ → ℕ → ℕ → Option ℕ
escaped b h l = if b == 37 then pair (unhex h) (unhex l) else none

unfoldable pub percent_encode : AsciiSet → Bytes → Bytes
percent_encode set [] = []
percent_encode set (b ∷ bytes) =
    let rest = percent_encode set bytes in
    if set b || leb 128 b then 37 ∷ hex (b / 16) ∷ hex (b % 16) ∷ rest else b ∷ rest

unfoldable pub choose : ℕ → Bytes → Bytes → Option ℕ → Bytes
choose b raw behind none = b ∷ raw
choose b raw behind (some v) = v ∷ behind

unfoldable pub decoded : Bytes → Bytes
decoded [] = []
decoded (b ∷ []) = b ∷ []
decoded (b ∷ c ∷ []) = b ∷ c ∷ []
decoded (b ∷ h ∷ l ∷ bytes) = choose b (decoded (h ∷ l ∷ bytes)) (decoded bytes) (escaped b h l)

abbrev pub percent_decode : Bytes → Option Bytes
percent_decode bytes = some (decoded bytes)

unhex-hex : (d : ℕ) → d < 16 → unhex (hex d) ≡ some d
unfolding unhex hex
unhex-hex d h = ground arith

decoded-raw : (b : ℕ) (bytes : Bytes) → (b == 37) ≡ false → decoded (b ∷ bytes) ≡ b ∷ decoded bytes
unfolding decoded choose escaped
decoded-raw b [] h = refl
decoded-raw b (c ∷ []) h = refl
decoded-raw b (c ∷ d ∷ bytes) h = rw (h) refl

decoded-escaped :
    (b : ℕ) (bytes : Bytes)
    → b < 128
    → decoded (37 ∷ hex (b / 16) ∷ hex (b % 16) ∷ bytes) ≡ b ∷ decoded bytes
unfolding decoded choose escaped pair
decoded-escaped b bytes h =
    rw (unhex-hex (b / 16) (omega arith), unhex-hex (b % 16) (omega arith))
      (ap (λ v. v ∷ decoded bytes) (omega arith))

raw_percent :
    (set : AsciiSet) (b : ℕ) (later : Bool)
    → (set 37 ≡ true) ⊎ ((b == 37 || later) ≡ false)
    → (set b || leb 128 b) ≡ false
    → (b == 37) ≡ false
raw_percent set b later (inr p) e = ground (arith, p)
raw_percent set b later (inl s) e = elim (Bool-cases (b == 37)) [
  | inl k ↦
      let same : b ≡ 37 = ground (arith, k) in
      let kept : set b ≡ true = ap set same ∙ s in absurd (ground (arith, kept, e))
  | inr k ↦ k
]

decoded-percent_encode :
    (set : AsciiSet) (m : Bytes)
    → is_ascii m ≡ true
    → (set 37 ≡ true) ⊎ (has_percent m ≡ false)
    → decoded (percent_encode set m) ≡ m
unfolding percent_encode decoded is_ascii has_percent
decoded-percent_encode set [] ascii h = refl
decoded-percent_encode set (b ∷ m) ascii h =
    let rest =
      decoded-percent_encode set m (ground (arith, ascii))
        (elim h [ inl s ↦ inl s | inr p ↦ inr (ground (arith, p)) ]) in
    elim (Bool-cases (set b || leb 128 b)) [
      | inl e ↦
          rw (e)
            (decoded-escaped b (percent_encode set m) (ground (arith, ascii)) ∙ ap (◌∷◌ b) rest)
      | inr e ↦ rw (e) (
          decoded-raw b (percent_encode set m) (raw_percent set b (has_percent m) h e)
          ∙ ap (◌∷◌ b) rest)
    ]

percent_encode-raw : (set : AsciiSet) (m : Bytes) → is_raw set m ≡ true → percent_encode set m ≡ m
unfolding percent_encode is_raw
percent_encode-raw set [] h = refl
percent_encode-raw set (b ∷ m) h =
    let rest = percent_encode-raw set m (ground (arith, h)) in
    let outside : (set b || leb 128 b) ≡ false = ground (arith, h) in rw (outside) (ap (◌∷◌ b) rest)

decoded-append : (a b : Bytes) → has_percent a ≡ false → decoded (a ++ b) ≡ a ++ decoded b
unfolding has_percent
decoded-append [] b h = refl
decoded-append (x ∷ a) b h =
    decoded-raw x (a ++ b) (ground (arith, h)) ∙ ap (◌∷◌ x) (decoded-append a b (ground (arith, h)))

some_inj : (x y : Bytes) → some x ≡ some y → x ≡ y
some_inj x y h = cc

decoded-space :
    (a b c : Bytes)
    → has_percent a ≡ false
    → decoded b ≡ c
    → decoded (a ++ (37 ∷ 50 ∷ 48 ∷ b)) ≡ a ++ (32 ∷ c)
unfolding decoded choose escaped pair unhex
decoded-space a b c plain h = decoded-append a (37 ∷ 50 ∷ 48 ∷ b) plain ∙ ap (λ t. a ++ (32 ∷ t)) h

pub decoded-IsPercent : IsPercent percent_encode percent_decode is_ascii
decoded-IsPercent = record {
  decodes = λ set m ascii h. ap some (decoded-percent_encode set m ascii h);
  keeps_raw = percent_encode-raw;
  reads_space = λ a b c ascii plain h. ap some (decoded-space a b c plain (some_inj _ _ h));
}
