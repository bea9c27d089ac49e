-- ===== src/Base/Maps.antt =====
-- A hash map as an association list with one entry for each key.
use Prim.Native.Nat.{ℕ}
use mathlib.Core.Path.{◌≡◌, refl, sym, ◌∙◌}
use mathlib.Core.Logic.{◌↔◌, ◌⊎◌, inl, inr}
use mathlib.Core.Bool.{Bool, true, false}
use mathlib.Core.Option.{Option, none, some}
use mathlib.Core.List.{List, [], ◌∷◌}
use native.Mathlib.Omega.{arith}
use volo.Base.Tests.{if◌then◌else◌, ◌==◌ as nat_beq, ==_iff}
use volo.Base.Bytes.{Bytes, eqb, eqb_iff}

pub record Eq {ℓ} (A : Type ℓ) : Type ℓ where
  pub beq : A → A → Bool
  pub beq_iff : (a b : A) → (beq a b ≡ true) ↔ (a ≡ b)

instance abbrev pub nat_eq : Eq ℕ
nat_eq = record { beq = nat_beq; beq_iff = ==_iff }

instance abbrev pub bytes_eq : Eq Bytes
bytes_eq = record { beq = eqb; beq_iff = eqb_iff }

abbrev pub Map : Type 0 → Type 0 → Type 0
Map K V = List (K × V)

if_some :
    {A : Type 0} (b : Bool) (new old : A) (o : Option A)
    → (if b then some new else o) ≡ some old
    → (new ≡ old) ⊎ (o ≡ some old)
if_some true new old o h = inl cc
if_some false new old o h = inr h

module _ {K : Type 0} {V : Type 0} ⦃e : Eq K⦄ where
  unfoldable pub lookup : K → Map K V → Option V
  lookup k [] = none
  lookup k ((j, v) ∷ m) = if e.beq j k then some v else lookup k m

  unfoldable pub insert : K → V → Map K V → Map K V
  insert k v [] = (k, v) ∷ []
  insert k v ((j, w) ∷ m) = if e.beq j k then (k, v) ∷ m else (j, w) ∷ insert k v m

  unfoldable pub remove : K → Map K V → Map K V
  remove k [] = []
  remove k ((j, v) ∷ m) = if e.beq j k then remove k m else (j, v) ∷ remove k m

  pub lookup-insert :
      (k j : K) (v : V) (m : Map K V)
      → lookup j (insert k v m) ≡ (if e.beq k j then some v else lookup j m)
  unfolding lookup insert
  lookup-insert k j v [] = refl
  lookup-insert k j v ((i, w) ∷ m) =
      ground (arith, e.beq_iff k j, e.beq_iff i k, e.beq_iff i j, lookup-insert k j v m)

  pub lookup-remove :
      (k j : K) (m : Map K V) → lookup j (remove k m) ≡ (if e.beq k j then none else lookup j m)
  unfolding lookup remove
  lookup-remove k j [] = ground arith
  lookup-remove k j ((i, w) ∷ m) =
      ground (arith, e.beq_iff k j, e.beq_iff i k, e.beq_iff i j, lookup-remove k j m)

  pub lookup-insert-some :
      (k j : K) (v w : V) (m : Map K V)
      → lookup j (insert k v m) ≡ some w
      → (v ≡ w) ⊎ (lookup j m ≡ some w)
  lookup-insert-some k j v w m h =
      if_some (e.beq k j) v w (lookup j m) (sym (lookup-insert k j v m) ∙ h)

  pub lookup-remove-some :
      (k j : K) (w : V) (m : Map K V) → lookup j (remove k m) ≡ some w → lookup j m ≡ some w
  lookup-remove-some k j w m h = kept (e.beq k j) (sym (lookup-remove k j m) ∙ h)
    where
      kept : (b : Bool) → (if b then none else lookup j m) ≡ some w → lookup j m ≡ some w
      kept true g = absurd cc
      kept false g = g
