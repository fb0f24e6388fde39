-- ===== src/Base/Lists.antt =====
-- `slices.Contains`, lookup in a Go map, and a predicate on every element of a list.
use Prim.Native.String.{String}
use mathlib.Core.Bool.{Bool, false, ◌||◌}
use mathlib.Core.Option.{Option, none, some}
use mathlib.Core.List.{List, [], ◌∷◌}
use minio_operator_ext.Base.Tests.{if◌then◌else◌}
use minio_operator_ext.Base.Equality.{Eq, ◌==◌, string_eq}

module _ {ℓ} {T : Type ℓ} ⦃test : Eq T⦄ where
  -- `slices.Contains(s, v)`
  abbrev pub contains : List T → T → Bool
  contains [] v = false
  contains (w ∷ s) v = v == w || contains s v

module _ {ℓ} {V : Type ℓ} where
  -- `v, ok := m[key]`: the first entry of that key.
  abbrev pub lookup : String → List (String × V) → Option V
  lookup key [] = none
  lookup key (entry ∷ rest) =
      let later = lookup key rest in if entry.0 == key then some entry.1 else later

-- `m[k]`: the zero value `z` on a missing key.
abbrev pub index {ℓ} : {V : Type ℓ} → V → String → List (String × V) → V
index z k m = elim (lookup k m) [ none ↦ z | some v ↦ v ]

abbrev pub All {ℓ κ} : {A : Type ℓ} → (A → Type κ) → List A → Type κ
All P [] = Unit
All P (x ∷ xs) = P x × All P xs
