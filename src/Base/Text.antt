-- ===== src/Base/Text.antt =====
-- The bytes of a Go string (UTF-8), and lists over the native numbers.
use Prim.Native.Nat.{ℕ, zero, suc, ◌+◌, ◌/◌, ◌%◌, ◌^◌}
use Prim.Native.Char.{code}
use Prim.Native.String.{String}
use mathlib.Core.Path.{◌≡◌, refl}
use mathlib.Core.List.{List, [], ◌∷◌, ◌++◌}
use minio_operator_ext.Base.Tests.{if◌then◌else◌, ltb}

module _ {ℓ} {A : Type ℓ} where
  abbrev pub length : List A → ℕ
  length [] = 0
  length (x ∷ xs) = suc (length xs)

  abbrev pub take : ℕ → List A → List A
  take zero xs = []
  take (suc n) [] = []
  take (suc n) (x ∷ xs) = x ∷ take n xs

  abbrev pub get_or : A → List A → ℕ → A
  get_or a [] i = a
  get_or a (x ∷ xs) zero = x
  get_or a (x ∷ xs) (suc i) = get_or a xs i

-- The bytes of one code point.
abbrev pub utf8 : ℕ → List ℕ
utf8 c =
    if ltb c 0x80
    then c ∷ []
    else if ltb c 0x800
    then (0xc0 + c / 2 ^ 6) ∷ (0x80 + c % 64) ∷ []
    else if ltb c 0x10000
    then (0xe0 + c / 2 ^ 12) ∷ (0x80 + c / 2 ^ 6 % 64) ∷ (0x80 + c % 64) ∷ []
    else (0xf0 + c / 2 ^ 18)
      ∷ (0x80 + c / 2 ^ 12 % 64)
      ∷ (0x80 + c / 2 ^ 6 % 64)
      ∷ (0x80 + c % 64)
      ∷ []

-- `[]byte(s)`
unfoldable pub bytes : String → List ℕ
bytes String.[] = []
bytes (String.◌∷◌ c s) = utf8 (code c) ++ bytes s

bytes_example : bytes "aé" ≡ 0x61 ∷ 0xc3 ∷ 0xa9 ∷ []
unfolding bytes
bytes_example = refl
