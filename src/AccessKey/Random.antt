-- ===== src/AccessKey/Random.antt =====
-- `createRandomString` of internal/operator/minio_access_key_reconciler.go: random bytes written in
-- Crockford's base32 without padding, and cut to a length.
pub mod Length
use Prim.Native.String.{String}
use mathlib.Core.List.{map}
use minio_operator_ext.Base.{
  ℕ, zero, suc, ◌+◌, ◌*◌, ◌/◌, ◌%◌, ◌++◌, List, [], ◌∷◌, ltb, if◌then◌else◌, length, take, get_or,
}
use minio_operator_ext.Client.{out_of_range, Env, Io, ◌>>=◌, pure, throw, query}

-- `(length*5 + 7) / 8`
abbrev pub num_bytes : ℕ → ℕ
num_bytes n = (n * 5 + 7) / 8

-- The five-bit digits of `base32` without padding: eight for five bytes, and for one to four bytes
-- at the end as many as hold them.
unfoldable pub digits : List ℕ → List ℕ
digits [] = []
digits (a ∷ []) = (a / 8) ∷ (a % 8 * 4) ∷ []
digits (a ∷ b ∷ []) = (a / 8) ∷ (a % 8 * 4 + b / 64) ∷ (b / 2 % 32) ∷ (b % 2 * 16) ∷ []
digits (a ∷ b ∷ c ∷ []) =
    (a / 8) ∷ (a % 8 * 4 + b / 64) ∷ (b / 2 % 32) ∷ (b % 2 * 16 + c / 16) ∷ (c % 16 * 2) ∷ []
digits (a ∷ b ∷ c ∷ d ∷ []) =
    (a / 8)
    ∷ (a % 8 * 4 + b / 64)
    ∷ (b / 2 % 32)
    ∷ (b % 2 * 16 + c / 16)
    ∷ (c % 16 * 2 + d / 128)
    ∷ (d / 4 % 32)
    ∷ (d % 4 * 8)
    ∷ []
digits (a ∷ b ∷ c ∷ d ∷ e ∷ rest) =
    (a / 8)
    ∷ (a % 8 * 4 + b / 64)
    ∷ (b / 2 % 32)
    ∷ (b % 2 * 16 + c / 16)
    ∷ (c % 16 * 2 + d / 128)
    ∷ (d / 4 % 32)
    ∷ (d % 4 * 8 + e / 32)
    ∷ (e % 32)
    ∷ digits rest

abbrev alphabet : List String
alphabet =
    "0" ∷ "1" ∷ "2" ∷ "3" ∷ "4" ∷ "5" ∷ "6" ∷ "7" ∷ "8" ∷ "9" ∷ "A" ∷ "B" ∷ "C" ∷ "D" ∷ "E" ∷ "F"
    ∷ "G" ∷ "H" ∷ "J" ∷ "K" ∷ "M" ∷ "N" ∷ "P" ∷ "Q" ∷ "R" ∷ "S" ∷ "T" ∷ "V" ∷ "W" ∷ "X" ∷ "Y" ∷ "Z"
    ∷ []

-- The text of the digits.
unfoldable pub symbols : List ℕ → String
symbols [] = ""
symbols (d ∷ ds) = get_or "" alphabet d ++ symbols ds

module _ {W : Type 0} (env : Env W) where
  -- The digits of the key: `crockford.EncodeToString(buf)[:length]`, which panics if `buf` is
  -- too short.
  unfoldable pub random_digits : ℕ → Io W (List ℕ)
  unfolding digits
  random_digits n = do
    buf ← query (env.rand_read (num_bytes n))
    if ltb (length (digits buf)) n then throw out_of_range else pure (take n (digits buf))

  -- `createRandomString`
  unfoldable pub create_random_string : ℕ → Io W String
  unfolding random_digits symbols
  create_random_string n = do ds ← random_digits n; pure (symbols ds)
