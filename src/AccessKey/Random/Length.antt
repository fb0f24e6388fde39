-- ===== src/AccessKey/Random/Length.antt =====
-- A random key has the length that is asked for, and no slice of it is out of range.
use Prim.Native.Nat.{◌≤◌, ◌<◌}
use minio_operator_ext.Base.{
  ℕ, zero, suc, ◌*◌, ◌≡◌, refl, List, [], ◌∷◌, ltb, false, length, take, All, arith,
}
use minio_operator_ext.Client.{ok, Env, Run}
use minio_operator_ext.AccessKey.Random.{num_bytes, digits, random_digits}

-- Five bits for each digit hold the bytes.
digits-length : (l : List ℕ) → 8 * length l ≤ 5 * length (digits l)
unfolding digits
digits-length [] = omega arith
digits-length (a ∷ []) = omega arith
digits-length (a ∷ b ∷ []) = omega arith
digits-length (a ∷ b ∷ c ∷ []) = omega arith
digits-length (a ∷ b ∷ c ∷ d ∷ []) = omega arith
digits-length (a ∷ b ∷ c ∷ d ∷ e ∷ rest) = let ih = digits-length rest in omega arith

-- Every digit of bytes has five bits.
digits-All : (l : List ℕ) → All (λ x. x < 256) l → All (λ x. x < 32) (digits l)
unfolding digits
digits-All [] _ = tt
digits-All (a ∷ []) (p, _) = (omega arith, (omega arith, tt))
digits-All (a ∷ b ∷ []) (p, (q, _)) = (omega arith, (omega arith, (omega arith, (omega arith, tt))))
digits-All (a ∷ b ∷ c ∷ []) (p, (q, (t, _))) =
    (omega arith, (omega arith, (omega arith, (omega arith, (omega arith, tt)))))
digits-All (a ∷ b ∷ c ∷ d ∷ []) (p, (q, (t, (u, _)))) = (
  omega arith,
  (omega arith, (omega arith, (omega arith, (omega arith, (omega arith, (omega arith, tt)))))),
)
digits-All (a ∷ b ∷ c ∷ d ∷ e ∷ rest) (p, (q, (t, (u, (x, more))))) = (
  omega arith,
  (
    omega arith,
    (
      omega arith,
      (
        omega arith,
        (omega arith, (omega arith, (omega arith, (omega arith, digits-All rest more)))),
      ),
    ),
  ),
)

take-length : (n : ℕ) (l : List ℕ) → n ≤ length l → length (take n l) ≡ n
take-length zero l h = refl
take-length (suc n) [] h = omega arith
take-length (suc n) (x ∷ l) h = let ih = take-length n l (omega arith) in omega arith

take-All : (P : ℕ → Type 0) (n : ℕ) (l : List ℕ) → All P l → All P (take n l)
take-All P zero l h = tt
take-All P (suc n) [] h = tt
take-All P (suc n) (x ∷ l) (p, h) = (p, take-All P n l h)

-- The bytes that are asked for are enough.
enough : (n : ℕ) (buf : List ℕ) → length buf ≡ num_bytes n → n ≤ length (digits buf)
enough n buf e = let h = digits-length buf in omega arith

ltb-false : (m n : ℕ) → n ≤ m → ltb m n ≡ false
ltb-false m n h = grind arith

module _ {W : Type 0} (env : Env W) where
  -- Given as many random bytes as it asks for, `createRandomString(n)` does not slice out of range:
  -- it takes exactly n digits, each of five bits.
  pub random_digits-length :
      (n : ℕ) (buf : List ℕ) (s : Run W)
      → (env.rand_read (num_bytes n) s.world).0 ≡ ok buf
      → length buf ≡ num_bytes n
      → All (λ x. x < 256) buf
      → ((random_digits env n s).0 ≡ ok (take n (digits buf)))
        × (length (take n (digits buf)) ≡ n)
        × All (λ x. x < 32) (take n (digits buf))
  unfolding random_digits
  random_digits-length n buf s e l small = (
    rw e (rw (ltb-false (length (digits buf)) n (enough n buf l)) refl),
    take-length n (digits buf) (enough n buf l),
    take-All (λ x. x < 32) n (digits buf) (digits-All buf small),
  )
