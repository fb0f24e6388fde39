-- ===== src/AccessKey/Credentials/Framing.antt =====
-- The bytes that `getHash` of credentials hashes tell the credentials apart: each key stands behind
-- its length, so that no two pairs of keys run together.
use Prim.Native.Nat.{◌^◌, ◌<◌}
use mathlib.Core.List.{◌++◌ as append}
use minio_operator_ext.Base.{ℕ, ◌/◌, ◌%◌, ◌≡◌, refl, ap, List, [], ◌∷◌, length, bytes, arith}
use minio_operator_ext.AccessKey.Credentials.{Credentials, big_endian, hashed_bytes}

append-injective :
    {A : Type 0} (xs ys us vs : List A)
    → length xs ≡ length ys
    → append xs us ≡ append ys vs
    → (xs ≡ ys) × (us ≡ vs)
append-injective [] [] us vs l e = (refl, e)
append-injective [] (y ∷ ys) us vs l e = absurd (omega arith)
append-injective (x ∷ xs) [] us vs l e = absurd (omega arith)
append-injective (x ∷ xs) (y ∷ ys) us vs l e =
    let (p, q) = append-injective xs ys us vs (omega arith) (cc) in (cc, q)

-- Four bytes hold every length below 2 ^ 32.
big_endian-injective : (m n : ℕ) → m < 2 ^ 32 → n < 2 ^ 32 → big_endian m ≡ big_endian n → m ≡ n
big_endian-injective m n hm hn e =
    let a : m / 2 ^ 24 % 256 ≡ n / 2 ^ 24 % 256 = cc in
    let b : m / 2 ^ 16 % 256 ≡ n / 2 ^ 16 % 256 = cc in
    let c : m / 2 ^ 8 % 256 ≡ n / 2 ^ 8 % 256 = cc in let d : m % 256 ≡ n % 256 = cc in omega arith

-- A framed text in front of a rest.
framed-injective :
    (xs ys us vs : List ℕ)
    → length xs < 2 ^ 32
    → length ys < 2 ^ 32
    → append (big_endian (length xs)) (append xs us)
      ≡ append (big_endian (length ys)) (append ys vs)
    → (xs ≡ ys) × (us ≡ vs)
framed-injective xs ys us vs hx hy e =
    let (p, q) =
      append-injective (big_endian (length xs)) (big_endian (length ys)) (append xs us)
        (append ys vs) refl e in
    append-injective xs ys us vs (big_endian-injective (length xs) (length ys) hx hy p) q

append-nil : {A : Type 0} (xs : List A) → append xs [] ≡ xs
append-nil [] = refl
append-nil (x ∷ xs) = ap (λ l. x ∷ l) (append-nil xs)

-- Credentials with keys below 4 GiB that are hashed from the same bytes have the same bytes in the
-- access key and in the secret key.
pub hashed_bytes-injective :
    (c d : Credentials)
    → length (bytes c.access_key) < 2 ^ 32
    → length (bytes d.access_key) < 2 ^ 32
    → length (bytes c.secret_key) < 2 ^ 32
    → length (bytes d.secret_key) < 2 ^ 32
    → hashed_bytes c ≡ hashed_bytes d
    → (bytes c.access_key ≡ bytes d.access_key) × (bytes c.secret_key ≡ bytes d.secret_key)
unfolding hashed_bytes
hashed_bytes-injective c d ca da cs ds e =
    let (p, rest) =
      framed-injective (bytes c.access_key) (bytes d.access_key)
        (append (big_endian (length (bytes c.secret_key))) (bytes c.secret_key))
        (append (big_endian (length (bytes d.secret_key))) (bytes d.secret_key)) ca da e in
    let (q, _) =
      framed-injective (bytes c.secret_key) (bytes d.secret_key) [] [] cs ds
        (rw (append-nil (bytes c.secret_key)) (rw (append-nil (bytes d.secret_key)) rest)) in
    (p, q)
