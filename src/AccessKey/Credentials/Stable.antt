-- ===== src/AccessKey/Credentials/Stable.antt =====
-- Credentials that the operator generated are kept.
use minio_operator_ext.Base.{
  ℕ, ap, String, Bool, ◌≡◌, ◌⊎◌, inl, inr, refl, false, some, ◌&&◌, if◌then◌else◌, ◌==◌, string_eq,
  Bool-cases, true,
}
use minio_operator_ext.Api.{MinioAccessKey, is_set_ref}
use minio_operator_ext.Client.{ok, Env, Run, Io}
use minio_operator_ext.AccessKey.Credentials.{
  Credentials, named_access_key, named_secret_key, or_current, or_random, desired_access_key,
  desired_secret_key, get_desired_credentials,
}

if_and : {A : Type 0} (t u : Bool) (x y : A) → u ≡ false → (if t && u then x else y) ≡ y
if_and true u x y e = rw e refl
if_and false u x y e = refl

module _ {W : Type 0} (env : Env W) (ak : MinioAccessKey) (c : Credentials) (s : Run W) where
  or_random-keeps :
      (n : ℕ) (migrate : Bool) (key : String)
      → (key == "") ≡ false
      → or_random env n migrate key s ≡ (ok key, s)
  unfolding or_random
  or_random-keeps n migrate key e = rw e refl

  -- What the spec says is the key that there is, or nothing.
  or_current-keeps :
      (field : Credentials → String) (key : String)
      → (key ≡ "") ⊎ (key ≡ field c)
      → or_current env field (some c) key ≡ field c
  unfolding or_current
  or_current-keeps field key (inl e) = rw e refl
  or_current-keeps field key (inr e) = elim (Bool-cases (key == "")) [
    | inl t ↦ rw t refl
    | inr t ↦ rw t e
  ]

  named_access_key-plain :
      is_set_ref ak.spec.access_key_ref ≡ false
      → named_access_key env ak s ≡ (ok ak.spec.access_key, s)
  unfolding named_access_key
  named_access_key-plain e =
      ap (λ (m : Io W String). m s)
        (if_and (ak.spec.access_key == "") (is_set_ref ak.spec.access_key_ref) _ _ e)

  named_secret_key-plain :
      is_set_ref ak.spec.secret_key_ref ≡ false → named_secret_key env ak s ≡ (ok "", s)
  unfolding named_secret_key
  named_secret_key-plain e = rw e refl

  desired_access_key-keeps :
      (ak.spec.access_key ≡ "") ⊎ (ak.spec.access_key ≡ c.access_key)
      → is_set_ref ak.spec.access_key_ref ≡ false
      → (c.access_key == "") ≡ false
      → desired_access_key env ak (some c) s ≡ (ok c.access_key, s)
  unfolding desired_access_key
  desired_access_key-keeps named plain full = rw (named_access_key-plain plain) (
      rw (or_current-keeps (λ c. c.access_key) ak.spec.access_key named)
        (or_random-keeps 20 ak.spec.migrate c.access_key full))

  desired_secret_key-keeps :
      is_set_ref ak.spec.secret_key_ref ≡ false
      → (c.secret_key == "") ≡ false
      → desired_secret_key env ak (some c) s ≡ (ok c.secret_key, s)
  unfolding desired_secret_key
  desired_secret_key-keeps plain full = rw (named_secret_key-plain plain) (
      rw (or_current-keeps (λ c. c.secret_key) "" (inl refl))
        (or_random-keeps 40 ak.spec.migrate c.secret_key full))

  -- Where the spec names no other access key and refers to no secret, the wanted credentials are
  -- those that there are, if neither key of them is empty; finding them touches nothing.
  pub get_desired_credentials-keeps :
      (ak.spec.access_key ≡ "") ⊎ (ak.spec.access_key ≡ c.access_key)
      → is_set_ref ak.spec.access_key_ref ≡ false
      → is_set_ref ak.spec.secret_key_ref ≡ false
      → (c.access_key == "") ≡ false
      → (c.secret_key == "") ≡ false
      → get_desired_credentials env ak (some c) s ≡ (ok c, s)
  unfolding get_desired_credentials
  get_desired_credentials-keeps named a b ca cs = rw (desired_access_key-keeps named a ca) (
      rw (desired_secret_key-keeps b cs) (
        rw ca
          (rw cs (elim (Bool-cases ak.spec.migrate) [ inl t ↦ rw t refl | inr t ↦ rw t refl ]))))
