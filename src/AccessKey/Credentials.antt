-- ===== src/AccessKey/Credentials.antt =====
-- The credentials of an access key: how the wanted ones are found, in
-- internal/operator/minio_access_key_reconciler.go.
pub mod Framing
pub mod Stable
use Prim.Native.Nat.{◌^◌}
use mathlib.Core.List.{◌++◌ as append}
use minio_operator_ext.Base.{
  ℕ, ◌/◌, ◌%◌, String, ◌++◌, Bool, not, ◌&&◌, ◌||◌, Option, none, some, List, [], ◌∷◌,
  if◌then◌else◌, lookup, index, length, bytes, ◌==◌, string_eq,
}
use minio_operator_ext.Api.{
  MinioAccessKey, Secret, ResourceKeyRef, set_default_key_namespace, is_set_ref,
}
use minio_operator_ext.Client.{message, Env, Io, ◌>>=◌, ◌>>◌, pure, throw, query}
use minio_operator_ext.AccessKey.Random.{create_random_string}

-- `minioAccessKeyCredentials`
pub record Credentials : Type 0 where
  pub access_key : String
  pub secret_key : String

-- `getCredentialsFromSecret`
unfoldable pub get_credentials_from_secret : Secret → Credentials
get_credentials_from_secret secret = record {
  access_key = index "" "accessKey" secret.contents;
  secret_key = index "" "secretKey" secret.contents;
}

-- `binary.Write(&buf, binary.BigEndian, uint32(n))`
abbrev pub big_endian : ℕ → List ℕ
big_endian n = (n / 2 ^ 24 % 256) ∷ (n / 2 ^ 16 % 256) ∷ (n / 2 ^ 8 % 256) ∷ (n % 256) ∷ []

-- What is hashed of the credentials: each key behind its length.
unfoldable pub hashed_bytes : Credentials → List ℕ
hashed_bytes c = append (big_endian (length (bytes c.access_key))) (
    append (bytes c.access_key)
      (append (big_endian (length (bytes c.secret_key))) (bytes c.secret_key)))

module _ {W : Type 0} (env : Env W) where
  -- `getHash` of credentials
  unfoldable pub credentials_hash : Credentials → String
  credentials_hash c = env.sha256_hex (hashed_bytes c)

  -- The value that a `ResourceKeyRef` points at.
  unfoldable pub read_ref : ResourceKeyRef → String → String → Io W String
  read_ref ref namespace what = do
    let target = set_default_key_namespace ref namespace
    secret ← query (env.get_secret (record { namespace = target.namespace; name = target.name }))
    elim (lookup ref.key secret.contents) [
      | none ↦ throw (message (what ++ " ref has no key " ++ ref.key))
      | some v ↦ pure v
    ]

  -- `if key == "" && current != nil { key = current.… }`
  unfoldable pub or_current : (Credentials → String) → Option Credentials → String → String
  or_current field none key = key
  or_current field (some c) key = if key == "" then field c else key

  -- `if key == "" && !migrate { key, err = r.createRandomString(n) }`
  unfoldable pub or_random : ℕ → Bool → String → Io W String
  or_random n migrate key =
      if key == "" && not migrate then create_random_string env n else pure key

  -- What the spec says of each key itself: "" if nothing.
  unfoldable pub named_access_key : MinioAccessKey → Io W String
  named_access_key ak =
      if ak.spec.access_key == "" && is_set_ref ak.spec.access_key_ref
      then read_ref ak.spec.access_key_ref ak.meta.namespace "access key"
      else pure ak.spec.access_key

  unfoldable pub named_secret_key : MinioAccessKey → Io W String
  named_secret_key ak =
      if is_set_ref ak.spec.secret_key_ref
      then read_ref ak.spec.secret_key_ref ak.meta.namespace "secret key"
      else pure ""

  -- The access key: of the spec, of its reference, of the generated secret, or a new one.
  unfoldable pub desired_access_key : MinioAccessKey → Option Credentials → Io W String
  desired_access_key ak current = do
    named ← named_access_key ak
    or_random 20 ak.spec.migrate (or_current (λ c. c.access_key) current named)

  -- The secret key: of the reference, of the generated secret, or a new one.
  unfoldable pub desired_secret_key : MinioAccessKey → Option Credentials → Io W String
  desired_secret_key ak current = do
    named ← named_secret_key ak
    or_random 40 ak.spec.migrate (or_current (λ c. c.secret_key) current named)

  -- `getDesiredCredentials`
  unfoldable pub get_desired_credentials : MinioAccessKey → Option Credentials → Io W Credentials
  get_desired_credentials ak current = do
    access_key ← desired_access_key ak current
    secret_key ← desired_secret_key ak current
    if ak.spec.migrate && (access_key == "" || secret_key == "")
        then throw (message "cannot determine desired credentials for migrated access key")
        else pure (record { access_key = access_key; secret_key = secret_key })
