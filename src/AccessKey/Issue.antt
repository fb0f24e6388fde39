-- ===== src/AccessKey/Issue.antt =====
-- The secret that is created for an access key holds the credentials that were wanted.
use minio_operator_ext.Base.{◌≡◌, refl, sym, ◌∙◌, false, none, [], ◌∷◌}
use minio_operator_ext.Api.{MinioAccessKey, Secret}
use minio_operator_ext.Client.{ok, Env, Run, lift, >>=-Ensures}
use minio_operator_ext.AccessKey.Credentials.{
  Credentials, get_desired_credentials, get_credentials_from_secret,
}
use minio_operator_ext.AccessKey.Actions.{create_credentials_secret}

-- `controllerutil.SetOwnerReference` leaves the data of a secret alone, and the API server stores it
-- as it was sent, where no `StringData` is merged in.
pub record KeepsData {W : Type 0} (env : Env W) : Type 0 where
  pub owned :
      (ak : MinioAccessKey) (s s' : Secret)
      → env.set_owner_reference ak s ≡ ok s'
      → (s'.contents ≡ s.contents) × (s'.string_data ≡ s.string_data)
  pub created :
      (s s' : Secret) (w : W)
      → s.string_data ≡ []
      → (env.create_secret s w).0 ≡ ok s'
      → s'.contents ≡ s.contents

module _ {W : Type 0} (env : Env W) where
  held :
      (creds : Credentials) (secret : Secret)
      → secret.contents ≡ ("accessKey", creds.access_key) ∷ ("secretKey", creds.secret_key) ∷ []
      → get_credentials_from_secret secret ≡ creds
  unfolding get_credentials_from_secret
  held creds secret e = rw e refl

  -- Given an owner reference and an API server that leave the data of a secret alone: where a
  -- secret is created for an access key, the credentials that are read from it are the ones that
  -- were wanted before.
  pub create_credentials_secret-get_credentials_from_secret :
      KeepsData env
      → (ak : MinioAccessKey) (s : Run W) (secret : Secret)
      → (create_credentials_secret env ak s).0 ≡ ok secret
      → (get_desired_credentials env ak none s).0 ≡ ok (get_credentials_from_secret secret)
  unfolding create_credentials_secret
  create_credentials_secret-get_credentials_from_secret keeps ak s =
      let P : Secret → Run W → Type 0 = λ secret _.
        (get_desired_credentials env ak none s).0 ≡ ok (get_credentials_from_secret secret) in
      >>=-Ensures (λ creds _. (get_desired_credentials env ak none s).0 ≡ ok creds) P
        (get_desired_credentials env ak none) _ s (λ _ e. e)
        (λ creds s1 wanted.
          let fresh : Secret = record {
            meta = record {
              name = ak.spec.secret_name;
              namespace = ak.meta.namespace;
              resource_version = "";
              deletion_timestamp = none;
              finalizers = [];
            };
            owned = false;
            contents = ("accessKey", creds.access_key) ∷ ("secretKey", creds.secret_key) ∷ [];
            string_data = [];
          } in
          >>=-Ensures (λ sent _. (sent.contents ≡ fresh.contents) × (sent.string_data ≡ [])) P
            (lift (env.set_owner_reference ak fresh)) _ s1 (λ sent e. keeps.owned ak fresh sent e)
            (λ sent s2 same secret e.
              let stored = keeps.created sent secret s2.world same.1 e in
              wanted ∙ (λ i. ok (sym (held creds secret (stored ∙ same.0)) i))))
