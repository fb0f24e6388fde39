-- ===== src/AccessKey/Actions/Secrets.antt =====
-- `createCredentialsSecret` and `updateCredentialsSecret` of
-- internal/operator/minio_access_key_reconciler.go.
use minio_operator_ext.Base.{
  false, not, Option, none, some, [], ◌∷◌, if◌then◌else◌, ◌==◌, string_eq, option_eq,
}
use minio_operator_ext.Api.{MinioAccessKey, MinioAccessKeySpec, Secret, time_eq}
use minio_operator_ext.Client.{
  Op, ok, err, Env, Io, ◌>>=◌, ◌>>◌, pure, throw, lift, deref, perform, attempt,
}
use minio_operator_ext.AccessKey.Credentials.{
  get_credentials_from_secret, credentials_hash, get_desired_credentials,
}
use minio_operator_ext.AccessKey.Actions.Calls.{
  set_current_spec, update, delete_secret, find_secret,
}

module _ {W : Type 0} (env : Env W) where
  -- `createCredentialsSecret`
  unfoldable pub create_credentials_secret : MinioAccessKey → Io W Secret
  create_credentials_secret ak = do
    creds ← get_desired_credentials env ak none
    let fresh : Secret = record {
      meta = record {
        name = ak.spec.secret_name;
        namespace = ak.meta.namespace;
        resource_version = "";
        deletion_timestamp = none;
        finalizers = [];
      };
      owned = false;
      contents = ("accessKey", creds.access_key) ∷ ("secretKey", creds.secret_key) ∷ [];
      string_data = [];
    }
    secret ← lift (env.set_owner_reference ak fresh)
    perform (Op.create_secret secret) (env.create_secret secret)

  -- The secret that `r.Delete` is given where `r.Get` found none: an empty object.
  abbrev empty_secret : Secret
  empty_secret = record {
    meta = record {
      name = "";
      namespace = "";
      resource_version = "";
      deletion_timestamp = none;
      finalizers = [];
    };
    owned = false;
    contents = [];
    string_data = [];
  }

  -- The old secret is deleted; that it is gone already is no error.
  unfoldable pub delete_old_secret : Option Secret → Io W (Unit {0})
  delete_old_secret found = do
    let old : Secret = elim found [ none ↦ empty_secret | some secret ↦ secret ]
    deleted ← attempt (delete_secret env old)
    elim deleted [ ok _ ↦ pure tt | err e ↦ if env.is_not_found e then pure tt else throw e ]

  -- The secret was renamed: the old one is deleted, and the status has the new name.
  unfoldable pub rename_secret :
      MinioAccessKey → MinioAccessKeySpec → Option Secret → Io W MinioAccessKey
  rename_secret ak current found = do
    delete_old_secret found
    update env (set_current_spec ak (some (record current { secret_name = ak.spec.secret_name })))

  -- The secret exists: it is written again if the wanted credentials are others.
  unfoldable pub refresh_secret : MinioAccessKey → Secret → Io W Secret
  refresh_secret ak secret = do
    let current = get_credentials_from_secret secret
    desired ← get_desired_credentials env ak (some current)
    if credentials_hash env current == credentials_hash env desired then pure secret else (do
      let changed : Secret = record secret {
        string_data = ("accessKey", desired.access_key) ∷ ("secretKey", desired.secret_key) ∷ [];
      }
      perform (Op.update_secret changed) (env.update_secret changed))

  -- A renamed secret is made again.
  unfoldable pub replace_secret :
      MinioAccessKey → MinioAccessKeySpec → Option Secret → Io W (Secret × MinioAccessKey)
  replace_secret ak current found = do
    ak2 ← rename_secret ak current found
    secret ← create_credentials_secret ak2
    pure (secret, ak2)

  -- A secret that is gone is made again, one that is there is refreshed.
  unfoldable pub keep_secret : MinioAccessKey → Option Secret → Io W (Secret × MinioAccessKey)
  keep_secret ak found = elim found [
    | none ↦ (do secret ← create_credentials_secret ak; pure (secret, ak))
    | some old ↦ (do secret ← refresh_secret ak old; pure (secret, ak))
  ]

  -- `updateCredentialsSecret`: the secret, and the resource as it was written.
  unfoldable pub update_credentials_secret : MinioAccessKey → Io W (Secret × MinioAccessKey)
  update_credentials_secret ak = do
    current ← deref ak.status.current_spec
    found ← find_secret env ak.meta current.secret_name
    if not (ak.spec.secret_name == current.secret_name)
        then replace_secret ak current found
        else keep_secret ak found
