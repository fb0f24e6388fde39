-- ===== src/AccessKey/Actions.antt =====
-- `createAccessKey`, `updateAccessKey` and `deleteAccessKey` of
-- internal/operator/minio_access_key_reconciler.go.
pub mod Calls
pub mod Secrets
unfoldable pub use Calls.*
unfoldable pub use Secrets.*
use minio_operator_ext.Base.{not, ◌&&◌, ◌||◌, none, some, if◌then◌else◌, ◌==◌, string_eq, option_eq}
use minio_operator_ext.Api.{
  MinioAccessKey, MinioAccessKeySpec, Secret, Connection, InfoServiceAccountResp, time_eq,
}
use minio_operator_ext.Client.{
  ok, err, error_of, is_madmin_error_code, ignore_madmin_error_code, Env, Io, ◌>>=◌, ◌>>◌, pure,
  throw, lift, deref, query, attempt, check,
}
use minio_operator_ext.Tenant.{admin_client_of}
use minio_operator_ext.Reconciler.{Reconciler}
use minio_operator_ext.AccessKey.Credentials.{Credentials, get_credentials_from_secret}

module _ {W : Type 0} (env : Env W) (r : Reconciler) where
  -- `createAccessKey`
  unfoldable pub create_access_key : MinioAccessKey → Secret → Io W (Unit {0})
  create_access_key ak secret = do
    mtac ← admin_client_of env ak.spec.tenant_ref ak.meta.namespace r.minio_operator_namespace
    let creds = get_credentials_from_secret secret
    policy ← marshal_spec_policy env ak.spec.policy
    let ldap = not (ak.spec.user.ldap == "")
    added ← attempt (
        add_service_account env ldap mtac (record {
          access_key = creds.access_key;
          description = ak.spec.description;
          expiration = ak.spec.expiration;
          name = ak.spec.name;
          secret_key = creds.secret_key;
          policy = policy;
          target_user = if ldap then ak.spec.user.ldap else ak.spec.user.builtin;
        }))
    elim added [
      | ok _ ↦ pure tt
      | err e ↦
          if says env e "service account access key already taken" && ak.spec.migrate
          then pure tt
          else throw e
    ]

  -- `deleteAccessKey`: nothing can be deleted without the secret.
  unfoldable pub delete_access_key : MinioAccessKey → Io W (Unit {0})
  delete_access_key ak = elim ak.status.current_spec [
    | none ↦ pure tt
    | some current ↦ (do
      found ← find_secret env ak.meta current.secret_name
      elim found [
        | none ↦ pure tt
        | some secret ↦ (do
          mtac ← admin_client_of env current.tenant_ref ak.meta.namespace r.minio_operator_namespace
          let creds = get_credentials_from_secret secret
          deleted ← attempt (delete_service_account env mtac creds.access_key)
          check (ignore_madmin_error_code (error_of deleted) "XMinioInvalidIAMCredentials"))
      ])
  ]

  -- The secret of the status is deleted, if there is one.
  unfoldable pub delete_current_secret : MinioAccessKey → MinioAccessKeySpec → Io W (Unit {0})
  delete_current_secret ak current = do
    found ← find_secret env ak.meta current.secret_name
    elim found [ none ↦ pure tt | some secret ↦ delete_secret env secret ]

  -- The access key is gone from MinIO: the secret is deleted, and the status cleared.
  unfoldable pub forget_access_key : MinioAccessKey → MinioAccessKeySpec → Io W MinioAccessKey
  forget_access_key ak current = do
    delete_current_secret ak current
    update env (set_current_spec ak none)

  -- MinIO's access key is made what the status says, where it differs.
  unfoldable pub restore_access_key :
      Connection → Credentials → InfoServiceAccountResp → MinioAccessKeySpec → Io W (Unit {0})
  restore_access_key mtac creds msa current = do
    policy ← remote_policy env msa
    if remote_differs env msa policy current
        then (do
          text ← lift (env.marshal_policy current.policy.statement current.policy.version)
          update_service_account env mtac creds.access_key (record {
            new_description = current.description;
            new_expiration = current.expiration;
            new_name = current.name;
            new_policy = some text;
            new_secret_key = creds.secret_key;
          }))
        else pure tt

  -- MinIO's access key is made what the spec says, where that or the secret has changed.
  unfoldable pub apply_spec :
      Connection → Credentials → Secret → MinioAccessKey → MinioAccessKeySpec → Io W (Unit {0})
  apply_spec mtac creds secret ak current =
      if spec_differs env current ak.spec
        || not (secret.meta.resource_version == ak.status.current_secret_resource_version)
      then (do
        policy ← marshal_spec_policy env ak.spec.policy
        update_service_account env mtac creds.access_key (record {
          new_description = ak.spec.description;
          new_expiration = ak.spec.expiration;
          new_name = ak.spec.name;
          new_policy = policy;
          new_secret_key = creds.secret_key;
        }))
      else pure tt

  -- The access key exists: it is brought up to date.
  unfoldable pub sync_access_key :
      Connection
      → Secret
      → MinioAccessKey
      → MinioAccessKeySpec
      → InfoServiceAccountResp
      → Io W MinioAccessKey
  sync_access_key mtac secret ak current msa = do
    restore_access_key mtac (get_credentials_from_secret secret) msa current
    apply_spec mtac (get_credentials_from_secret secret) secret ak current
    pure ak

  -- It is looked up, and forgotten if it is gone.
  unfoldable pub look_up_access_key :
      Connection → Secret → MinioAccessKey → MinioAccessKeySpec → Io W MinioAccessKey
  look_up_access_key mtac secret ak current = do
    info ←
        attempt
          (query (env.info_service_account mtac (get_credentials_from_secret secret).access_key))
    check (ignore_madmin_error_code (error_of info) "XMinioInvalidIAMCredentials")
    if is_madmin_error_code (error_of info) "XMinioInvalidIAMCredentials"
        then forget_access_key ak current
        else (lift info >>= sync_access_key mtac secret ak current)

  -- `updateAccessKey`: the resource as it was written.
  unfoldable pub update_access_key : MinioAccessKey → Secret → Io W MinioAccessKey
  update_access_key ak secret = do
    ak2 ← drop_migrate env ak
    current ← deref ak2.status.current_spec
    mtac ← admin_client_of env current.tenant_ref ak2.meta.namespace r.minio_operator_namespace
    look_up_access_key mtac secret ak2 current
