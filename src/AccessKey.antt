-- ===== src/AccessKey.antt =====
-- internal/operator/minio_access_key_reconciler.go: the reconciler. The calls that act on MinIO and
-- on the generated secret are in the module Actions, what the credentials are in Credentials.
pub mod Random
pub mod Credentials
pub mod Actions
pub mod Quiet
pub mod Live
pub mod Trail
pub mod Rollback
pub mod Status
pub mod Sync
pub mod Removal
pub mod Progress
pub mod Issue
pub mod Creation
use minio_operator_ext.Base.{String, false, Option, none, some, List, index, if◌then◌else◌}
use minio_operator_ext.Api.{NamespacedName, MinioAccessKey, MinioAccessKeySpec, Secret}
use minio_operator_ext.Client.{
  Error, Result, ok, err, Env, Io, ◌>>=◌, ◌>>◌, pure, throw, attempt, is_panic,
}
use minio_operator_ext.Reconciler.{
  finalizer, Reconciler, ReconcileResult, succeed, with_resource, dispatch,
}
use minio_operator_ext.Resource.{add_finalizer, clear_finalizer}
use Actions.{
  kind, update, delete_secret, set_finalizers, set_current_spec, delete_access_key,
  create_credentials_secret, update_credentials_secret, create_access_key, update_access_key,
}

-- `ak.Status.CurrentSpec = &ak.Spec; ak.Status.CurrentSecretResourceVersion = …`
abbrev pub set_status : MinioAccessKey → Secret → MinioAccessKey
set_status ak secret = record ak {
  status = record ak.status {
    current_spec = some ak.spec;
    current_secret_resource_version = secret.meta.resource_version;
  };
}

-- The spec of a new access key: it keeps the access key of the secret, so that a secret that is made
-- again has the same one.
abbrev pub created_spec : MinioAccessKey → Secret → MinioAccessKeySpec
created_spec ak secret = record ak.spec {
  access_key = index "" "accessKey" secret.contents;
  migrate = false;
}

module _ {W : Type 0} (env : Env W) (r : Reconciler) where
  -- Marked for deletion: the access key is deleted, the status cleared, the finalizer removed.
  unfoldable pub finish_deletion : MinioAccessKey → Io W ReconcileResult
  finish_deletion ak = do
    delete_access_key env r ak
    ak2 ← update env (set_current_spec ak none)
    clear_finalizer env (kind env) r ak2

  -- Status set: the secret and the access key are brought up to date, then the status is set.
  unfoldable pub check_access_key : MinioAccessKey → Io W ReconcileResult
  check_access_key ak = do
    (secret, ak2) ← update_credentials_secret env ak
    ak3 ← update_access_key env r ak2 secret
    update env (set_status ak3 secret)
    succeed r

  -- `err = r.createAccessKey(…); if err != nil { r.Delete(ctx, secret); return r.fail(err) }`; a panic
  -- of the creation is passed on, and nothing is deleted.
  unfoldable pub create_or_delete_secret : MinioAccessKey → Secret → Io W (Unit {0})
  create_or_delete_secret ak secret = do
    created ← attempt (create_access_key env r ak secret)
    elim created [
      | ok _ ↦ pure tt
      | err e ↦ if is_panic e then throw e else (attempt (delete_secret env secret) >> throw e)
    ]

  -- Status unset: the secret and the access key are created, then the status is set.
  pub create : MinioAccessKey → Io W ReconcileResult
  create ak = do
    secret ← create_credentials_secret env ak
    create_or_delete_secret ak secret
    update env (set_status (record ak { spec = created_spec ak secret }) secret)
    succeed r

  -- The branches of `Reconcile` behind `r.Get`.
  pub reconcile_found : MinioAccessKey → Io W ReconcileResult
  reconcile_found ak =
      dispatch env ak.meta ak.status.current_spec (λ _. finish_deletion ak) (finish_deletion ak)
        (add_finalizer env (kind env) r ak) (λ _. check_access_key ak) (create ak)

  -- `Reconcile`
  pub reconcile : NamespacedName → Io W ReconcileResult
  reconcile req = with_resource env (env.get_access_key req) reconcile_found
