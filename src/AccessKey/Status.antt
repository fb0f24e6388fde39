-- ===== src/AccessKey/Status.antt =====
-- What the access key reconciler leaves in the status.
use minio_operator_ext.Base.{◌≡◌, true, arith}
use minio_operator_ext.Api.{MinioAccessKey}
use minio_operator_ext.Client.{ok, Env, Run}
use minio_operator_ext.Lifecycle.{View, latest}
use minio_operator_ext.Reconciler.{Reconciler, ReconcileResult}
use minio_operator_ext.AccessKey.{check_access_key}

module _ {W : Type 0} (env : Env W) (r : Reconciler) where
  -- A check of an access key that succeeds ends with a write that sets the status, also where
  -- MinIO has lost the access key and the status was cleared on the way.
  pub check_access_key-managed :
      (v : View) (ak : MinioAccessKey) (res : ReconcileResult) (s : Run W)
      → (check_access_key env r ak s).0 ≡ ok res
      → (latest env v (check_access_key env r ak s).1.log).managed ≡ true
  unfolding check_access_key
  check_access_key-managed v ak res s = grind arith
