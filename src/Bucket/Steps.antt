-- ===== src/Bucket/Steps.antt =====
-- What creation and deletion of the bucket reconciler do to MinIO and to the resource.
use minio_operator_ext.Base.{◌∷◌, ◌≡◌, false, none, some, arith}
use minio_operator_ext.Api.{MinioBucket, MinioBucketSpec, Connection}
use minio_operator_ext.Client.{Op, Error, ok, err, Env, Run}
use minio_operator_ext.Reconciler.{Reconciler, ReconcileResult}
use minio_operator_ext.Resource.{clear_status}
use minio_operator_ext.Bucket.{client_of, set_current_spec, create_bucket, delete_bucket, is_forced}
use minio_operator_ext.Bucket.Trail.{client_of-log}

module _ {W : Type 0} (env : Env W) (r : Reconciler) where
  -- Given the client of the tenant: a bucket that MinIO cannot make, such as one that is there already, is not taken over without
  -- `migrate`: the error of MinIO is returned, and no other call that changes something is made.
  pub create_bucket-no_adoption :
      (b : MinioBucket) (mtc : Connection) (e : Error) (s : Run W)
      → (client_of env b.spec.tenant_ref b.meta.namespace r.minio_operator_namespace s).0 ≡ ok mtc
      → (env.act
          (Op.make_bucket mtc b.spec.name)
          (client_of env b.spec.tenant_ref b.meta.namespace r.minio_operator_namespace s).1.world).0
        ≡ err e
      → b.spec.migrate ≡ false
      → ((create_bucket env r b s).0 ≡ err e)
        × ((create_bucket env r b s).1.log
            ≡ record { op = Op.make_bucket mtc b.spec.name; failure = some e } ∷ s.log)
  unfolding create_bucket
  create_bucket-no_adoption b mtc e s = grind (arith, client_of-log env)

  -- Given the client of the tenant: a deletion that succeeds, of a bucket that MinIO removes, removed it with the flag of the
  -- status's deletion policy, and then cleared the status; it made no other call that changes
  -- something.
  pub delete_bucket-log :
      (b : MinioBucket) (c : MinioBucketSpec) (mtc : Connection) (res : ReconcileResult) (s : Run W)
      → (client_of env c.tenant_ref b.meta.namespace r.minio_operator_namespace s).0 ≡ ok mtc
      → (env.act
          (Op.remove_bucket mtc c.name (is_forced c))
          (client_of env c.tenant_ref b.meta.namespace r.minio_operator_namespace s).1.world).0
        ≡ ok tt
      → (delete_bucket env r b c s).0 ≡ ok res
      → (delete_bucket env r b c s).1.log
        ≡ record { op = Op.update_bucket (set_current_spec env b none); failure = none }
          ∷ record { op = Op.remove_bucket mtc c.name (is_forced c); failure = none }
          ∷ s.log
  unfolding delete_bucket clear_status
  delete_bucket-log b c mtc res s = grind (arith, client_of-log env)
