-- ===== src/Bucket/Trail.antt =====
-- The writes of the bucket reconciler follow the machine of Lifecycle.
use minio_operator_ext.Base.{some, [], ◌≡◌, true, false, arith, String}
use minio_operator_ext.Api.{NamespacedName, MinioBucket, MinioBucketSpec, ResourceRef}
use minio_operator_ext.Client.{ok, Env, Run, ◌>>=◌}
use minio_operator_ext.Lifecycle.{View, Move, view, IsTrail, >>=-IsTrail_quiet, deref-IsTrail}
use minio_operator_ext.Reconciler.{Reconciler, zero_time, guarded}
use minio_operator_ext.Resource.{clear_status}
use minio_operator_ext.Resource.Laws.{Finalizers, Echoes}
use minio_operator_ext.Resource.Trail.{IsAt, IsAt-log, dispatch-IsTrail, with_resource-IsTrail}
use minio_operator_ext.Tenant.ReadOnly.{get_minio_tenant_client_info-log, get_client-log}
use minio_operator_ext.Bucket.{
  kind, client_of, delete_bucket, check_bucket, look_up_bucket, create_bucket, configure_bucket,
  versioning_to_remote, lifecycle_to_remote, reconcile_found, reconcile,
}
use minio_operator_ext.Bucket.Sync.{kind-IsKind, look_up_bucket-IsTrail}

module _ {W : Type 0} (env : Env W) where
  pub client_of-log :
      (rr : ResourceRef) (ns operator_ns : String) (s : Run W)
      → (client_of env rr ns operator_ns s).1.log ≡ s.log
  unfolding client_of
  client_of-log rr ns operator_ns s =
      grind (arith, get_minio_tenant_client_info-log env, get_client-log env)

  module _ (r : Reconciler) where
    delete_bucket-IsTrail :
        (v : View) (b : MinioBucket) (c : MinioBucketSpec) (s : Run W)
        → IsAt env (kind env) v b s
        → zero_time env b.meta ≡ false
        → b.status.current_spec ≡ some c
        → IsTrail env v (delete_bucket env r b c s).1.log
    unfolding delete_bucket clear_status
    delete_bucket-IsTrail v b c s at z n = grind (arith, client_of-log, Move.release)

    create_bucket-IsTrail :
        (v : View) (b : MinioBucket) (s : Run W)
        → IsAt env (kind env) v b s
        → zero_time env b.meta ≡ true
        → guarded env b.meta ≡ true
        → IsTrail env v (create_bucket env r b s).1.log
    unfolding create_bucket configure_bucket versioning_to_remote lifecycle_to_remote
    create_bucket-IsTrail v b s at z f = grind (arith, client_of-log, Move.adopt)

    module _ (echoes : Echoes env (kind env)) where
      check_bucket-IsTrail :
          (v : View) (b : MinioBucket) (s : Run W)
          → IsAt env (kind env) v b s
          → zero_time env b.meta ≡ true
          → guarded env b.meta ≡ true
          → IsTrail env v (check_bucket env r b s).1.log
      unfolding check_bucket
      check_bucket-IsTrail v b s at z f =
          deref-IsTrail env v b.status.current_spec
            (λ c. client_of env c.tenant_ref b.meta.namespace r.minio_operator_namespace >>= λ mtc.
              look_up_bucket env r mtc c b)
            s at.0
            (λ c _.
              >>=-IsTrail_quiet env v
                (client_of env c.tenant_ref b.meta.namespace r.minio_operator_namespace)
                (λ mtc. look_up_bucket env r mtc c b) s
                (client_of-log c.tenant_ref b.meta.namespace r.minio_operator_namespace s) at.0
                (λ mtc s' _ q.
                  look_up_bucket-IsTrail env echoes r mtc c v b s'
                    (IsAt-log env (kind env) v b s s' q at, (z, f))))

    -- Given finalizers that `controllerutil` adds and removes, and an API server that stores what it
    -- accepts: whatever else the services answer, each write of the bucket in a reconciliation is a
    -- move of the machine from the write before it, the first from the bucket that was read, and
    -- something is made in MinIO or in the cluster only while the bucket has the finalizer and is
    -- not marked for deletion; and something is removed from MinIO only while its status is set.
    pub reconcile_bucket-IsTrail :
        Finalizers env
        → Echoes env (kind env)
        → (req : NamespacedName) (w : W) (b : MinioBucket) → (env.get_bucket req w).0 ≡ ok b
        → IsTrail env
            (view env b.meta b.status.current_spec)
            (reconcile env r req (record { world = w; log = [] })).1.log
    unfolding reconcile reconcile_found
    reconcile_bucket-IsTrail fin echoes req w b e =
        with_resource-IsTrail env (kind env) (env.get_bucket req) (reconcile_found env r)
          (dispatch-IsTrail env (kind env) (kind-IsKind env) fin echoes r (delete_bucket env r)
            (check_bucket env r) (create_bucket env r) delete_bucket-IsTrail
            (check_bucket-IsTrail echoes) create_bucket-IsTrail)
          w b e
