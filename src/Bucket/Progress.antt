-- ===== src/Bucket/Progress.antt =====
-- A reconciliation of a bucket that succeeds brings it nearer to what its user asked for.
use minio_operator_ext.Base.{◌≡◌, true, false, [], ◌<◌, arith}
use minio_operator_ext.Api.{NamespacedName, MinioBucket, MinioBucketSpec}
use minio_operator_ext.Client.{ok, Env, Run}
use minio_operator_ext.Lifecycle.{View, view}
use minio_operator_ext.Reconciler.{Reconciler}
use minio_operator_ext.Resource.{clear_status}
use minio_operator_ext.Resource.Laws.{Finalizers}
use minio_operator_ext.Resource.Progress.{
  rank, Leaves, Nears, dispatch-Nears_by_status, with_resource-Nears,
}
use minio_operator_ext.Bucket.{kind, delete_bucket, create_bucket, reconcile_found, reconcile}
use minio_operator_ext.Bucket.Sync.{kind-IsKind}

module _ {W : Type 0} (env : Env W) (r : Reconciler) where
  delete_bucket-Leaves :
      (v : View) (b : MinioBucket) (c : MinioBucketSpec) (s : Run W)
      → Leaves env v
          (record (view env b.meta b.status.current_spec) { managed = false })
          (delete_bucket env r b c)
          s
  unfolding delete_bucket clear_status
  delete_bucket-Leaves v b c s res e = grind arith

  create_bucket-Leaves :
      (v : View) (b : MinioBucket) (s : Run W)
      → Leaves env v
          (record (view env b.meta b.status.current_spec) { managed = true })
          (create_bucket env r b)
          s
  unfolding create_bucket
  create_bucket-Leaves v b s res e = grind arith

  pub reconcile_bucket-Nears :
      Finalizers env
      → (req : NamespacedName) (w : W) (b : MinioBucket) → (env.get_bucket req w).0 ≡ ok b
      → 0 < rank (view env b.meta b.status.current_spec)
      → Nears env
          (view env b.meta b.status.current_spec)
          (reconcile env r req)
          (record { world = w; log = [] })
  unfolding reconcile reconcile_found
  reconcile_bucket-Nears fin req =
      with_resource-Nears env (kind env) (env.get_bucket req) (reconcile_found env r) (λ b s.
        dispatch-Nears_by_status env (kind env) (kind-IsKind env) fin r b s (delete_bucket env r b)
          _ (create_bucket env r b) (λ c. delete_bucket-Leaves _ b c s)
          (create_bucket-Leaves _ b s))
