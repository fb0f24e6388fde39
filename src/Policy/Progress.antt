-- ===== src/Policy/Progress.antt =====
-- A reconciliation of a policy that succeeds brings it nearer to what its user asked for.
use minio_operator_ext.Base.{◌≡◌, true, false, [], ◌<◌, arith}
use minio_operator_ext.Api.{NamespacedName, MinioPolicy, MinioPolicySpec}
use minio_operator_ext.Client.{ok, Env, Run}
use minio_operator_ext.Lifecycle.{View, view}
use minio_operator_ext.Reconciler.{Reconciler}
use minio_operator_ext.Resource.{clear_status}
use minio_operator_ext.Resource.Laws.{Finalizers}
use minio_operator_ext.Resource.Progress.{
  rank, Leaves, Nears, dispatch-Nears_by_status, with_resource-Nears,
}
use minio_operator_ext.Policy.{kind, delete_policy, create_policy, reconcile_found, reconcile}
use minio_operator_ext.Policy.Trail.{kind-IsKind}

module _ {W : Type 0} (env : Env W) (r : Reconciler) where
  delete_policy-Leaves :
      (v : View) (p : MinioPolicy) (c : MinioPolicySpec) (s : Run W)
      → Leaves env v
          (record (view env p.meta p.status.current_spec) { managed = false })
          (delete_policy env r p c)
          s
  unfolding delete_policy clear_status
  delete_policy-Leaves v p c s res e = grind arith

  create_policy-Leaves :
      (v : View) (p : MinioPolicy) (s : Run W)
      → Leaves env v
          (record (view env p.meta p.status.current_spec) { managed = true })
          (create_policy env r p)
          s
  unfolding create_policy
  create_policy-Leaves v p s res e = grind arith

  pub reconcile_policy-Nears :
      Finalizers env
      → (req : NamespacedName) (w : W) (p : MinioPolicy) → (env.get_policy req w).0 ≡ ok p
      → 0 < rank (view env p.meta p.status.current_spec)
      → Nears env
          (view env p.meta p.status.current_spec)
          (reconcile env r req)
          (record { world = w; log = [] })
  unfolding reconcile reconcile_found
  reconcile_policy-Nears fin req =
      with_resource-Nears env (kind env) (env.get_policy req) (reconcile_found env r) (λ p s.
        dispatch-Nears_by_status env (kind env) (kind-IsKind env) fin r p s (delete_policy env r p)
          _ (create_policy env r p) (λ c. delete_policy-Leaves _ p c s)
          (create_policy-Leaves _ p s))
