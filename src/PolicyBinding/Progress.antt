-- ===== src/PolicyBinding/Progress.antt =====
-- A reconciliation of a policy binding that succeeds brings it nearer to what its user asked for.
use minio_operator_ext.Base.{◌≡◌, true, false, [], ◌<◌, arith}
use minio_operator_ext.Api.{NamespacedName, MinioPolicyBinding, MinioPolicyBindingSpec}
use minio_operator_ext.Client.{ok, Env, Run}
use minio_operator_ext.Lifecycle.{View, view}
use minio_operator_ext.Reconciler.{Reconciler}
use minio_operator_ext.Resource.{clear_status}
use minio_operator_ext.Resource.Laws.{Finalizers}
use minio_operator_ext.Resource.Progress.{
  rank, Leaves, Nears, dispatch-Nears_by_status, with_resource-Nears,
}
use minio_operator_ext.PolicyBinding.{
  kind, detach_policy_member, attach_policy_member, reconcile_found, reconcile,
}
use minio_operator_ext.PolicyBinding.Trail.{kind-IsKind}

module _ {W : Type 0} (env : Env W) (r : Reconciler) where
  detach_policy_member-Leaves :
      (v : View) (pb : MinioPolicyBinding) (c : MinioPolicyBindingSpec) (s : Run W)
      → Leaves env v
          (record (view env pb.meta pb.status.current_spec) { managed = false })
          (detach_policy_member env r pb c)
          s
  unfolding detach_policy_member clear_status
  detach_policy_member-Leaves v pb c s res e = grind arith

  attach_policy_member-Leaves :
      (v : View) (pb : MinioPolicyBinding) (s : Run W)
      → Leaves env v
          (record (view env pb.meta pb.status.current_spec) { managed = true })
          (attach_policy_member env r pb)
          s
  unfolding attach_policy_member
  attach_policy_member-Leaves v pb s res e = grind arith

  pub reconcile_policy_binding-Nears :
      Finalizers env
      → (req : NamespacedName) (w : W) (pb : MinioPolicyBinding)
      → (env.get_policy_binding req w).0 ≡ ok pb
      → 0 < rank (view env pb.meta pb.status.current_spec)
      → Nears env
          (view env pb.meta pb.status.current_spec)
          (reconcile env r req)
          (record { world = w; log = [] })
  unfolding reconcile reconcile_found
  reconcile_policy_binding-Nears fin req =
      with_resource-Nears env (kind env) (env.get_policy_binding req) (reconcile_found env r)
        (λ pb s.
          dispatch-Nears_by_status env (kind env) (kind-IsKind env) fin r pb s
            (detach_policy_member env r pb) _ (attach_policy_member env r pb)
            (λ c. detach_policy_member-Leaves _ pb c s) (attach_policy_member-Leaves _ pb s))
