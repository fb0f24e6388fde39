-- ===== src/GroupBinding/Progress.antt =====
-- A reconciliation of a group binding that succeeds brings it nearer to what its user asked for.
use minio_operator_ext.Base.{◌≡◌, true, false, [], ◌<◌, arith}
use minio_operator_ext.Api.{NamespacedName, MinioGroupBinding, MinioGroupBindingSpec}
use minio_operator_ext.Client.{ok, Env, Run}
use minio_operator_ext.Lifecycle.{View, view}
use minio_operator_ext.Reconciler.{Reconciler}
use minio_operator_ext.Resource.{clear_status}
use minio_operator_ext.Resource.Laws.{Finalizers}
use minio_operator_ext.Resource.Progress.{
  rank, Leaves, Nears, dispatch-Nears_by_status, with_resource-Nears,
}
use minio_operator_ext.GroupBinding.{
  kind, delete_group_member, add_group_member, reconcile_found, reconcile,
}
use minio_operator_ext.GroupBinding.Trail.{kind-IsKind}

module _ {W : Type 0} (env : Env W) (r : Reconciler) where
  delete_group_member-Leaves :
      (v : View) (gb : MinioGroupBinding) (c : MinioGroupBindingSpec) (s : Run W)
      → Leaves env v
          (record (view env gb.meta gb.status.current_spec) { managed = false })
          (delete_group_member env r gb c)
          s
  unfolding delete_group_member clear_status
  delete_group_member-Leaves v gb c s res e = grind arith

  add_group_member-Leaves :
      (v : View) (gb : MinioGroupBinding) (s : Run W)
      → Leaves env v
          (record (view env gb.meta gb.status.current_spec) { managed = true })
          (add_group_member env r gb)
          s
  unfolding add_group_member
  add_group_member-Leaves v gb s res e = grind arith

  pub reconcile_group_binding-Nears :
      Finalizers env
      → (req : NamespacedName) (w : W) (gb : MinioGroupBinding)
      → (env.get_group_binding req w).0 ≡ ok gb
      → 0 < rank (view env gb.meta gb.status.current_spec)
      → Nears env
          (view env gb.meta gb.status.current_spec)
          (reconcile env r req)
          (record { world = w; log = [] })
  unfolding reconcile reconcile_found
  reconcile_group_binding-Nears fin req =
      with_resource-Nears env (kind env) (env.get_group_binding req) (reconcile_found env r)
        (λ gb s.
          dispatch-Nears_by_status env (kind env) (kind-IsKind env) fin r gb s
            (delete_group_member env r gb) _ (add_group_member env r gb)
            (λ c. delete_group_member-Leaves _ gb c s) (add_group_member-Leaves _ gb s))
