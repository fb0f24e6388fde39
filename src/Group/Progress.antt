-- ===== src/Group/Progress.antt =====
-- A reconciliation of a group that succeeds brings it nearer to what its user asked for.
use minio_operator_ext.Base.{◌≡◌, true, false, [], ◌<◌, arith}
use minio_operator_ext.Api.{NamespacedName, MinioGroup, MinioGroupSpec}
use minio_operator_ext.Client.{ok, Env, Run}
use minio_operator_ext.Lifecycle.{View, view}
use minio_operator_ext.Reconciler.{Reconciler}
use minio_operator_ext.Resource.{clear_status}
use minio_operator_ext.Resource.Laws.{Finalizers}
use minio_operator_ext.Resource.Progress.{
  rank, Leaves, Nears, dispatch-Nears_by_status, with_resource-Nears,
}
use minio_operator_ext.Group.{kind, delete_group, create_group, reconcile_found, reconcile}
use minio_operator_ext.Group.Trail.{kind-IsKind}

module _ {W : Type 0} (env : Env W) (r : Reconciler) where
  delete_group-Leaves :
      (v : View) (g : MinioGroup) (c : MinioGroupSpec) (s : Run W)
      → Leaves env v
          (record (view env g.meta g.status.current_spec) { managed = false })
          (delete_group env r g c)
          s
  unfolding delete_group clear_status
  delete_group-Leaves v g c s res e = grind arith

  create_group-Leaves :
      (v : View) (g : MinioGroup) (s : Run W)
      → Leaves env v
          (record (view env g.meta g.status.current_spec) { managed = true })
          (create_group env r g)
          s
  unfolding create_group
  create_group-Leaves v g s res e = grind arith

  pub reconcile_group-Nears :
      Finalizers env
      → (req : NamespacedName) (w : W) (g : MinioGroup) → (env.get_group req w).0 ≡ ok g
      → 0 < rank (view env g.meta g.status.current_spec)
      → Nears env
          (view env g.meta g.status.current_spec)
          (reconcile env r req)
          (record { world = w; log = [] })
  unfolding reconcile reconcile_found
  reconcile_group-Nears fin req =
      with_resource-Nears env (kind env) (env.get_group req) (reconcile_found env r) (λ g s.
        dispatch-Nears_by_status env (kind env) (kind-IsKind env) fin r g s (delete_group env r g) _
          (create_group env r g) (λ c. delete_group-Leaves _ g c s) (create_group-Leaves _ g s))
