-- ===== src/User/Progress.antt =====
-- A reconciliation of a user that succeeds brings it nearer to what its user asked for.
use minio_operator_ext.Base.{◌≡◌, true, false, [], ◌<◌, arith}
use minio_operator_ext.Api.{NamespacedName, MinioUser, MinioUserSpec}
use minio_operator_ext.Client.{ok, Env, Run}
use minio_operator_ext.Lifecycle.{View, view}
use minio_operator_ext.Reconciler.{Reconciler}
use minio_operator_ext.Resource.{clear_status}
use minio_operator_ext.Resource.Laws.{Finalizers}
use minio_operator_ext.Resource.Progress.{
  rank, Leaves, Nears, dispatch-Nears_by_status, with_resource-Nears,
}
use minio_operator_ext.User.{kind, delete_user, create_user, reconcile_found, reconcile}
use minio_operator_ext.User.Trail.{kind-IsKind}

module _ {W : Type 0} (env : Env W) (r : Reconciler) where
  delete_user-Leaves :
      (v : View) (u : MinioUser) (c : MinioUserSpec) (s : Run W)
      → Leaves env v
          (record (view env u.meta u.status.current_spec) { managed = false })
          (delete_user env r u c)
          s
  unfolding delete_user clear_status
  delete_user-Leaves v u c s res e = grind arith

  create_user-Leaves :
      (req : NamespacedName) (v : View) (u : MinioUser) (s : Run W)
      → Leaves env v
          (record (view env u.meta u.status.current_spec) { managed = true })
          (create_user env r req u)
          s
  unfolding create_user
  create_user-Leaves req v u s res e = grind arith

  pub reconcile_user-Nears :
      Finalizers env
      → (req : NamespacedName) (w : W) (u : MinioUser) → (env.get_user req w).0 ≡ ok u
      → 0 < rank (view env u.meta u.status.current_spec)
      → Nears env
          (view env u.meta u.status.current_spec)
          (reconcile env r req)
          (record { world = w; log = [] })
  unfolding reconcile reconcile_found
  reconcile_user-Nears fin req =
      with_resource-Nears env (kind env) (env.get_user req) (reconcile_found env r req) (λ u s.
        dispatch-Nears_by_status env (kind env) (kind-IsKind env) fin r u s (delete_user env r u) _
          (create_user env r req u) (λ c. delete_user-Leaves _ u c s)
          (create_user-Leaves req _ u s))
