-- ===== src/Group/Trail.antt =====
-- The writes of the group reconciler follow the machine of Lifecycle.
use minio_operator_ext.Base.{some, [], ◌≡◌, true, false, refl, arith}
use minio_operator_ext.Api.{NamespacedName, MinioGroup, MinioGroupSpec}
use minio_operator_ext.Client.{ok, Env, Run}
use minio_operator_ext.Lifecycle.{View, Move, view, IsTrail}
use minio_operator_ext.Reconciler.{Reconciler, zero_time, guarded}
use minio_operator_ext.Resource.{clear_status}
use minio_operator_ext.Resource.Laws.{Finalizers, IsKind, Echoes}
use minio_operator_ext.Resource.Trail.{IsAt, dispatch-IsTrail, with_resource-IsTrail}
use minio_operator_ext.Tenant.ReadOnly.{admin_client_of-log}
use minio_operator_ext.Group.{
  kind, delete_group, check_group, create_group, reconcile_found, reconcile,
}

module _ {W : Type 0} (env : Env W) where
  pub kind-IsKind : IsKind env (kind env)
  kind-IsKind = record {
    writes = λ x. refl;
    meta_of_finalizers = λ x fs. refl;
    current_of_finalizers = λ x fs. refl;
    meta_of_status = λ x c. refl;
    current_of_status = λ x c. refl;
    meta_of_migrate = λ x. refl;
    current_of_migrate = λ x. refl;
  }

  module _ (r : Reconciler) where
    delete_group-IsTrail :
        (v : View) (g : MinioGroup) (c : MinioGroupSpec) (s : Run W)
        → IsAt env (kind env) v g s
        → zero_time env g.meta ≡ false
        → g.status.current_spec ≡ some c
        → IsTrail env v (delete_group env r g c s).1.log
    unfolding delete_group clear_status
    delete_group-IsTrail v g c s at z n = grind (arith, admin_client_of-log env, Move.release)

    check_group-IsTrail :
        (v : View) (g : MinioGroup) (s : Run W)
        → IsAt env (kind env) v g s
        → zero_time env g.meta ≡ true
        → guarded env g.meta ≡ true
        → IsTrail env v (check_group env r g s).1.log
    unfolding check_group clear_status
    check_group-IsTrail v g s at z f = grind (arith, admin_client_of-log env, Move.forget)

    create_group-IsTrail :
        (v : View) (g : MinioGroup) (s : Run W)
        → IsAt env (kind env) v g s
        → zero_time env g.meta ≡ true
        → guarded env g.meta ≡ true
        → IsTrail env v (create_group env r g s).1.log
    unfolding create_group
    create_group-IsTrail v g s at z f = grind (arith, admin_client_of-log env, Move.adopt)

    -- Given finalizers that `controllerutil` adds and removes, and an API server that stores what it
    -- accepts: whatever else the services answer, each write of the group in a reconciliation is a
    -- move of the machine from the write before it, the first from the group that was read, and
    -- something is made in MinIO or in the cluster only while the group has the finalizer and is
    -- not marked for deletion; and something is removed from MinIO only while its status is set.
    pub reconcile_group-IsTrail :
        Finalizers env
        → Echoes env (kind env)
        → (req : NamespacedName) (w : W) (g : MinioGroup) → (env.get_group req w).0 ≡ ok g
        → IsTrail env
            (view env g.meta g.status.current_spec)
            (reconcile env r req (record { world = w; log = [] })).1.log
    unfolding reconcile reconcile_found
    reconcile_group-IsTrail fin echoes req w g e =
        with_resource-IsTrail env (kind env) (env.get_group req) (reconcile_found env r)
          (dispatch-IsTrail env (kind env) kind-IsKind fin echoes r (delete_group env r)
            (check_group env r) (create_group env r) delete_group-IsTrail check_group-IsTrail
            create_group-IsTrail)
          w g e
