-- ===== src/Policy/Trail.antt =====
-- The writes of the policy reconciler follow the machine of Lifecycle.
use minio_operator_ext.Base.{some, [], ◌≡◌, true, false, refl, arith}
use minio_operator_ext.Api.{NamespacedName, MinioPolicy, MinioPolicySpec}
use minio_operator_ext.Client.{ok, Env, Run}
use minio_operator_ext.Lifecycle.{View, Move, view, IsTrail}
use minio_operator_ext.Reconciler.{Reconciler, zero_time, guarded}
use minio_operator_ext.Resource.{clear_status}
use minio_operator_ext.Resource.Laws.{Finalizers, IsKind, Echoes}
use minio_operator_ext.Resource.Trail.{IsAt, dispatch-IsTrail, with_resource-IsTrail}
use minio_operator_ext.Tenant.ReadOnly.{admin_client_of-log}
use minio_operator_ext.Policy.{
  kind, delete_policy, check_policy, create_policy, update_policy, restore_policy, reconcile_found,
  reconcile,
}

module _ {W : Type 0} (env : Env W) where
  pub kind-IsKind : IsKind env (kind env)
  kind-IsKind = record {
    writes = λ x. refl;
    meta_of_finalizers = λ x fs. refl;
    current_of_finalizers = λ x fs. refl;
    meta_of_status = λ x c. refl;
    current_of_status = λ x c. refl;
    meta_of_migrate = λ x. refl;
    current_of_migrate = λ x. refl;
  }

  module _ (r : Reconciler) where
    delete_policy-IsTrail :
        (v : View) (x : MinioPolicy) (c : MinioPolicySpec) (s : Run W)
        → IsAt env (kind env) v x s
        → zero_time env x.meta ≡ false
        → x.status.current_spec ≡ some c
        → IsTrail env v (delete_policy env r x c s).1.log
    unfolding delete_policy clear_status
    delete_policy-IsTrail v x c s at z n = grind (arith, admin_client_of-log env, Move.release)

    check_policy-IsTrail :
        (v : View) (x : MinioPolicy) (s : Run W)
        → IsAt env (kind env) v x s
        → zero_time env x.meta ≡ true
        → guarded env x.meta ≡ true
        → IsTrail env v (check_policy env r x s).1.log
    unfolding check_policy clear_status update_policy restore_policy
    check_policy-IsTrail v x s at z f =
        grind (arith, admin_client_of-log env, Move.forget, Move.adopt)

    create_policy-IsTrail :
        (v : View) (x : MinioPolicy) (s : Run W)
        → IsAt env (kind env) v x s
        → zero_time env x.meta ≡ true
        → guarded env x.meta ≡ true
        → IsTrail env v (create_policy env r x s).1.log
    unfolding create_policy
    create_policy-IsTrail v x s at z f = grind (arith, admin_client_of-log env, Move.adopt)

    -- Given finalizers that `controllerutil` adds and removes, and an API server that stores what it
    -- accepts: whatever else the services answer, each write of the policy in a reconciliation is a
    -- move of the machine from the write before it, the first from the policy that was read, and
    -- something is made in MinIO or in the cluster only while the policy has the finalizer and is
    -- not marked for deletion; and something is removed from MinIO only while its status is set.
    pub reconcile_policy-IsTrail :
        Finalizers env
        → Echoes env (kind env)
        → (req : NamespacedName) (w : W) (x : MinioPolicy) → (env.get_policy req w).0 ≡ ok x
        → IsTrail env
            (view env x.meta x.status.current_spec)
            (reconcile env r req (record { world = w; log = [] })).1.log
    unfolding reconcile reconcile_found
    reconcile_policy-IsTrail fin echoes req w x e =
        with_resource-IsTrail env (kind env) (env.get_policy req) (reconcile_found env r)
          (dispatch-IsTrail env (kind env) kind-IsKind fin echoes r (delete_policy env r)
            (check_policy env r) (create_policy env r) delete_policy-IsTrail check_policy-IsTrail
            create_policy-IsTrail)
          w x e
