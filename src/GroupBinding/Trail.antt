-- ===== src/GroupBinding/Trail.antt =====
-- The writes of the group binding reconciler follow the machine of Lifecycle.
use minio_operator_ext.Base.{some, [], ◌≡◌, true, false, refl, arith}
use minio_operator_ext.Api.{NamespacedName, MinioGroupBinding, MinioGroupBindingSpec, Connection}
use minio_operator_ext.Client.{ok, Env, Run, ◌>>=◌}
use minio_operator_ext.Lifecycle.{View, Move, view, IsTrail, >>=-IsTrail_quiet, deref-IsTrail}
use minio_operator_ext.Reconciler.{Reconciler, zero_time, guarded}
use minio_operator_ext.Resource.{clear_status}
use minio_operator_ext.Resource.Laws.{Finalizers, IsKind, Echoes}
use minio_operator_ext.Resource.Trail.{IsAt, IsAt-log, dispatch-IsTrail, with_resource-IsTrail}
use minio_operator_ext.Tenant.{admin_client_of}
use minio_operator_ext.Tenant.ReadOnly.{admin_client_of-log}
use minio_operator_ext.GroupBinding.{
  kind, delete_group_member, check_binding, add_group_member, compare_binding, reconcile_found,
  reconcile,
}

module _ {W : Type 0} (env : Env W) where
  pub kind-IsKind : IsKind env (kind env)
  kind-IsKind = record {
    writes = λ x. refl;
    meta_of_finalizers = λ x fs. refl;
    current_of_finalizers = λ x fs. refl;
    meta_of_status = λ x c. refl;
    current_of_status = λ x c. refl;
    meta_of_migrate = λ x. refl;
    current_of_migrate = λ x. refl;
  }

  module _ (r : Reconciler) where
    delete_group_member-IsTrail :
        (v : View) (x : MinioGroupBinding) (c : MinioGroupBindingSpec) (s : Run W)
        → IsAt env (kind env) v x s
        → zero_time env x.meta ≡ false
        → x.status.current_spec ≡ some c
        → IsTrail env v (delete_group_member env r x c s).1.log
    unfolding delete_group_member clear_status
    delete_group_member-IsTrail v x c s at z n =
        grind (arith, admin_client_of-log env, Move.release)

    -- Also where the binding is undone while the resource stays.
    delete_group_member-forget :
        (v : View) (x : MinioGroupBinding) (c : MinioGroupBindingSpec) (s : Run W)
        → IsAt env (kind env) v x s
        → zero_time env x.meta ≡ true
        → guarded env x.meta ≡ true
        → x.status.current_spec ≡ some c
        → IsTrail env v (delete_group_member env r x c s).1.log
    unfolding delete_group_member clear_status
    delete_group_member-forget v x c s at z f n =
        grind (arith, admin_client_of-log env, Move.forget)

    compare_binding-IsTrail :
        (mtac : Connection) (c : MinioGroupBindingSpec) (v : View) (x : MinioGroupBinding)
        (s : Run W)
        → IsAt env (kind env) v x s
        → zero_time env x.meta ≡ true
        → guarded env x.meta ≡ true
        → x.status.current_spec ≡ some c
        → IsTrail env v (compare_binding env r mtac c x s).1.log
    unfolding compare_binding clear_status
    compare_binding-IsTrail mtac c v x s at z f n =
        let s' = record s { world = (env.get_group_description mtac c.group s.world).1 } in
        grind (arith, delete_group_member-forget v x c s' at z f n, Move.forget)

    check_binding-IsTrail :
        (v : View) (x : MinioGroupBinding) (s : Run W)
        → IsAt env (kind env) v x s
        → zero_time env x.meta ≡ true
        → guarded env x.meta ≡ true
        → IsTrail env v (check_binding env r x s).1.log
    unfolding check_binding
    check_binding-IsTrail v x s at z f =
        deref-IsTrail env v x.status.current_spec
          (λ current.
            admin_client_of env current.tenant_ref x.meta.namespace r.minio_operator_namespace
            >>= λ mtac. compare_binding env r mtac current x)
          s at.0
          (λ c n.
            >>=-IsTrail_quiet env v
              (admin_client_of env c.tenant_ref x.meta.namespace r.minio_operator_namespace)
              (λ mtac. compare_binding env r mtac c x) s
              (admin_client_of-log env c.tenant_ref x.meta.namespace r.minio_operator_namespace s)
              at.0
              (λ mtac s' _ q.
                compare_binding-IsTrail mtac c v x s' (IsAt-log env (kind env) v x s s' q at) z f
                  n))

    add_group_member-IsTrail :
        (v : View) (x : MinioGroupBinding) (s : Run W)
        → IsAt env (kind env) v x s
        → zero_time env x.meta ≡ true
        → guarded env x.meta ≡ true
        → IsTrail env v (add_group_member env r x s).1.log
    unfolding add_group_member
    add_group_member-IsTrail v x s at z f = grind (arith, admin_client_of-log env, Move.adopt)

    -- Given finalizers that `controllerutil` adds and removes, and an API server that stores what it
    -- accepts: whatever else the services answer, each write of the group binding in a reconciliation is a
    -- move of the machine from the write before it, the first from the group binding that was read, and
    -- something is made in MinIO or in the cluster only while the group binding has the finalizer and is
    -- not marked for deletion; and something is removed from MinIO only while its status is set.
    pub reconcile_group_binding-IsTrail :
        Finalizers env
        → Echoes env (kind env)
        → (req : NamespacedName) (w : W) (x : MinioGroupBinding)
        → (env.get_group_binding req w).0 ≡ ok x
        → IsTrail env
            (view env x.meta x.status.current_spec)
            (reconcile env r req (record { world = w; log = [] })).1.log
    unfolding reconcile reconcile_found
    reconcile_group_binding-IsTrail fin echoes req w x e =
        with_resource-IsTrail env (kind env) (env.get_group_binding req) (reconcile_found env r)
          (dispatch-IsTrail env (kind env) kind-IsKind fin echoes r (delete_group_member env r)
            (check_binding env r) (add_group_member env r) delete_group_member-IsTrail
            check_binding-IsTrail add_group_member-IsTrail)
          w x e
