-- ===== src/User/Trail.antt =====
-- The writes of the user reconciler follow the machine of Lifecycle.
use minio_operator_ext.Base.{[], ◌≡◌, true, false, refl, arith, String, some, ◌∙◌}
use minio_operator_ext.Api.{NamespacedName, MinioUser, MinioUserSpec, Connection}
use minio_operator_ext.Client.{ok, Env, Run, ◌>>=◌}
use minio_operator_ext.Lifecycle.{View, Move, view, IsTrail, >>=-IsTrail_quiet, deref-IsTrail}
use minio_operator_ext.Reconciler.{Reconciler, zero_time, guarded}
use minio_operator_ext.Resource.{clear_status}
use minio_operator_ext.Resource.Laws.{Finalizers, IsKind, Echoes}
use minio_operator_ext.Resource.Trail.{IsAt, IsAt-log, dispatch-IsTrail, with_resource-IsTrail}
use minio_operator_ext.Tenant.{admin_client_of}
use minio_operator_ext.Tenant.ReadOnly.{admin_client_of-log}
use minio_operator_ext.User.{
  kind, delete_user, check_user, create_user, get_access_key, update_secret_key, look_up_user,
  reconcile_found, reconcile,
}

module _ {W : Type 0} (env : Env W) where
  pub kind-IsKind : IsKind env (kind env)
  kind-IsKind = record {
    writes = λ x. refl;
    meta_of_finalizers = λ x fs. refl;
    current_of_finalizers = λ x fs. refl;
    meta_of_status = λ x c. refl;
    current_of_status = λ x c. refl;
    meta_of_migrate = λ x. refl;
    current_of_migrate = λ x. refl;
  }

  pub get_access_key-log :
      (spec : MinioUserSpec) (ns : String) (s : Run W)
      → (get_access_key env spec ns s).1.log ≡ s.log
  unfolding get_access_key
  get_access_key-log spec ns s = grind arith

  module _ (r : Reconciler) where
    delete_user-IsTrail :
        (v : View) (x : MinioUser) (c : MinioUserSpec) (s : Run W)
        → IsAt env (kind env) v x s
        → zero_time env x.meta ≡ false
        → x.status.current_spec ≡ some c
        → IsTrail env v (delete_user env r x c s).1.log
    unfolding delete_user clear_status
    delete_user-IsTrail v x c s at z n =
        grind (arith, admin_client_of-log env, get_access_key-log, Move.release)

    update_secret_key-IsTrail :
        (req : NamespacedName) (mtac : Connection) (key : String) (c : MinioUserSpec) (v : View)
        (x : MinioUser) (s : Run W)
        → IsAt env (kind env) v x s
        → zero_time env x.meta ≡ true
        → guarded env x.meta ≡ true
        → x.status.current_spec ≡ some c
        → IsTrail env v (update_secret_key env r req mtac key c x s).1.log
    unfolding update_secret_key
    update_secret_key-IsTrail req mtac key c v x s at z f n = grind (arith, Move.adopt)

    look_up_user-IsTrail :
        (req : NamespacedName) (mtac : Connection) (key : String) (c : MinioUserSpec) (v : View)
        (x : MinioUser) (s : Run W)
        → IsAt env (kind env) v x s
        → zero_time env x.meta ≡ true
        → guarded env x.meta ≡ true
        → x.status.current_spec ≡ some c
        → IsTrail env v (look_up_user env r req mtac key c x s).1.log
    unfolding look_up_user clear_status
    look_up_user-IsTrail req mtac key c v x s at z f n =
        let s' = record s { world = (env.get_user_info mtac key s.world).1 } in
        grind (arith, update_secret_key-IsTrail req mtac key c v x s' at z f n, Move.forget)

    check_user-IsTrail :
        (req : NamespacedName) (v : View) (x : MinioUser) (s : Run W)
        → IsAt env (kind env) v x s
        → zero_time env x.meta ≡ true
        → guarded env x.meta ≡ true
        → IsTrail env v (check_user env r req x s).1.log
    unfolding check_user
    check_user-IsTrail req v x s at z f =
        deref-IsTrail env v x.status.current_spec
          (λ current.
            admin_client_of env current.tenant_ref x.meta.namespace r.minio_operator_namespace
            >>= λ mtac. get_access_key env current x.meta.namespace >>= λ key.
                look_up_user env r req mtac key current x)
          s at.0
          (λ c n.
            >>=-IsTrail_quiet env v
              (admin_client_of env c.tenant_ref x.meta.namespace r.minio_operator_namespace)
              (λ mtac. get_access_key env c x.meta.namespace >>= λ key.
                look_up_user env r req mtac key c x)
              s (admin_client_of-log env c.tenant_ref x.meta.namespace r.minio_operator_namespace s)
              at.0
              (λ mtac s1 _ q1.
                >>=-IsTrail_quiet env v (get_access_key env c x.meta.namespace)
                  (λ key. look_up_user env r req mtac key c x) s1
                  (get_access_key-log c x.meta.namespace s1)
                  (IsAt-log env (kind env) v x s s1 q1 at).0
                  (λ key s2 _ q2.
                    look_up_user-IsTrail req mtac key c v x s2
                      (IsAt-log env (kind env) v x s s2 (q2 ∙ q1) at) z f n)))

    create_user-IsTrail :
        (req : NamespacedName) (v : View) (x : MinioUser) (s : Run W)
        → IsAt env (kind env) v x s
        → zero_time env x.meta ≡ true
        → guarded env x.meta ≡ true
        → IsTrail env v (create_user env r req x s).1.log
    unfolding create_user
    create_user-IsTrail req v x s at z f =
        grind (arith, admin_client_of-log env, get_access_key-log, Move.adopt)

    -- Given finalizers that `controllerutil` adds and removes, and an API server that stores what it
    -- accepts: whatever else the services answer, each write of the user in a reconciliation is a
    -- move of the machine from the write before it, the first from the user that was read, and
    -- something is made in MinIO or in the cluster only while the user has the finalizer and is
    -- not marked for deletion; and something is removed from MinIO only while its status is set.
    pub reconcile_user-IsTrail :
        Finalizers env
        → Echoes env (kind env)
        → (req : NamespacedName) (w : W) (x : MinioUser) → (env.get_user req w).0 ≡ ok x
        → IsTrail env
            (view env x.meta x.status.current_spec)
            (reconcile env r req (record { world = w; log = [] })).1.log
    unfolding reconcile reconcile_found
    reconcile_user-IsTrail fin echoes req w x e =
        with_resource-IsTrail env (kind env) (env.get_user req) (reconcile_found env r req)
          (dispatch-IsTrail env (kind env) kind-IsKind fin echoes r (delete_user env r)
            (check_user env r req) (create_user env r req) delete_user-IsTrail
            (check_user-IsTrail req) (create_user-IsTrail req))
          w x e
