-- ===== src/AccessKey/Trail.antt =====
-- The writes of the access key reconciler follow the machine of Lifecycle.
use minio_operator_ext.Base.{[], ◌≡◌, ◌≢◌, false, refl, arith, none}
use minio_operator_ext.Api.{NamespacedName, MinioAccessKey, Secret}
use minio_operator_ext.Client.{ok, Env, Run, Io, ◌>>=◌, ◌>>◌}
use minio_operator_ext.Lifecycle.{View, Move, view, IsTrail, >>=-IsTrail}
use minio_operator_ext.Reconciler.{Reconciler, ReconcileResult, succeed, zero_time, dispatch_elim}
use minio_operator_ext.Resource.{update, clear_finalizer}
use minio_operator_ext.Resource.Laws.{Finalizers, Echoes}
use minio_operator_ext.Resource.Trail.{
  IsAt, with_resource-IsTrail, update-IsTrail, update-IsAt, last_update-IsTrail,
  clear_finalizer-IsTrail, add_finalizer-IsTrail,
}
use minio_operator_ext.Resource.Live.{IsLive}
use minio_operator_ext.Tenant.ReadOnly.{admin_client_of-log}
use minio_operator_ext.AccessKey.Actions.{
  kind, set_current_spec, create_credentials_secret, create_access_key, delete_access_key,
  update_credentials_secret, update_access_key,
}
use minio_operator_ext.AccessKey.Quiet.{
  kind-IsKind, find_secret-log, marshal_spec_policy-log, create_credentials_secret-IsLive,
}
use minio_operator_ext.AccessKey.Live.{update_credentials_secret-After, update_access_key-After}
use minio_operator_ext.AccessKey.{
  set_status, created_spec, finish_deletion, check_access_key, create_or_delete_secret, create,
  reconcile_found, reconcile,
}

module _ {W : Type 0} (env : Env W) (r : Reconciler) where
  -- The deletion in MinIO leaves the resource alone.
  delete_access_key-IsAt :
      (v : View) (ak : MinioAccessKey) (s : Run W)
      → IsAt env (kind env) v ak s
      → IsAt env (kind env) v ak (delete_access_key env r ak s).1
  unfolding delete_access_key
  delete_access_key-IsAt v ak s at = grind (arith, admin_client_of-log env, find_secret-log env)

  create_access_key-IsLive :
      (v : View) (ak : MinioAccessKey) (secret : Secret) (s : Run W)
      → IsLive env (kind env) v ak s
      → IsLive env (kind env) v ak (create_access_key env r ak secret s).1
  unfolding create_access_key
  create_access_key-IsLive v ak secret s live =
      grind (arith, admin_client_of-log env, marshal_spec_policy-log env)

  create_or_delete_secret-IsLive :
      (v : View) (ak : MinioAccessKey) (secret : Secret) (s : Run W)
      → IsLive env (kind env) v ak s
      → IsLive env (kind env) v ak (create_or_delete_secret env r ak secret s).1
  unfolding create_or_delete_secret
  create_or_delete_secret-IsLive v ak secret s live =
      grind (arith, create_access_key-IsLive v ak secret s live)

  create-IsTrail :
      (v : View) (ak : MinioAccessKey) (s : Run W)
      → IsLive env (kind env) v ak s
      → IsTrail env v (create env r ak s).1.log
  unfolding create
  create-IsTrail v ak s live =
      let made = create_credentials_secret-IsLive env v ak s live ak in
      let s1 = (create_credentials_secret env ak s).1 in
      let last = λ (secret : Secret).
        update env (kind env) (set_status (record ak { spec = created_spec ak secret }) secret)
        >>= λ _. succeed r in
      >>=-IsTrail env v (create_credentials_secret env ak)
        (λ secret. create_or_delete_secret env r ak secret >> last secret) s made.0.0
        (λ secret _.
          let tried = create_or_delete_secret-IsLive v ak secret s1 made in
          let s2 = (create_or_delete_secret env r ak secret s1).1 in
          >>=-IsTrail env v (create_or_delete_secret env r ak secret) (λ _. last secret) s1
            tried.0.0
            (λ _ _.
              last_update-IsTrail env (kind env) (kind-IsKind env) r v ak
                (set_status (record ak { spec = created_spec ak secret }) secret) s2 tried.0
                (Move.adopt (rw tried.1.0) tried.1.1 refl)))

  module _ (echoes : Echoes env (kind env)) where
    finish_deletion-IsTrail :
        (v : View) (ak : MinioAccessKey) (s : Run W)
        → Finalizers env
        → IsAt env (kind env) v ak s
        → zero_time env ak.meta ≡ false
        → IsTrail env v (finish_deletion env r ak s).1.log
    unfolding finish_deletion
    finish_deletion-IsTrail v ak s fin at z =
        let deleted = delete_access_key-IsAt v ak s at in
        let s1 = (delete_access_key env r ak s).1 in
        let cleared = set_current_spec ak none in
        let release = Move.release (rw z) refl in
        let s2 = (update env (kind env) cleared s1).1 in
        let last = λ (ak2 : MinioAccessKey). clear_finalizer env (kind env) r ak2 in
        >>=-IsTrail env v (delete_access_key env r ak) (λ _. update env (kind env) cleared >>= last)
          s deleted.0
          (λ _ _.
            >>=-IsTrail env v (update env (kind env) cleared) last s1
              (update-IsTrail env (kind env) (kind-IsKind env) v ak cleared s1 deleted release)
              (λ ak2 e.
                let kept = echoes.meta cleared ak2 s1.world e in
                clear_finalizer-IsTrail env (kind env) (kind-IsKind env) r v ak2 s2 fin
                  (update-IsAt env (kind env) (kind-IsKind env) v ak cleared ak2 s1 echoes deleted
                    release e)
                  (rw kept.deletion_timestamp z) (echoes.status cleared ak2 s1.world e)))

    check_access_key-IsTrail :
        (v : View) (ak : MinioAccessKey) (s : Run W)
        → IsLive env (kind env) v ak s
        → ak.status.current_spec ≢ none
        → IsTrail env v (check_access_key env r ak s).1.log
    unfolding check_access_key
    check_access_key-IsTrail v ak s live managed =
        let updated = update_credentials_secret-After env echoes v ak s (live, managed) in
        let s1 = (update_credentials_secret env ak s).1 in
        let last = λ (secret : Secret) (ak3 : MinioAccessKey).
          update env (kind env) (set_status ak3 secret) >>= λ _. succeed r in
        let rest = λ (x : Secret × MinioAccessKey). update_access_key env r x.1 x.0 >>= last x.0 in
        >>=-IsTrail env v (update_credentials_secret env ak) rest s updated.0 (λ x e.
          let after = update_access_key-After env echoes r v x.1 x.0 s1 (updated.1 x e) in
          let s2 = (update_access_key env r x.1 x.0 s1).1 in
          >>=-IsTrail env v (update_access_key env r x.1 x.0) (last x.0) s1 after.0 (λ ak3 e3.
            let live3 = after.1 ak3 e3 in
            last_update-IsTrail env (kind env) (kind-IsKind env) r v ak3 (set_status ak3 x.0) s2
              live3.0 (Move.adopt (rw live3.1.0) live3.1.1 refl)))

    -- Given finalizers that `controllerutil` adds and removes, and an API server that stores what it
    -- accepts: whatever else the services answer, each write of the access key in a reconciliation is a
    -- move of the machine from the write before it, the first from the access key that was read, and
    -- something is made in MinIO or in the cluster only while the access key has the finalizer and is
    -- not marked for deletion; and something is removed from MinIO only while its status is set.
    pub reconcile_access_key-IsTrail :
        Finalizers env
        → (req : NamespacedName) (w : W) (ak : MinioAccessKey)
        → (env.get_access_key req w).0 ≡ ok ak
        → IsTrail env
            (view env ak.meta ak.status.current_spec)
            (reconcile env r req (record { world = w; log = [] })).1.log
    unfolding reconcile reconcile_found
    reconcile_access_key-IsTrail fin req w ak e =
        with_resource-IsTrail env (kind env) (env.get_access_key req) (reconcile_found env r)
          (λ v x s at.
            dispatch_elim env (λ (m : Io W ReconcileResult). IsTrail env v (m s).1.log) x.meta
              x.status.current_spec (λ _ z _. finish_deletion-IsTrail v x s fin at z)
              (λ z _. finish_deletion-IsTrail v x s fin at z)
              (λ z g. add_finalizer-IsTrail env (kind env) (kind-IsKind env) r v x s fin at z g)
              (λ c z g n. check_access_key-IsTrail v x s (at, (z, g)) (λ none_now. cc))
              (λ z g _. create-IsTrail v x s (at, (z, g))))
          w ak e
