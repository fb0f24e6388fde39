-- ===== src/AccessKey/Progress.antt =====
-- A reconciliation of an access key that succeeds brings it nearer to what its user asked for.
use minio_operator_ext.Base.{◌≡◌, ◌∙◌, true, false, none, [], ◌<◌, arith}
use minio_operator_ext.Api.{NamespacedName, MinioAccessKey, Secret}
use minio_operator_ext.Client.{ok, Env, Run, ◌>>=◌, ◌>>◌, >>=-Ensures}
use minio_operator_ext.Lifecycle.{View, view, latest}
use minio_operator_ext.Reconciler.{Reconciler, ReconcileResult, succeed}
use minio_operator_ext.Resource.{update, clear_finalizer}
use minio_operator_ext.Resource.Laws.{Finalizers, Echoes}
use minio_operator_ext.Resource.Progress.{
  rank, Leaves, Leaves-Nears, last_update-Leaves, clear_finalizer-Leaves, Nears, dispatch-Nears,
  with_resource-Nears,
}
use minio_operator_ext.AccessKey.Actions.{
  kind, set_current_spec, create_credentials_secret, delete_access_key,
}
use minio_operator_ext.AccessKey.Quiet.{kind-IsKind}
use minio_operator_ext.AccessKey.{
  set_status, created_spec, finish_deletion, create_or_delete_secret, create, check_access_key,
  reconcile_found, reconcile,
}

module _ {W : Type 0} (env : Env W) (r : Reconciler) where
  -- Nothing is known of the state between two parts.
  abbrev Any : {A : Type 0} → A → Run W → Type 0
  Any _ _ = Unit

  finish_deletion-Leaves :
      Finalizers env
      → Echoes env (kind env)
      → (v : View) (ak : MinioAccessKey) (s : Run W)
      → Leaves env v
          (record (view env ak.meta ak.status.current_spec) { managed = false; guarded = false })
          (finish_deletion env r ak)
          s
  unfolding finish_deletion
  finish_deletion-Leaves fin echoes v ak s =
      let cleared = set_current_spec ak none in
      let target = record (view env ak.meta ak.status.current_spec) {
        managed = false;
        guarded = false;
      } in
      let last = λ (ak2 : MinioAccessKey). clear_finalizer env (kind env) r ak2 in
      let P = λ (_ : ReconcileResult) (s' : Run W). latest env v s'.log ≡ target in
      >>=-Ensures Any P (delete_access_key env r ak) (λ _. update env (kind env) cleared >>= last) s
        (λ _ _. tt)
        (λ _ s1 _.
          >>=-Ensures
            (λ ak2 _.
              record (view env ak2.meta ak2.status.current_spec) { guarded = false } ≡ target)
            P (update env (kind env) cleared) last s1
            (λ ak2 e.
              let kept = echoes.meta cleared ak2 s1.world e in
              let unset = echoes.status cleared ak2 s1.world e in
              ground (arith, kept.deletion_timestamp, unset))
            (λ ak2 s2 same res e.
              clear_finalizer-Leaves env (kind env) (kind-IsKind env) r v fin ak2 s2 res e ∙ same))

  create-Leaves :
      (v : View) (ak : MinioAccessKey) (s : Run W)
      → Leaves env v
          (record (view env ak.meta ak.status.current_spec) { managed = true })
          (create env r ak)
          s
  unfolding create
  create-Leaves v ak s =
      let last = λ (secret : Secret).
        update env (kind env) (set_status (record ak { spec = created_spec ak secret }) secret)
        >>= λ _. succeed r in
      let P = λ (_ : ReconcileResult) (s' : Run W).
        latest env v s'.log ≡ record (view env ak.meta ak.status.current_spec) { managed = true } in
      >>=-Ensures Any P (create_credentials_secret env ak)
        (λ secret. create_or_delete_secret env r ak secret >> last secret) s (λ _ _. tt)
        (λ secret s1 _.
          >>=-Ensures Any P (create_or_delete_secret env r ak secret) (λ _. last secret) s1
            (λ _ _. tt)
            (λ _ s2 _.
              last_update-Leaves env (kind env) (kind-IsKind env) r v
                (set_status (record ak { spec = created_spec ak secret }) secret) s2))

  pub reconcile_access_key-Nears :
      Finalizers env
      → Echoes env (kind env)
      → (req : NamespacedName) (w : W) (ak : MinioAccessKey) → (env.get_access_key req w).0 ≡ ok ak
      → 0 < rank (view env ak.meta ak.status.current_spec)
      → Nears env
          (view env ak.meta ak.status.current_spec)
          (reconcile env r req)
          (record { world = w; log = [] })
  unfolding reconcile reconcile_found
  reconcile_access_key-Nears fin echoes req =
      with_resource-Nears env (kind env) (env.get_access_key req) (reconcile_found env r) (λ ak s.
        let here = view env ak.meta ak.status.current_spec in
        let deletes = finish_deletion-Leaves fin echoes here ak s in
        dispatch-Nears env (kind env) (kind-IsKind env) fin r ak s (λ _. finish_deletion env r ak)
          (finish_deletion env r ak) (λ _. check_access_key env r ak) (create env r ak)
          (λ c z n.
            Leaves-Nears env here _ (finish_deletion env r ak) s (ground (arith, z, n)) deletes)
          (λ z g n.
            Leaves-Nears env here _ (finish_deletion env r ak) s (ground (arith, z, g, n)) deletes)
          (λ z g n.
            Leaves-Nears env here _ (create env r ak) s (ground (arith, z, g, n))
              (create-Leaves here ak s)))
