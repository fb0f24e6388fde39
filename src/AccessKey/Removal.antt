-- ===== src/AccessKey/Removal.antt =====
-- What the deletion of an access key does.
use minio_operator_ext.Base.{◌≡◌, refl, sym, ap, subst, ◌∙◌, Option, none, some, List, ◌∷◌, arith}
use minio_operator_ext.Api.{MinioAccessKey, MinioAccessKeySpec, Secret, Connection}
use minio_operator_ext.Client.{
  Op, Event, Error, ok, error_of, ignore_madmin_error_code, Env, Io, Run, ◌>>=◌, attempt, check,
  Ensures, >>=-Ensures, pure-Ensures, pure,
}
use minio_operator_ext.Reconciler.{Reconciler, ReconcileResult, finalizer}
use minio_operator_ext.Resource.{clear_finalizer}
use minio_operator_ext.Tenant.{admin_client_of}
use minio_operator_ext.Tenant.ReadOnly.{admin_client_of-log}
use minio_operator_ext.AccessKey.Credentials.{get_credentials_from_secret}
use minio_operator_ext.AccessKey.Actions.{
  kind, set_current_spec, set_finalizers, update, find_secret, delete_service_account,
  delete_access_key,
}
use minio_operator_ext.AccessKey.Quiet.{find_secret-log}
use minio_operator_ext.AccessKey.{finish_deletion}

-- What is left of the access key in MinIO, between two logs, where the secret of the status is
-- there or not.
pub data Removed {W : Type 0} (env : Env W) (r : Reconciler) (ak : MinioAccessKey)
    (current : MinioAccessKeySpec) (found : Option Secret) (before after : List Event)
    : Type 0 where
  -- MinIO is not asked to delete it
  orphaned : found ≡ none → after ≡ before → Removed env r ak current found before after
  -- it is deleted by the access key in the secret, or MinIO does not have it
  removed :
      (secret : Secret)
      → found ≡ some secret
      → (mtac : Connection) → (run : Run W)
      → (admin_client_of env current.tenant_ref ak.meta.namespace r.minio_operator_namespace run).0
        ≡ ok mtac
      → (failure : Option Error)
      → ignore_madmin_error_code failure "XMinioInvalidIAMCredentials" ≡ none
      → after
        ≡ record {
          op = Op.delete_service_account mtac (get_credentials_from_secret secret).access_key;
          failure = failure;
        }
          ∷ before
      → Removed env r ak current found before after

module _ {W : Type 0} (env : Env W) where
  -- The two writes of the resource, accepted: without the status, then without the finalizer.
  pub record Released (ak : MinioAccessKey) (before after : List Event) : Type 0 where
    pub answer : MinioAccessKey
    pub calls :
        after
        ≡ record {
          op =
              Op.update_access_key
                (set_finalizers env answer (env.remove_finalizer answer.meta.finalizers finalizer));
          failure = none;
        }
          ∷ record { op = Op.update_access_key (set_current_spec ak none); failure = none }
          ∷ before

  -- What a deletion did.
  pub record Deleted (r : Reconciler) (ak : MinioAccessKey) (current : MinioAccessKeySpec)
      (s : Run W) (after : List Event) : Type 0 where
    pub found : Option Secret
    pub read : (find_secret env ak.meta current.secret_name s).0 ≡ ok found
    pub between : List Event
    pub gone : Removed env r ak current found s.log between
    pub released : Released ak between after

  module _ (r : Reconciler) (ak : MinioAccessKey) where
    release-Released :
        (before : List Event) (s : Run W)
        → s.log ≡ before
        → Ensures
            (λ _ s'. Released ak before s'.log)
            (update env (set_current_spec ak none) >>= clear_finalizer env (kind env) r)
            s
    unfolding clear_finalizer
    release-Released before s start =
        let w1 : Event = record {
          op = Op.update_access_key (set_current_spec ak none);
          failure = none;
        } in
        >>=-Ensures (λ _ s'. s'.log ≡ w1 ∷ before) (λ _ s'. Released ak before s'.log)
          (update env (set_current_spec ak none)) (clear_finalizer env (kind env) r) s
          (λ ak2 e. ground (arith, e, start))
          (λ ak2 s1 first res e. record { answer = ak2; calls = ground (arith, e, first) })

    remove-Removed :
        (current : MinioAccessKeySpec) (run : Run W) (secret : Secret) (mtac : Connection)
        (before : List Event) (s : Run W)
        → (admin_client_of env current.tenant_ref ak.meta.namespace r.minio_operator_namespace
            run).0
          ≡ ok mtac
        → s.log ≡ before
        → Ensures
            (λ _ s'. Removed env r ak current (some secret) before s'.log)
            (attempt
                (delete_service_account env mtac (get_credentials_from_secret secret).access_key)
              >>= λ deleted.
                  check (ignore_madmin_error_code (error_of deleted) "XMinioInvalidIAMCredentials"))
            s
    remove-Removed current run secret mtac before s connected start =
        go (ignore_madmin_error_code failure "XMinioInvalidIAMCredentials") refl
      where
        op : Op
        op = Op.delete_service_account mtac (get_credentials_from_secret secret).access_key

        failure : Option Error
        failure = error_of (env.act op s.world).0

        go :
            (o : Option Error)
            → ignore_madmin_error_code failure "XMinioInvalidIAMCredentials" ≡ o
            → Ensures
                (λ _ s'. Removed env r ak current (some secret) before s'.log)
                (check o)
                (record {
                  world = (env.act op s.world).1;
                  log = record { op = op; failure = failure } ∷ s.log;
                })
        go none excused u e =
            Removed.removed secret refl mtac run connected failure excused
              (ap (λ l. record { op = op; failure = failure } ∷ l) start)
        go (some x) excused u e = absurd (cc)

    -- The part of the deletion behind the search for the secret.
    abbrev with_secret : MinioAccessKeySpec → Option Secret → Io W (Unit {0})
    with_secret current found = elim found [
      | none ↦ pure tt
      | some secret ↦
          admin_client_of env current.tenant_ref ak.meta.namespace r.minio_operator_namespace
          >>= λ mtac.
              attempt
                (delete_service_account env mtac (get_credentials_from_secret secret).access_key)
              >>= λ deleted.
                  check (ignore_madmin_error_code (error_of deleted) "XMinioInvalidIAMCredentials")
    ]

    with_secret-Removed :
        (current : MinioAccessKeySpec) (found : Option Secret) (before : List Event) (s : Run W)
        → s.log ≡ before
        → Ensures
            (λ _ s'. Removed env r ak current found before s'.log)
            (with_secret current found)
            s
    with_secret-Removed current none before s start =
        pure-Ensures (λ _ s'. Removed env r ak current none before s'.log) tt s
          (Removed.orphaned refl start)
    with_secret-Removed current (some secret) before s start =
        let client =
          admin_client_of env current.tenant_ref ak.meta.namespace r.minio_operator_namespace in
        let quiet =
          admin_client_of-log env current.tenant_ref ak.meta.namespace r.minio_operator_namespace
            s in
        >>=-Ensures (λ mtac s'. ((client s).0 ≡ ok mtac) × (s'.log ≡ before))
          (λ _ s'. Removed env r ak current (some secret) before s'.log) client _ s
          (λ mtac e. (e, quiet ∙ start))
          (λ mtac s1 (connected, same).
            remove-Removed current s secret mtac before s1 connected same)

    delete_access_key-Removed :
        (current : MinioAccessKeySpec) (s : Run W)
        → ak.status.current_spec ≡ some current
        → Ensures
            (λ _ s'.
              (found : Option Secret) × ((find_secret env ak.meta current.secret_name s).0
                ≡ ok found)
              × (Removed env r ak current found s.log s'.log))
            (delete_access_key env r ak)
            s
    unfolding delete_access_key
    delete_access_key-Removed current s at =
        let P = λ (_ : Unit {0}) (s' : Run W).
          (found : Option Secret) × ((find_secret env ak.meta current.secret_name s).0 ≡ ok found)
          × (Removed env r ak current found s.log s'.log) in
        let find = find_secret env ak.meta current.secret_name in
        let ran : delete_access_key env r ak ≡ (find >>= with_secret current) =
          ap
            (λ (o : Option MinioAccessKeySpec). elim o as (λ _. Io W (Unit {0})) [
              | none ↦ pure tt
              | some c ↦ find_secret env ak.meta c.secret_name >>= with_secret c
            ])
            at in
        subst (λ m. Ensures P m s) (sym ran)
          (>>=-Ensures (λ found s'. ((find s).0 ≡ ok found) × (s'.log ≡ s.log)) P find
            (with_secret current) s
            (λ found e. (e, find_secret-log env ak.meta current.secret_name s))
            (λ found s1 (read, quiet) u e.
              (found, read, with_secret-Removed current found s.log s1 quiet u e)))

  -- A deletion of an access key whose status is set, where it succeeds: if the secret that the
  -- status names was found, MinIO was asked, at the tenant that the status names, to delete the
  -- access key of that secret, and accepted or did not know it; if the secret was not found,
  -- MinIO was not asked. Behind that the resource was written without the status, and then
  -- without the finalizer, both accepted. No other call was made that changes something.
  pub finish_deletion-Deleted :
      (r : Reconciler) (ak : MinioAccessKey) (current : MinioAccessKeySpec) (res : ReconcileResult)
      (s : Run W)
      → ak.status.current_spec ≡ some current
      → (finish_deletion env r ak s).0 ≡ ok res
      → Deleted r ak current s (finish_deletion env r ak s).1.log
  unfolding finish_deletion
  finish_deletion-Deleted r ak current res s at =
      let P = λ (_ : ReconcileResult) (s' : Run W). Deleted r ak current s s'.log in
      >>=-Ensures
        (λ _ s'.
          (found : Option Secret) × ((find_secret env ak.meta current.secret_name s).0 ≡ ok found)
          × (Removed env r ak current found s.log s'.log))
        P (delete_access_key env r ak) _ s (delete_access_key-Removed r ak current s at)
        (λ _ s1 (found, read, gone) a e. record {
          found = found;
          read = read;
          between = s1.log;
          gone = gone;
          released = release-Released r ak s1.log s1 refl a e;
        })
        res
