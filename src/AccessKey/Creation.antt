-- ===== src/AccessKey/Creation.antt =====
-- A creation of an access key that succeeds made it in MinIO before it set the status.
use minio_operator_ext.Base.{
  ◌≡◌, refl, sym, subst, true, false, not, ◌&&◌, some, none, Bool, Option, String, if◌then◌else◌,
  ◌==◌, string_eq, arith,
}
use minio_operator_ext.Api.{
  NamespacedName, MinioAccessKey, Secret, Connection, AddServiceAccountReq,
}
use minio_operator_ext.Client.{
  Error, Result, ok, err, error_of, Op, Env, Io, Run, ◌>>=◌, ◌>>◌, pure, throw, perform, attempt,
  is_panic, Ensures, >>=-Ensures,
}
use minio_operator_ext.Lifecycle.{View, view}
use minio_operator_ext.Reconciler.{Reconciler, ReconcileResult, succeed}
use minio_operator_ext.Resource.{update}
use minio_operator_ext.Resource.Creation.{
  Made, Made-cons, IsCreation, Creates, >>=-Creates, last-Creates, dispatch-Creates, Makes,
  with_resource-Makes,
}
use minio_operator_ext.Tenant.{admin_client_of}
use minio_operator_ext.AccessKey.Credentials.{get_credentials_from_secret}
use minio_operator_ext.AccessKey.Actions.{
  kind, says, add_service_account, marshal_spec_policy, create_credentials_secret,
  create_access_key, delete_secret,
}
use minio_operator_ext.AccessKey.Quiet.{kind-IsKind}
use minio_operator_ext.AccessKey.{
  set_status, created_spec, create_or_delete_secret, create, reconcile_found, reconcile,
}

-- The error of an access key that is taken is let pass, for a resource with `migrate`.
abbrev pub lenient : {W : Type 0} → Env W → Option Error → Option Error
lenient env none = none
lenient env (some e) =
    if says env e "service account access key already taken" then none else some e

module _ {W : Type 0} (env : Env W) (r : Reconciler) where
  abbrev Kept : {A : Type 0} → A → Run W → Type 0
  Kept _ s = Made (lenient env) s.log

  abbrev Any : {A : Type 0} → A → Run W → Type 0
  Any _ _ = Unit

  abbrev made_view : MinioAccessKey → View
  made_view ak = record (view env ak.meta ak.status.current_spec) { managed = true }

  abbrev add : MinioAccessKey → AddServiceAccountReq → Connection → Op
  add ak req mtac =
      if not (ak.spec.user.ldap == "")
      then Op.add_service_account_ldap mtac req
      else Op.add_service_account mtac req

  abbrev answered : MinioAccessKey → Result (Unit {0}) → Io W (Unit {0})
  answered ak added = elim added [
    | ok _ ↦ pure tt
    | err e ↦
        if says env e "service account access key already taken" && ak.spec.migrate
        then pure tt
        else throw e
  ]

  answered-lenient :
      (ak : MinioAccessKey) (added : Result (Unit {0})) (s : Run W) (u : Unit {0})
      → (answered ak added s).0 ≡ ok u
      → (lenient env (error_of added) ≡ none) × ((answered ak added s).1 ≡ s)
  answered-lenient ak (ok _) s u e = (refl, refl)
  answered-lenient ak (err e) s u h =
      go (says env e "service account access key already taken") ak.spec.migrate h
    where
      go :
          (t m : Bool)
          → ((if t && m then pure {W = W} tt else throw e) s).0 ≡ ok u
          → ((if t then none else some e) ≡ none)
            × ((if t && m then pure {W = W} tt else throw e) s).1 ≡ s
      go true true h = (refl, refl)
      go true false h = absurd (cc)
      go false m h = absurd (cc)

  abbrev request_of : MinioAccessKey → Secret → Option String → AddServiceAccountReq
  request_of ak secret policy =
      let creds = get_credentials_from_secret secret in
      record {
        access_key = creds.access_key;
        description = ak.spec.description;
        expiration = ak.spec.expiration;
        name = ak.spec.name;
        secret_key = creds.secret_key;
        policy = policy;
        target_user =
            if not (ak.spec.user.ldap == "") then ak.spec.user.ldap else ak.spec.user.builtin;
      }

  abbrev add_answered : MinioAccessKey → Secret → Connection → Option String → Io W (Unit {0})
  add_answered ak secret mtac policy =
      attempt
        (add_service_account env (not (ak.spec.user.ldap == "")) mtac (request_of ak secret policy))
      >>= answered ak

  add_answered-Made :
      (ak : MinioAccessKey) (secret : Secret) (mtac : Connection) (policy : Option String)
      (s : Run W)
      → Ensures Kept (add_answered ak secret mtac policy) s
  add_answered-Made ak secret mtac policy s u e =
      let op = add ak (request_of ak secret policy) mtac in
      let added = (env.act op s.world).0 in
      let s1 = (perform op (env.act op) s).1 in
      let (passed, same) = answered-lenient ak added s1 u e in
      subst (λ t. Made (lenient env) t.log) (sym same)
        (Made-cons env (lenient env) op (error_of added) s.log (ground arith) passed)

  create_access_key-Made :
      (ak : MinioAccessKey) (secret : Secret) (s : Run W)
      → Ensures Kept (create_access_key env r ak secret) s
  unfolding create_access_key
  create_access_key-Made ak secret s =
      >>=-Ensures Any Kept
        (admin_client_of env ak.spec.tenant_ref ak.meta.namespace r.minio_operator_namespace)
        (λ mtac. marshal_spec_policy env ak.spec.policy >>= add_answered ak secret mtac) s
        (λ _ _. tt)
        (λ mtac s1 _.
          >>=-Ensures Any Kept (marshal_spec_policy env ak.spec.policy)
            (add_answered ak secret mtac) s1 (λ _ _. tt)
            (λ policy s2 _. add_answered-Made ak secret mtac policy s2))

  create_or_delete_secret-Made :
      (ak : MinioAccessKey) (secret : Secret) (s : Run W)
      → Ensures Kept (create_or_delete_secret env r ak secret) s
  unfolding create_or_delete_secret
  create_or_delete_secret-Made ak secret s =
      go (create_access_key env r ak secret s).0 (create_access_key-Made ak secret s)
    where
      s1 : Run W
      s1 = (create_access_key env r ak secret s).1

      go :
          (x : Result (Unit {0}))
          → ((u : Unit {0}) → x ≡ ok u → Made (lenient env) s1.log)
          → Ensures Kept
              (elim x [
                | ok _ ↦ pure tt
                | err e ↦
                    if is_panic e then throw e else (attempt (delete_secret env secret) >> throw e)
              ])
              s1
      go (ok u) made = λ v e. made u refl
      go (err e) made = λ v h. absurd (ground (arith, h))

  abbrev done : MinioAccessKey → Secret → MinioAccessKey
  done ak secret = set_status (record ak { spec = created_spec ak secret }) secret

  create-Creates :
      (ak : MinioAccessKey) (s : Run W)
      → Creates env (lenient env) (made_view ak) (create env r ak) s
  unfolding create
  create-Creates ak s =
      let P : ReconcileResult → Run W → Type 0 =
        λ _ s'. IsCreation env (lenient env) (made_view ak) s'.log in
      let last = λ (secret : Secret). update env (kind env) (done ak secret) >>= λ _. succeed r in
      >>=-Creates env (lenient env) (made_view ak) (create_credentials_secret env ak)
        (λ secret. create_or_delete_secret env r ak secret >> last secret) s
        (λ secret s1.
          >>=-Ensures Kept P (create_or_delete_secret env r ak secret) (λ _. last secret) s1
            (create_or_delete_secret-Made ak secret s1)
            (λ _ s2 made.
              last-Creates env (lenient env) (kind env) (kind-IsKind env) r (done ak secret) s2
                made))

  pub reconcile_access_key-Makes :
      (req : NamespacedName) (w : W) (ak : MinioAccessKey)
      → (env.get_access_key req w).0 ≡ ok ak
      → Makes env (lenient env) (view env ak.meta ak.status.current_spec) (reconcile env r req) w
  unfolding reconcile reconcile_found
  reconcile_access_key-Makes req =
      with_resource-Makes env (lenient env) (kind env) (env.get_access_key req)
        (reconcile_found env r)
        (λ ak s.
          dispatch-Creates env (lenient env) (kind env) ak (made_view ak) s _ _ _ _
            (create env r ak) (create-Creates ak s))
