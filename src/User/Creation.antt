-- ===== src/User/Creation.antt =====
-- A creation of a user that succeeds made it in MinIO before it set the status.
use minio_operator_ext.Base.{◌≡◌, refl, true, false, some, Option}
use minio_operator_ext.Api.{
  NamespacedName, MinioUser, MinioUserSpec, Connection, Secret, set_default_key_namespace,
}
use minio_operator_ext.Client.{
  Error, ok, Op, Env, Io, Run, ◌>>=◌, query, attempt, check, Result, err, error_of, message,
  ignore_madmin_error_code,
}
use minio_operator_ext.Lifecycle.{View, view}
use minio_operator_ext.Reconciler.{Reconciler, ReconcileResult}
use minio_operator_ext.Resource.Creation.{
  Creates, >>=-Creates, make_and_set, make_and_set-Creates, dispatch-Creates, Makes,
  with_resource-Makes,
}
use minio_operator_ext.Base.{String, Bool, not, ◌&&◌, ◌++◌, if◌then◌else◌}
use minio_operator_ext.Base.{index}
use minio_operator_ext.Tenant.{admin_client_of}
use minio_operator_ext.User.{kind, get_access_key, create_user, reconcile_found, reconcile}
use minio_operator_ext.User.Trail.{kind-IsKind}

-- Every error of the call ends the creation.
abbrev pub strict : Option Error → Option Error
strict e = e

module _ {W : Type 0} (env : Env W) (r : Reconciler) where
  abbrev made_view : MinioUser → View
  made_view u = record (view env u.meta u.status.current_spec) { managed = true }

  abbrev make : MinioUser → Connection → String → Secret → Io W ReconcileResult
  make u mtac access_key us =
      let spec2 : MinioUserSpec = record u.spec { access_key = access_key; migrate = false } in
      make_and_set env strict (kind env) r
        (Op.add_user mtac access_key (index "" u.spec.secret_key_ref.key us.contents))
        (record u {
          spec = spec2;
          status = record u.status {
            current_spec = some spec2;
            current_secret_key_ref_resource_version = us.meta.resource_version;
          };
        })

  abbrev judge : MinioUser → String → Result (Unit {0}) → Option Error
  judge u access_key info =
      let exists : Bool = elim info [ ok _ ↦ true | err _ ↦ false ] in
      let e =
        if exists && not u.spec.migrate
        then some (message ("user " ++ access_key ++ " already exists"))
        else error_of info in
      ignore_madmin_error_code e "XMinioAdminNoSuchUser"

  abbrev get_secret : NamespacedName → MinioUser → Io W Secret
  get_secret req u =
      let usrr = set_default_key_namespace u.spec.secret_key_ref req.namespace in
      query (env.get_secret (record { namespace = usrr.namespace; name = usrr.name }))

  create_user-Creates :
      (req : NamespacedName) (u : MinioUser) (s : Run W)
      → Creates env strict (made_view u) (create_user env r req u) s
  unfolding create_user
  create_user-Creates req u s =
      let w = made_view u in
      >>=-Creates env strict w
        (admin_client_of env u.spec.tenant_ref u.meta.namespace r.minio_operator_namespace) _ s
        (λ mtac s1.
          >>=-Creates env strict w (get_access_key env u.spec u.meta.namespace)
            (λ key. attempt (query (env.get_user_info mtac key)) >>= λ info.
              check (judge u key info) >>= λ _. get_secret req u >>= make u mtac key)
            s1
            (λ key s2.
              >>=-Creates env strict w (attempt (query (env.get_user_info mtac key)))
                (λ info. check (judge u key info) >>= λ _. get_secret req u >>= make u mtac key) s2
                (λ info s3.
                  >>=-Creates env strict w (check (judge u key info))
                    (λ _. get_secret req u >>= make u mtac key) s3
                    (λ _ s4.
                      >>=-Creates env strict w (get_secret req u) (make u mtac key) s4 (λ us s5.
                        make_and_set-Creates env strict (kind env) (kind-IsKind env) r _ _ s5 refl
                          refl)))))

  pub reconcile_user-Makes :
      (req : NamespacedName) (w : W) (u : MinioUser)
      → (env.get_user req w).0 ≡ ok u
      → Makes env strict (view env u.meta u.status.current_spec) (reconcile env r req) w
  unfolding reconcile reconcile_found
  reconcile_user-Makes req =
      with_resource-Makes env strict (kind env) (env.get_user req) (reconcile_found env r req)
        (λ u s.
          dispatch-Creates env strict (kind env) u (made_view u) s _ _ _ _ (create_user env r req u)
            (create_user-Creates req u s))
