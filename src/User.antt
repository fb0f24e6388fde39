-- ===== src/User.antt =====
-- internal/operator/minio_user_reconciler.go.
pub mod Trail
pub mod Steady
pub mod Steps
pub mod Progress
pub mod Removal
pub mod Creation
use minio_operator_ext.Base.{
  String, ◌++◌, Bool, true, false, not, ◌&&◌, Option, none, some, List, [], if◌then◌else◌, lookup,
  index, ◌==◌, string_eq,
}
use minio_operator_ext.Api.{
  NamespacedName, MinioUser, MinioUserSpec, Connection, set_default_key_namespace, is_set_ref,
}
use minio_operator_ext.Client.{
  message, Op, ok, err, error_of, is_madmin_error_code, ignore_madmin_error_code, Env, Io, ◌>>=◌,
  ◌>>◌, pure, throw, deref, query, perform, attempt, check,
}
use minio_operator_ext.Tenant.{admin_client_of}
use minio_operator_ext.Resource.{
  Kind, update, drop_migrate, add_finalizer, clear_finalizer, clear_status,
}
use minio_operator_ext.Reconciler.{
  finalizer, Reconciler, ReconcileResult, succeed, with_resource, dispatch,
}

module _ {W : Type 0} (env : Env W) where
  -- `mtac.AddUser(ctx, accessKey, secretKey)`
  abbrev pub add_user : Connection → String → String → Io W (Unit {0})
  add_user mtac access_key secret_key =
      perform (Op.add_user mtac access_key secret_key)
        (env.act (Op.add_user mtac access_key secret_key))

  -- `mtac.RemoveUser(ctx, accessKey)`
  abbrev pub remove_user : Connection → String → Io W (Unit {0})
  remove_user mtac access_key =
      perform (Op.remove_user mtac access_key) (env.act (Op.remove_user mtac access_key))

  abbrev pub clear_migrate : MinioUser → MinioUser
  clear_migrate u = record u { spec = record u.spec { migrate = false } }

  abbrev pub set_current_spec : MinioUser → Option MinioUserSpec → MinioUser
  set_current_spec u c = record u { status = record u.status { current_spec = c } }

  abbrev pub kind : Kind W MinioUser MinioUserSpec
  kind = record {
    meta = λ u. u.meta;
    spec = λ u. u.spec;
    current_spec = λ u. u.status.current_spec;
    migrate = λ u. u.spec.migrate;
    set_finalizers = λ u fs. record u { meta = record u.meta { finalizers = fs } };
    set_current_spec = set_current_spec;
    clear_migrate = clear_migrate;
    op = λ u. Op.update_user u;
    call = env.update_user;
  }

  -- `getAccessKey`: the spec's own, or the one in the secret that the spec refers to.
  unfoldable pub get_access_key : MinioUserSpec → String → Io W String
  get_access_key spec default_namespace = do
    access_key ←
        if spec.access_key == "" && is_set_ref spec.access_key_ref
        then (do
          let akr = set_default_key_namespace spec.access_key_ref default_namespace
          secret ← query (env.get_secret (record { namespace = akr.namespace; name = akr.name }))
          elim (lookup akr.key secret.contents) [
            | none ↦ throw (message ("secret key '" ++ akr.key ++ "' does not exist"))
            | some v ↦ pure v
          ])
        else pure spec.access_key
    if access_key == "" then throw (message "could not determine access key") else pure access_key

  module _ (r : Reconciler) where
    -- Marked for deletion, status set.
    pub delete_user : MinioUser → MinioUserSpec → Io W ReconcileResult
    delete_user u current = do
      mtac ← admin_client_of env current.tenant_ref u.meta.namespace r.minio_operator_namespace
      access_key ← get_access_key current u.meta.namespace
      removed ← attempt (remove_user mtac access_key)
      check (ignore_madmin_error_code (error_of removed) "XMinioAdminNoSuchUser")
      clear_status env kind r u

    -- The secret key's secret is compared by its version; a new version is sent to MinIO.
    unfoldable pub update_secret_key :
        NamespacedName → Connection → String → MinioUserSpec → MinioUser → Io W ReconcileResult
    update_secret_key req mtac access_key current u = do
      let usrr = set_default_key_namespace current.secret_key_ref req.namespace
      us ← query (env.get_secret (record { namespace = usrr.namespace; name = usrr.name }))
      if us.meta.resource_version == u.status.current_secret_key_ref_resource_version
          then succeed r
          else (do
            add_user mtac access_key (index "" current.secret_key_ref.key us.contents)
            update env kind (record u {
              status = record u.status {
                current_secret_key_ref_resource_version = us.meta.resource_version;
              };
            })
            succeed r)

    -- The status is cleared if the user is gone from MinIO.
    pub look_up_user :
        NamespacedName → Connection → String → MinioUserSpec → MinioUser → Io W ReconcileResult
    look_up_user req mtac access_key current u = do
      info ← attempt (query (env.get_user_info mtac access_key))
      let e = not (is_madmin_error_code (error_of info) "XMinioAdminNoSuchUser")
      check (ignore_madmin_error_code (error_of info) "XMinioAdminNoSuchUser")
      if e then update_secret_key req mtac access_key current u else clear_status env kind r u

    -- Status set.
    pub check_user : NamespacedName → MinioUser → Io W ReconcileResult
    check_user req u = do
      current ← deref u.status.current_spec
      mtac ← admin_client_of env current.tenant_ref u.meta.namespace r.minio_operator_namespace
      access_key ← get_access_key current u.meta.namespace
      look_up_user req mtac access_key current u

    -- Status unset: the user is created, then the status is set.
    unfoldable pub create_user : NamespacedName → MinioUser → Io W ReconcileResult
    create_user req u = do
      mtac ← admin_client_of env u.spec.tenant_ref u.meta.namespace r.minio_operator_namespace
      access_key ← get_access_key u.spec u.meta.namespace
      info ← attempt (query (env.get_user_info mtac access_key))
      let exists : Bool = elim info [ ok _ ↦ true | err _ ↦ false ]
      let e =
          if exists && not u.spec.migrate
          then some (message ("user " ++ access_key ++ " already exists"))
          else error_of info
      check (ignore_madmin_error_code e "XMinioAdminNoSuchUser")
      let usrr = set_default_key_namespace u.spec.secret_key_ref req.namespace
      us ← query (env.get_secret (record { namespace = usrr.namespace; name = usrr.name }))
      add_user mtac access_key (index "" u.spec.secret_key_ref.key us.contents)
      let spec2 : MinioUserSpec = record u.spec { access_key = access_key; migrate = false }
      update env kind (record u {
        spec = spec2;
        status = record u.status {
          current_spec = some spec2;
          current_secret_key_ref_resource_version = us.meta.resource_version;
        };
      })
      succeed r

    -- The branches of `Reconcile` behind `r.Get`.
    pub reconcile_found : NamespacedName → MinioUser → Io W ReconcileResult
    reconcile_found req u =
        dispatch env u.meta u.status.current_spec (delete_user u) (clear_finalizer env kind r u)
          (add_finalizer env kind r u) (λ _. drop_migrate env kind u >>= check_user req)
          (create_user req u)

    -- `Reconcile`
    pub reconcile : NamespacedName → Io W ReconcileResult
    reconcile req = with_resource env (env.get_user req) (reconcile_found req)
