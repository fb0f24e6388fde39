-- ===== src/Policy.antt =====
-- internal/operator/minio_policy_reconciler.go; `getHash` is in the module Hash.
pub mod Trail
pub mod Order
pub mod Digest
pub mod Steps
pub mod Sync
pub mod Progress
pub mod Removal
pub mod Creation
pub mod Hash
use minio_operator_ext.Base.{
  String, ◌++◌, Bool, true, false, not, ◌&&◌, ◌||◌, Option, none, some, List, if◌then◌else◌, ◌==◌,
  string_eq, list_eq,
}
use minio_operator_ext.Api.{NamespacedName, MinioPolicy, MinioPolicySpec, Connection, statement_eq}
use minio_operator_ext.Client.{
  message, Op, ok, err, error_of, is_madmin_error_code, ignore_madmin_error_code, Env, Io, ◌>>=◌,
  ◌>>◌, pure, throw, lift, deref, query, perform, attempt, check,
}
use minio_operator_ext.Tenant.{admin_client_of}
use minio_operator_ext.Resource.{
  Kind, update, drop_migrate, add_finalizer, clear_finalizer, clear_status,
}
use minio_operator_ext.Reconciler.{
  finalizer, Reconciler, ReconcileResult, succeed, with_resource, dispatch,
}
use Hash.{policy_spec_hash}

module _ {W : Type 0} (env : Env W) where
  -- `mtac.AddCannedPolicy(ctx, name, policy)`
  abbrev pub add_canned_policy : Connection → String → String → Io W (Unit {0})
  add_canned_policy mtac name policy =
      perform (Op.add_canned_policy mtac name policy)
        (env.act (Op.add_canned_policy mtac name policy))

  -- `mtac.RemoveCannedPolicy(ctx, name)`
  abbrev pub remove_canned_policy : Connection → String → Io W (Unit {0})
  remove_canned_policy mtac name =
      perform (Op.remove_canned_policy mtac name) (env.act (Op.remove_canned_policy mtac name))

  abbrev pub clear_migrate : MinioPolicy → MinioPolicy
  clear_migrate p = record p { spec = record p.spec { migrate = false } }

  abbrev pub set_current_spec : MinioPolicy → Option MinioPolicySpec → MinioPolicy
  set_current_spec p c = record p { status = record p.status { current_spec = c } }

  abbrev pub kind : Kind W MinioPolicy MinioPolicySpec
  kind = record {
    meta = λ p. p.meta;
    spec = λ p. p.spec;
    current_spec = λ p. p.status.current_spec;
    migrate = λ p. p.spec.migrate;
    set_finalizers = λ p fs. record p { meta = record p.meta { finalizers = fs } };
    set_current_spec = set_current_spec;
    clear_migrate = clear_migrate;
    op = λ p. Op.update_policy p;
    call = env.update_policy;
  }

  module _ (r : Reconciler) where
    -- Marked for deletion, status set: any error of the removal is returned.
    unfoldable pub delete_policy : MinioPolicy → MinioPolicySpec → Io W ReconcileResult
    delete_policy p current = do
      mtac ← admin_client_of env current.tenant_ref p.meta.namespace r.minio_operator_namespace
      remove_canned_policy mtac current.name
      clear_status env kind r p

    -- The spec's statement or version changed: it is sent to MinIO and noted in the status.
    unfoldable pub update_policy : Connection → MinioPolicySpec → MinioPolicy → Io W ReconcileResult
    update_policy mtac current p = do
      pd ← lift (env.marshal_policy p.spec.statement p.spec.version)
      add_canned_policy mtac current.name pd
      update env kind (
          set_current_spec p
            (some (record current { statement = p.spec.statement; version = p.spec.version })))
      succeed r

    -- MinIO's policy differs from the status: the status's is sent again.
    pub restore_policy : Connection → MinioPolicySpec → String → Io W ReconcileResult
    restore_policy mtac current mp = do
      mps ← lift (env.unmarshal_policy_spec mp)
      if policy_spec_hash env mps == policy_spec_hash env current then succeed r else (do
        pd ← lift (env.marshal_policy current.statement current.version)
        add_canned_policy mtac current.name pd
        succeed r)

    -- Status set: cleared if the policy is gone from MinIO.
    unfoldable pub check_policy : MinioPolicy → Io W ReconcileResult
    check_policy p = do
      current ← deref p.status.current_spec
      mtac ← admin_client_of env current.tenant_ref p.meta.namespace r.minio_operator_namespace
      info ← attempt (query (env.info_canned_policy mtac current.name))
      let e = not (is_madmin_error_code (error_of info) "XMinioAdminNoSuchPolicy")
      check (ignore_madmin_error_code (error_of info) "XMinioAdminNoSuchPolicy")
      if not e
          then clear_status env kind r p
          else if not (current.version == p.spec.version)
              || not (current.statement == p.spec.statement)
          then update_policy mtac current p
          else (do mp ← lift info; restore_policy mtac current mp)

    -- Status unset: the policy is created, then the status is set. An error of the lookup is not
    -- looked at.
    unfoldable pub create_policy : MinioPolicy → Io W ReconcileResult
    create_policy p = do
      mtac ← admin_client_of env p.spec.tenant_ref p.meta.namespace r.minio_operator_namespace
      info ← attempt (query (env.info_canned_policy mtac p.spec.name))
      let exists : Bool = elim info [ ok _ ↦ true | err _ ↦ false ]
      if exists && not p.spec.migrate
          then throw (message ("policy " ++ p.spec.name ++ " already exists"))
          else (do
            pd ← lift (env.marshal_policy p.spec.statement p.spec.version)
            add_canned_policy mtac p.spec.name pd
            let p2 = clear_migrate p
            update env kind (set_current_spec p2 (some p2.spec))
            succeed r)

    -- The branches of `Reconcile` behind `r.Get`.
    pub reconcile_found : MinioPolicy → Io W ReconcileResult
    reconcile_found p =
        dispatch env p.meta p.status.current_spec (delete_policy p) (clear_finalizer env kind r p)
          (add_finalizer env kind r p) (λ _. drop_migrate env kind p >>= check_policy)
          (create_policy p)

    -- `Reconcile`
    pub reconcile : NamespacedName → Io W ReconcileResult
    reconcile req = with_resource env (env.get_policy req) reconcile_found
