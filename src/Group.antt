-- ===== src/Group.antt =====
-- internal/operator/minio_group_reconciler.go.
pub mod Trail
pub mod Steady
pub mod Steps
pub mod Progress
pub mod Removal
pub mod Creation
use minio_operator_ext.Base.{
  String, ◌++◌, Bool, true, false, not, ◌&&◌, Option, none, some, List, [], if◌then◌else◌,
}
use minio_operator_ext.Api.{NamespacedName, MinioGroup, MinioGroupSpec, Connection, GroupAddRemove}
use minio_operator_ext.Client.{
  message, Op, ok, err, error_of, is_madmin_error_code, ignore_madmin_error_code, Env, Io, ◌>>=◌,
  ◌>>◌, pure, deref, query, perform, attempt, check,
}
use minio_operator_ext.Tenant.{admin_client_of}
use minio_operator_ext.Resource.{
  Kind, update, drop_migrate, add_finalizer, clear_finalizer, clear_status,
}
use minio_operator_ext.Reconciler.{
  finalizer, Reconciler, ReconcileResult, succeed, with_resource, dispatch,
}

module _ {W : Type 0} (env : Env W) where
  -- `mtac.UpdateGroupMembers(ctx, req)`
  abbrev pub update_group_members : Connection → GroupAddRemove → Io W (Unit {0})
  update_group_members mtac req =
      perform (Op.update_group_members mtac req) (env.act (Op.update_group_members mtac req))

  abbrev pub clear_migrate : MinioGroup → MinioGroup
  clear_migrate g = record g { spec = record g.spec { migrate = false } }

  abbrev pub set_current_spec : MinioGroup → Option MinioGroupSpec → MinioGroup
  set_current_spec g c = record g { status = record g.status { current_spec = c } }

  abbrev pub kind : Kind W MinioGroup MinioGroupSpec
  kind = record {
    meta = λ g. g.meta;
    spec = λ g. g.spec;
    current_spec = λ g. g.status.current_spec;
    migrate = λ g. g.spec.migrate;
    set_finalizers = λ g fs. record g { meta = record g.meta { finalizers = fs } };
    set_current_spec = set_current_spec;
    clear_migrate = clear_migrate;
    op = λ g. Op.update_group g;
    call = env.update_group;
  }

  module _ (r : Reconciler) where
    -- Marked for deletion, status set: the group is deleted, then the status is cleared.
    unfoldable pub delete_group : MinioGroup → MinioGroupSpec → Io W ReconcileResult
    delete_group g current = do
      mtac ← admin_client_of env current.tenant_ref g.meta.namespace r.minio_operator_namespace
      removed ← attempt (
          update_group_members mtac
            (record { group = current.name; members = []; is_remove = true }))
      check (ignore_madmin_error_code (error_of removed) "XMinioAdminNoSuchGroup")
      clear_status env kind r g

    -- Status set: the group is looked up, and the status is cleared if it is gone.
    unfoldable pub check_group : MinioGroup → Io W ReconcileResult
    check_group g = do
      current ← deref g.status.current_spec
      mtac ← admin_client_of env current.tenant_ref g.meta.namespace r.minio_operator_namespace
      described ← attempt (query (env.get_group_description mtac current.name))
      let e = not (is_madmin_error_code (error_of described) "XMinioAdminNoSuchGroup")
      check (ignore_madmin_error_code (error_of described) "XMinioAdminNoSuchGroup")
      if e then succeed r else clear_status env kind r g

    -- Status unset: the group is created, then the status is set.
    unfoldable pub create_group : MinioGroup → Io W ReconcileResult
    create_group g = do
      mtac ← admin_client_of env g.spec.tenant_ref g.meta.namespace r.minio_operator_namespace
      described ← attempt (query (env.get_group_description mtac g.spec.name))
      let exists : Bool = elim described [ ok _ ↦ true | err _ ↦ false ]
      let e =
          if exists && not g.spec.migrate
          then some (message ("group " ++ g.spec.name ++ " already exists"))
          else error_of described
      check (ignore_madmin_error_code e "XMinioAdminNoSuchGroup")
      update_group_members mtac (record { group = g.spec.name; members = []; is_remove = false })
      let g2 = clear_migrate g
      update env kind (set_current_spec g2 (some g2.spec))
      succeed r

    -- The branches of `Reconcile` behind `r.Get`.
    unfoldable pub reconcile_found : MinioGroup → Io W ReconcileResult
    reconcile_found g =
        dispatch env g.meta g.status.current_spec (delete_group g) (clear_finalizer env kind r g)
          (add_finalizer env kind r g) (λ _. drop_migrate env kind g >>= check_group)
          (create_group g)

    -- `Reconcile`
    unfoldable pub reconcile : NamespacedName → Io W ReconcileResult
    reconcile req = with_resource env (env.get_group req) reconcile_found
