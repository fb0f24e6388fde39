-- ===== src/GroupBinding.antt =====
-- internal/operator/minio_group_binding_reconciler.go.
pub mod Trail
pub mod Steady
pub mod Steps
pub mod Progress
pub mod Removal
pub mod Creation
use minio_operator_ext.Base.{
  String, ◌++◌, Bool, true, false, not, ◌&&◌, Option, none, some, List, [], ◌∷◌, if◌then◌else◌,
  contains, ◌==◌, string_eq,
}
use minio_operator_ext.Api.{
  NamespacedName, MinioGroupBinding, MinioGroupBindingSpec, Connection, GroupAddRemove,
  group_binding_spec_eq,
}
use minio_operator_ext.Client.{
  message, Op, error_of, ignore_madmin_error_code, Env, Io, ◌>>=◌, ◌>>◌, pure, throw, deref, query,
  perform, attempt, check,
}
use minio_operator_ext.Tenant.{admin_client_of}
use minio_operator_ext.Resource.{
  Kind, update, drop_migrate, add_finalizer, clear_finalizer, clear_status,
}
use minio_operator_ext.Reconciler.{
  finalizer, Reconciler, ReconcileResult, succeed, with_resource, dispatch,
}

module _ {W : Type 0} (env : Env W) where
  -- `mtac.UpdateGroupMembers(ctx, req)`
  abbrev pub update_group_members : Connection → GroupAddRemove → Io W (Unit {0})
  update_group_members mtac req =
      perform (Op.update_group_members mtac req) (env.act (Op.update_group_members mtac req))

  abbrev pub clear_migrate : MinioGroupBinding → MinioGroupBinding
  clear_migrate gb = record gb { spec = record gb.spec { migrate = false } }

  abbrev pub set_current_spec : MinioGroupBinding → Option MinioGroupBindingSpec → MinioGroupBinding
  set_current_spec gb c = record gb { status = record gb.status { current_spec = c } }

  abbrev pub kind : Kind W MinioGroupBinding MinioGroupBindingSpec
  kind = record {
    meta = λ gb. gb.meta;
    spec = λ gb. gb.spec;
    current_spec = λ gb. gb.status.current_spec;
    migrate = λ gb. gb.spec.migrate;
    set_finalizers = λ gb fs. record gb { meta = record gb.meta { finalizers = fs } };
    set_current_spec = set_current_spec;
    clear_migrate = clear_migrate;
    op = λ gb. Op.update_group_binding gb;
    call = env.update_group_binding;
  }

  module _ (r : Reconciler) where
    -- The closure `deleteGroupMember`, and `success()` behind it.
    pub delete_group_member : MinioGroupBinding → MinioGroupBindingSpec → Io W ReconcileResult
    delete_group_member gb current = do
      mtac ← admin_client_of env current.tenant_ref gb.meta.namespace r.minio_operator_namespace
      removed ← attempt (
          update_group_members mtac
            (record { group = current.group; members = current.user ∷ []; is_remove = true }))
      check (ignore_madmin_error_code (error_of removed) "XMinioAdminNoSuchUser")
      clear_status env kind r gb

    -- Cleared if the user is no member any more; undone if the spec differs from the status.
    compare_binding : Connection → MinioGroupBindingSpec → MinioGroupBinding → Io W ReconcileResult
    compare_binding mtac current gb = do
      gd ← query (env.get_group_description mtac current.group)
      if not (contains gd.members current.user)
          then clear_status env kind r gb
          else if not (current == gb.spec)
          then delete_group_member gb current
          else succeed r

    -- Status set.
    pub check_binding : MinioGroupBinding → Io W ReconcileResult
    check_binding gb = do
      current ← deref gb.status.current_spec
      mtac ← admin_client_of env current.tenant_ref gb.meta.namespace r.minio_operator_namespace
      compare_binding mtac current gb

    -- Status unset: the user is made a member, then the status is set.
    unfoldable pub add_group_member : MinioGroupBinding → Io W ReconcileResult
    add_group_member gb = do
      mtac ← admin_client_of env gb.spec.tenant_ref gb.meta.namespace r.minio_operator_namespace
      gd ← query (env.get_group_description mtac gb.spec.group)
      let exists = contains gd.members gb.spec.user
      if exists && not gb.spec.migrate
          then throw
              (message ("user " ++ gb.spec.user ++ " already member of group " ++ gb.spec.group))
          else (do
            update_group_members mtac
                (record { group = gb.spec.group; members = gb.spec.user ∷ []; is_remove = false })
            let gb2 = clear_migrate gb
            update env kind (set_current_spec gb2 (some gb2.spec))
            succeed r)

    -- The branches of `Reconcile` behind `r.Get`.
    pub reconcile_found : MinioGroupBinding → Io W ReconcileResult
    reconcile_found gb =
        dispatch env gb.meta gb.status.current_spec (delete_group_member gb)
          (clear_finalizer env kind r gb) (add_finalizer env kind r gb)
          (λ _. drop_migrate env kind gb >>= check_binding) (add_group_member gb)

    -- `Reconcile`
    pub reconcile : NamespacedName → Io W ReconcileResult
    reconcile req = with_resource env (env.get_group_binding req) reconcile_found
