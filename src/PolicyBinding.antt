-- ===== src/PolicyBinding.antt =====
-- internal/operator/minio_policy_binding_reconciler.go.
pub mod Trail
pub mod Steady
pub mod Members
pub mod Steps
pub mod Progress
pub mod Removal
pub mod Creation
use minio_operator_ext.Base.{
  String, ◌++◌, Bool, true, false, not, ◌&&◌, ◌||◌, Option, none, some, List, [], ◌∷◌,
  if◌then◌else◌, contains, ◌==◌, string_eq,
}
use text.Mathlib.Text.{starts_with}
use minio_operator_ext.Api.{
  NamespacedName, MinioPolicyBinding, MinioPolicyBindingSpec, Connection, PolicyAssociationReq,
  PolicyMapping, IdpConfigItem, policy_binding_spec_eq,
}
use minio_operator_ext.Client.{
  Op, error_of, ignore_madmin_error_code, Env, Io, ◌>>=◌, ◌>>◌, pure, deref, query, perform,
  attempt, check,
}
use minio_operator_ext.Tenant.{admin_client_of}
use minio_operator_ext.Resource.{
  Kind, update, drop_migrate, add_finalizer, clear_finalizer, clear_status,
}
use minio_operator_ext.Reconciler.{
  finalizer, Reconciler, ReconcileResult, succeed, with_resource, dispatch,
}

-- `ldap := spec.Group.Ldap != "" || spec.User.Ldap != ""`
unfoldable pub is_ldap : MinioPolicyBindingSpec → Bool
is_ldap spec = not (spec.group.ldap == "") || not (spec.user.ldap == "")

-- The `madmin.PolicyAssociationReq` of an LDAP identity, and of a builtin one.
unfoldable pub association_of : MinioPolicyBindingSpec → PolicyAssociationReq
unfolding is_ldap
association_of spec =
    if is_ldap spec
    then record { group = spec.group.ldap; policies = spec.policy ∷ []; user = spec.user.ldap }
    else record {
      group = spec.group.builtin;
      policies = spec.policy ∷ [];
      user = spec.user.builtin;
    }

-- The loop over `ipdc.Info`: the value of the first item with that key; "" if there is none.
unfoldable pub user_base_dn : List IdpConfigItem → String
user_base_dn [] = ""
user_base_dn (i ∷ rest) = if i.key == "user_dn_search_base_dn" then i.value else user_base_dn rest

-- A name that is not a distinguished name is completed by the base.
unfoldable pub user_dn : String → String → String
user_dn usbdn u =
    if not (u == "") && not (usbdn == "") && not (starts_with u "cn=")
    then "cn=" ++ u ++ "," ++ usbdn
    else u

-- The loops over `pes.PolicyMappings`.
unfoldable pub is_mapped : String → String → List PolicyMapping → Bool
is_mapped group user [] = false
is_mapped group user (pm ∷ rest) =
    contains pm.groups group || contains pm.users user || is_mapped group user rest

module _ {W : Type 0} (env : Env W) where
  -- `mtac.AttachPolicy(ctx, req)`, or `AttachPolicyLDAP`
  abbrev pub attach_policy : Bool → Connection → PolicyAssociationReq → Io W (Unit {0})
  attach_policy ldap mtac req =
      let op : Op = if ldap then Op.attach_policy_ldap mtac req else Op.attach_policy mtac req in
      perform op (env.act op)

  -- `mtac.DetachPolicy(ctx, req)`, or `DetachPolicyLDAP`
  abbrev pub detach_policy : Bool → Connection → PolicyAssociationReq → Io W (Unit {0})
  detach_policy ldap mtac req =
      let op : Op = if ldap then Op.detach_policy_ldap mtac req else Op.detach_policy mtac req in
      perform op (env.act op)

  abbrev pub clear_migrate : MinioPolicyBinding → MinioPolicyBinding
  clear_migrate pb = record pb { spec = record pb.spec { migrate = false } }

  abbrev pub set_current_spec :
      MinioPolicyBinding → Option MinioPolicyBindingSpec → MinioPolicyBinding
  set_current_spec pb c = record pb { status = record pb.status { current_spec = c } }

  abbrev pub kind : Kind W MinioPolicyBinding MinioPolicyBindingSpec
  kind = record {
    meta = λ pb. pb.meta;
    spec = λ pb. pb.spec;
    current_spec = λ pb. pb.status.current_spec;
    migrate = λ pb. pb.spec.migrate;
    set_finalizers = λ pb fs. record pb { meta = record pb.meta { finalizers = fs } };
    set_current_spec = set_current_spec;
    clear_migrate = clear_migrate;
    op = λ pb. Op.update_policy_binding pb;
    call = env.update_policy_binding;
  }

  -- Does MinIO still have the binding?
  unfoldable pub is_bound : Connection → MinioPolicyBindingSpec → Io W Bool
  is_bound mtac current =
      if is_ldap current
      then (do
        pes ← query (env.get_ldap_policy_entities mtac (current.policy ∷ []))
        info ← query (env.get_idp_config mtac "ldap" "")
        pure (is_mapped current.group.ldap (user_dn (user_base_dn info) current.user.ldap) pes))
      else (do
        pes ← query (env.get_policy_entities mtac (current.policy ∷ []))
        pure (is_mapped current.group.builtin current.user.builtin pes))

  module _ (r : Reconciler) where
    -- The closure `detachPolicyMember`, and `success()` behind it.
    pub detach_policy_member : MinioPolicyBinding → MinioPolicyBindingSpec → Io W ReconcileResult
    detach_policy_member pb current = do
      mtac ← admin_client_of env current.tenant_ref pb.meta.namespace r.minio_operator_namespace
      detached ← attempt (detach_policy (is_ldap current) mtac (association_of current))
      let e = ignore_madmin_error_code (error_of detached) "XMinioAdminNoSuchUser"
      check (ignore_madmin_error_code e "XMinioAdminNoSuchGroup")
      clear_status env kind r pb

    -- Undone if the spec differs from the status; cleared if MinIO has lost the binding.
    compare_binding :
        Connection → MinioPolicyBindingSpec → MinioPolicyBinding → Io W ReconcileResult
    compare_binding mac current pb =
        if not (current == pb.spec) then detach_policy_member pb current else (do
          found ← is_bound mac current
          if found then succeed r else clear_status env kind r pb)

    -- Status set.
    pub check_binding : MinioPolicyBinding → Io W ReconcileResult
    check_binding pb = do
      current ← deref pb.status.current_spec
      mac ← admin_client_of env current.tenant_ref pb.meta.namespace r.minio_operator_namespace
      compare_binding mac current pb

    -- Status unset: the policy is attached, then the status is set.
    unfoldable pub attach_policy_member : MinioPolicyBinding → Io W ReconcileResult
    attach_policy_member pb = do
      mtac ← admin_client_of env pb.spec.tenant_ref pb.meta.namespace r.minio_operator_namespace
      attached ← attempt (attach_policy (is_ldap pb.spec) mtac (association_of pb.spec))
      check (
          if pb.spec.migrate
          then ignore_madmin_error_code (error_of attached) "XMinioAdminPolicyChangeAlreadyApplied"
          else error_of attached)
      let pb2 = clear_migrate pb
      update env kind (set_current_spec pb2 (some pb2.spec))
      succeed r

    -- The branches of `Reconcile` behind `r.Get`.
    pub reconcile_found : MinioPolicyBinding → Io W ReconcileResult
    reconcile_found pb =
        dispatch env pb.meta pb.status.current_spec (detach_policy_member pb)
          (clear_finalizer env kind r pb) (add_finalizer env kind r pb)
          (λ _. drop_migrate env kind pb >>= check_binding) (attach_policy_member pb)

    -- `Reconcile`
    pub reconcile : NamespacedName → Io W ReconcileResult
    reconcile req = with_resource env (env.get_policy_binding req) reconcile_found
