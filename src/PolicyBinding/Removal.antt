-- ===== src/PolicyBinding/Removal.antt =====
-- A deletion of a policy binding that succeeds removed it from MinIO before it cleared the status.
use minio_operator_ext.Base.{
  refl, ◌≢◌, ◌⊎◌, inl, inr, ◌∷◌, [], ◌==◌, string_eq, path_of_same, Bool-cases, ◌≡◌, false, Option,
  if◌then◌else◌, arith, some,
}
use minio_operator_ext.Api.{NamespacedName, MinioPolicyBinding, MinioPolicyBindingSpec, Connection}
use minio_operator_ext.Client.{Error, ok, Op, ignore_madmin_error_code, Env, Run, Ensures}
use minio_operator_ext.Lifecycle.{view}
use minio_operator_ext.Reconciler.{Reconciler}
use minio_operator_ext.Tenant.{admin_client_of}
use minio_operator_ext.Tenant.ReadOnly.{admin_client_of-log}
use minio_operator_ext.Resource.Removal.{
  IsRemoval, judged-IsRemoval, quiet-IsRemoval, dispatch-IsRemoval, Removes, with_resource-Removes,
}
use minio_operator_ext.PolicyBinding.{
  kind, is_ldap, association_of, detach_policy_member, reconcile_found, reconcile,
}
use minio_operator_ext.PolicyBinding.Trail.{kind-IsKind}

-- The errors that the deletion lets pass.
abbrev pub judge : Option Error → Option Error
judge e =
    ignore_madmin_error_code (ignore_madmin_error_code e "XMinioAdminNoSuchUser")
      "XMinioAdminNoSuchGroup"

-- The call that takes the policy from the LDAP identity, if there is one, and else from the builtin one.
pub data Detaches (current : MinioPolicyBindingSpec) (mtac : Connection) (op : Op) : Type 0 where
  ldap :
      ((current.group.ldap ≢ "") ⊎ (current.user.ldap ≢ ""))
      → op
        ≡ Op.detach_policy_ldap mtac (record {
          group = current.group.ldap;
          policies = current.policy ∷ [];
          user = current.user.ldap;
        })
      → Detaches current mtac op
  builtin :
      current.group.ldap ≡ ""
      → current.user.ldap ≡ ""
      → op
        ≡ Op.detach_policy mtac (record {
          group = current.group.builtin;
          policies = current.policy ∷ [];
          user = current.user.builtin;
        })
      → Detaches current mtac op

-- The call removes what the status of `pb` names, from the tenant that the status names.
pub record RemovesBinding {W : Type 0} (env : Env W) (r : Reconciler) (pb : MinioPolicyBinding)
    (op : Op) : Type 0 where
  pub current : MinioPolicyBindingSpec
  pub is_current : pb.status.current_spec ≡ some current
  pub mtac : Connection
  pub run : Run W
  pub connected :
      (admin_client_of env current.tenant_ref pb.meta.namespace r.minio_operator_namespace run).0
      ≡ ok mtac
  pub is_op : Detaches current mtac op

abbrev detach_op : MinioPolicyBindingSpec → Connection → Op
detach_op c mtac =
    if is_ldap c
    then Op.detach_policy_ldap mtac (association_of c)
    else Op.detach_policy mtac (association_of c)

detaches : (c : MinioPolicyBindingSpec) (mtac : Connection) → Detaches c mtac (detach_op c mtac)
unfolding is_ldap association_of
detaches c mtac = elim (Bool-cases (c.group.ldap == "")) [
  | inr g ↦ rw g (Detaches.ldap (inl (ground (arith, g, string_eq.same_iff c.group.ldap ""))) refl)
  | inl g ↦ elim (Bool-cases (c.user.ldap == "")) [
    | inr u ↦
        rw (g, u) (Detaches.ldap (inr (ground (arith, u, string_eq.same_iff c.user.ldap ""))) refl)
    | inl u ↦
        rw (g, u)
          (Detaches.builtin (path_of_same c.group.ldap "" g) (path_of_same c.user.ldap "" u) refl)
  ]
]

module _ {W : Type 0} (env : Env W) (r : Reconciler) where
  detach_policy_member-IsRemoval :
      (pb : MinioPolicyBinding) (c : MinioPolicyBindingSpec) (s : Run W)
      → pb.status.current_spec ≡ some c
      → Ensures
          (λ _ s'.
            IsRemoval env judge
              (RemovesBinding env r pb)
              (record (view env pb.meta pb.status.current_spec) { managed = false })
              s.log
              s'.log)
          (detach_policy_member env r pb c)
          s
  unfolding detach_policy_member
  detach_policy_member-IsRemoval pb c s is_current =
      quiet-IsRemoval env (kind env) (kind-IsKind env) r judge (RemovesBinding env r pb) pb
        (admin_client_of env c.tenant_ref pb.meta.namespace r.minio_operator_namespace) _ s
        (admin_client_of-log env c.tenant_ref pb.meta.namespace r.minio_operator_namespace s)
        (λ mtac s1 connected.
          let op = detach_op c mtac in
          judged-IsRemoval env (kind env) (kind-IsKind env) r judge (RemovesBinding env r pb) pb op
            (env.act op) s1 (ground arith)
            (record {
              current = c;
              is_current = is_current;
              mtac = mtac;
              run = s;
              connected = connected;
              is_op = detaches c mtac;
            }))

  pub reconcile_policy_binding-Removes :
      (req : NamespacedName) (w : W) (pb : MinioPolicyBinding)
      → (env.get_policy_binding req w).0 ≡ ok pb
      → Removes env judge
          (RemovesBinding env r pb)
          (view env pb.meta pb.status.current_spec)
          (reconcile env r req)
          w
  unfolding reconcile reconcile_found
  reconcile_policy_binding-Removes req =
      with_resource-Removes env (kind env) judge (RemovesBinding env r) (env.get_policy_binding req)
        (reconcile_found env r)
        (λ pb s.
          dispatch-IsRemoval env (kind env) (kind-IsKind env) r judge (RemovesBinding env r pb) pb s
            (detach_policy_member env r pb) _ _ (λ c. detach_policy_member-IsRemoval pb c s))
