-- ===== src/GroupBinding/Removal.antt =====
-- A deletion of a group binding that succeeds removed it from MinIO before it cleared the status.
use minio_operator_ext.Base.{◌≡◌, refl, true, false, [], ◌∷◌, Option, some}
use minio_operator_ext.Api.{NamespacedName, MinioGroupBinding, MinioGroupBindingSpec, Connection}
use minio_operator_ext.Client.{Error, ok, Op, ignore_madmin_error_code, Env, Run, Ensures}
use minio_operator_ext.Lifecycle.{view}
use minio_operator_ext.Reconciler.{Reconciler}
use minio_operator_ext.Tenant.{admin_client_of}
use minio_operator_ext.Tenant.ReadOnly.{admin_client_of-log}
use minio_operator_ext.Resource.Removal.{
  IsRemoval, judged-IsRemoval, quiet-IsRemoval, dispatch-IsRemoval, Removes, with_resource-Removes,
}
use minio_operator_ext.GroupBinding.{kind, delete_group_member, reconcile_found, reconcile}
use minio_operator_ext.GroupBinding.Trail.{kind-IsKind}

-- The errors that the deletion lets pass.
abbrev pub judge : Option Error → Option Error
judge e = ignore_madmin_error_code e "XMinioAdminNoSuchUser"

-- The call removes what the status of `gb` names, from the tenant that the status names.
pub record RemovesMember {W : Type 0} (env : Env W) (r : Reconciler) (gb : MinioGroupBinding)
    (op : Op) : Type 0 where
  pub current : MinioGroupBindingSpec
  pub is_current : gb.status.current_spec ≡ some current
  pub mtac : Connection
  pub run : Run W
  pub connected :
      (admin_client_of env current.tenant_ref gb.meta.namespace r.minio_operator_namespace run).0
      ≡ ok mtac
  pub is_op :
      op
      ≡ Op.update_group_members mtac
          (record { group = current.group; members = current.user ∷ []; is_remove = true })

module _ {W : Type 0} (env : Env W) (r : Reconciler) where
  delete_group_member-IsRemoval :
      (gb : MinioGroupBinding) (c : MinioGroupBindingSpec) (s : Run W)
      → gb.status.current_spec ≡ some c
      → Ensures
          (λ _ s'.
            IsRemoval env judge
              (RemovesMember env r gb)
              (record (view env gb.meta gb.status.current_spec) { managed = false })
              s.log
              s'.log)
          (delete_group_member env r gb c)
          s
  unfolding delete_group_member
  delete_group_member-IsRemoval gb c s is_current =
      quiet-IsRemoval env (kind env) (kind-IsKind env) r judge (RemovesMember env r gb) gb
        (admin_client_of env c.tenant_ref gb.meta.namespace r.minio_operator_namespace) _ s
        (admin_client_of-log env c.tenant_ref gb.meta.namespace r.minio_operator_namespace s)
        (λ mtac s1 connected.
          let op =
            Op.update_group_members mtac
              (record { group = c.group; members = c.user ∷ []; is_remove = true }) in
          judged-IsRemoval env (kind env) (kind-IsKind env) r judge (RemovesMember env r gb) gb op
            (env.act op) s1 refl
            (record {
              current = c;
              is_current = is_current;
              mtac = mtac;
              run = s;
              connected = connected;
              is_op = refl;
            }))

  pub reconcile_group_binding-Removes :
      (req : NamespacedName) (w : W) (gb : MinioGroupBinding)
      → (env.get_group_binding req w).0 ≡ ok gb
      → Removes env judge
          (RemovesMember env r gb)
          (view env gb.meta gb.status.current_spec)
          (reconcile env r req)
          w
  unfolding reconcile reconcile_found
  reconcile_group_binding-Removes req =
      with_resource-Removes env (kind env) judge (RemovesMember env r) (env.get_group_binding req)
        (reconcile_found env r)
        (λ gb s.
          dispatch-IsRemoval env (kind env) (kind-IsKind env) r judge (RemovesMember env r gb) gb s
            (delete_group_member env r gb) _ _ (λ c. delete_group_member-IsRemoval gb c s))
