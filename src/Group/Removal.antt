-- ===== src/Group/Removal.antt =====
-- A deletion of a group that succeeds removed it from MinIO before it cleared the status.
use minio_operator_ext.Base.{◌≡◌, refl, true, false, [], Option, some}
use minio_operator_ext.Api.{NamespacedName, MinioGroup, MinioGroupSpec, Connection}
use minio_operator_ext.Client.{Error, ok, Op, ignore_madmin_error_code, Env, Run, Ensures}
use minio_operator_ext.Lifecycle.{view}
use minio_operator_ext.Reconciler.{Reconciler}
use minio_operator_ext.Tenant.{admin_client_of}
use minio_operator_ext.Tenant.ReadOnly.{admin_client_of-log}
use minio_operator_ext.Resource.Removal.{
  IsRemoval, judged-IsRemoval, quiet-IsRemoval, dispatch-IsRemoval, Removes, with_resource-Removes,
}
use minio_operator_ext.Group.{kind, delete_group, reconcile_found, reconcile}
use minio_operator_ext.Group.Trail.{kind-IsKind}

-- The errors that the deletion lets pass.
abbrev pub judge : Option Error → Option Error
judge e = ignore_madmin_error_code e "XMinioAdminNoSuchGroup"

-- The call removes what the status of `g` names, from the tenant that the status names.
pub record RemovesGroup {W : Type 0} (env : Env W) (r : Reconciler) (g : MinioGroup) (op : Op)
    : Type 0 where
  pub current : MinioGroupSpec
  pub is_current : g.status.current_spec ≡ some current
  pub mtac : Connection
  pub run : Run W
  pub connected :
      (admin_client_of env current.tenant_ref g.meta.namespace r.minio_operator_namespace run).0
      ≡ ok mtac
  pub is_op :
      op
      ≡ Op.update_group_members mtac
          (record { group = current.name; members = []; is_remove = true })

module _ {W : Type 0} (env : Env W) (r : Reconciler) where
  delete_group-IsRemoval :
      (g : MinioGroup) (c : MinioGroupSpec) (s : Run W)
      → g.status.current_spec ≡ some c
      → Ensures
          (λ _ s'.
            IsRemoval env judge
              (RemovesGroup env r g)
              (record (view env g.meta g.status.current_spec) { managed = false })
              s.log
              s'.log)
          (delete_group env r g c)
          s
  unfolding delete_group
  delete_group-IsRemoval g c s is_current =
      quiet-IsRemoval env (kind env) (kind-IsKind env) r judge (RemovesGroup env r g) g
        (admin_client_of env c.tenant_ref g.meta.namespace r.minio_operator_namespace) _ s
        (admin_client_of-log env c.tenant_ref g.meta.namespace r.minio_operator_namespace s)
        (λ mtac s1 connected.
          let op =
            Op.update_group_members mtac
              (record { group = c.name; members = []; is_remove = true }) in
          judged-IsRemoval env (kind env) (kind-IsKind env) r judge (RemovesGroup env r g) g op
            (env.act op) s1 refl
            (record {
              current = c;
              is_current = is_current;
              mtac = mtac;
              run = s;
              connected = connected;
              is_op = refl;
            }))

  pub reconcile_group-Removes :
      (req : NamespacedName) (w : W) (g : MinioGroup)
      → (env.get_group req w).0 ≡ ok g
      → Removes env judge
          (RemovesGroup env r g)
          (view env g.meta g.status.current_spec)
          (reconcile env r req)
          w
  unfolding reconcile reconcile_found
  reconcile_group-Removes req =
      with_resource-Removes env (kind env) judge (RemovesGroup env r) (env.get_group req)
        (reconcile_found env r)
        (λ g s.
          dispatch-IsRemoval env (kind env) (kind-IsKind env) r judge (RemovesGroup env r g) g s
            (delete_group env r g) _ _ (λ c. delete_group-IsRemoval g c s))
