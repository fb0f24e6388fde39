-- ===== src/User/Removal.antt =====
-- A deletion of a user that succeeds removed it from MinIO before it cleared the status.
use minio_operator_ext.Base.{String, ◌≡◌, refl, false, Option, some}
use minio_operator_ext.Api.{NamespacedName, MinioUser, MinioUserSpec, Connection}
use minio_operator_ext.Client.{Error, ok, Op, ignore_madmin_error_code, Env, Run, Ensures}
use minio_operator_ext.Lifecycle.{view}
use minio_operator_ext.Reconciler.{Reconciler}
use minio_operator_ext.Tenant.{admin_client_of}
use minio_operator_ext.Tenant.ReadOnly.{admin_client_of-log}
use minio_operator_ext.Resource.Removal.{
  IsRemoval, judged-IsRemoval, quiet-IsRemoval, dispatch-IsRemoval, Removes, with_resource-Removes,
}
use minio_operator_ext.User.{kind, get_access_key, delete_user, reconcile_found, reconcile}
use minio_operator_ext.User.Trail.{kind-IsKind, get_access_key-log}

-- The errors that the deletion lets pass.
abbrev pub judge : Option Error → Option Error
judge e = ignore_madmin_error_code e "XMinioAdminNoSuchUser"

-- The call removes what the status of `u` names, from the tenant that the status names.
pub record RemovesUser {W : Type 0} (env : Env W) (r : Reconciler) (u : MinioUser) (op : Op)
    : Type 0 where
  pub current : MinioUserSpec
  pub is_current : u.status.current_spec ≡ some current
  pub mtac : Connection
  pub run : Run W
  pub connected :
      (admin_client_of env current.tenant_ref u.meta.namespace r.minio_operator_namespace run).0
      ≡ ok mtac
  pub access_key : String
  pub later : Run W
  pub named : (get_access_key env current u.meta.namespace later).0 ≡ ok access_key
  pub is_op : op ≡ Op.remove_user mtac access_key

module _ {W : Type 0} (env : Env W) (r : Reconciler) where
  delete_user-IsRemoval :
      (u : MinioUser) (c : MinioUserSpec) (s : Run W)
      → u.status.current_spec ≡ some c
      → Ensures
          (λ _ s'.
            IsRemoval env judge
              (RemovesUser env r u)
              (record (view env u.meta u.status.current_spec) { managed = false })
              s.log
              s'.log)
          (delete_user env r u c)
          s
  unfolding delete_user
  delete_user-IsRemoval u c s is_current =
      quiet-IsRemoval env (kind env) (kind-IsKind env) r judge (RemovesUser env r u) u
        (admin_client_of env c.tenant_ref u.meta.namespace r.minio_operator_namespace) _ s
        (admin_client_of-log env c.tenant_ref u.meta.namespace r.minio_operator_namespace s)
        (λ mtac s1 connected.
          quiet-IsRemoval env (kind env) (kind-IsKind env) r judge (RemovesUser env r u) u
            (get_access_key env c u.meta.namespace) _ s1
            (get_access_key-log env c u.meta.namespace s1)
            (λ access_key s2 named.
              let op = Op.remove_user mtac access_key in
              judged-IsRemoval env (kind env) (kind-IsKind env) r judge (RemovesUser env r u) u op
                (env.act op) s2 refl
                (record {
                  current = c;
                  is_current = is_current;
                  mtac = mtac;
                  run = s;
                  connected = connected;
                  access_key = access_key;
                  later = s1;
                  named = named;
                  is_op = refl;
                })))

  pub reconcile_user-Removes :
      (req : NamespacedName) (w : W) (u : MinioUser)
      → (env.get_user req w).0 ≡ ok u
      → Removes env judge
          (RemovesUser env r u)
          (view env u.meta u.status.current_spec)
          (reconcile env r req)
          w
  unfolding reconcile reconcile_found
  reconcile_user-Removes req =
      with_resource-Removes env (kind env) judge (RemovesUser env r) (env.get_user req)
        (reconcile_found env r req)
        (λ u s.
          dispatch-IsRemoval env (kind env) (kind-IsKind env) r judge (RemovesUser env r u) u s
            (delete_user env r u) _ _ (λ c. delete_user-IsRemoval u c s))
