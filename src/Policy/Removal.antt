-- ===== src/Policy/Removal.antt =====
-- A deletion of a policy that succeeds removed it from MinIO before it cleared the status.
use minio_operator_ext.Base.{◌≡◌, refl, false, Option, some}
use minio_operator_ext.Api.{NamespacedName, MinioPolicy, MinioPolicySpec, Connection}
use minio_operator_ext.Client.{Error, ok, Op, Env, Run, Ensures}
use minio_operator_ext.Lifecycle.{view}
use minio_operator_ext.Reconciler.{Reconciler}
use minio_operator_ext.Tenant.{admin_client_of}
use minio_operator_ext.Tenant.ReadOnly.{admin_client_of-log}
use minio_operator_ext.Resource.Removal.{
  IsRemoval, strict-IsRemoval, quiet-IsRemoval, dispatch-IsRemoval, Removes, with_resource-Removes,
}
use minio_operator_ext.Policy.{kind, delete_policy, reconcile_found, reconcile}
use minio_operator_ext.Policy.Trail.{kind-IsKind}

-- The errors that the deletion lets pass.
abbrev pub judge : Option Error → Option Error
judge e = e

-- The call removes what the status of `p` names, from the tenant that the status names.
pub record RemovesPolicy {W : Type 0} (env : Env W) (r : Reconciler) (p : MinioPolicy) (op : Op)
    : Type 0 where
  pub current : MinioPolicySpec
  pub is_current : p.status.current_spec ≡ some current
  pub mtac : Connection
  pub run : Run W
  pub connected :
      (admin_client_of env current.tenant_ref p.meta.namespace r.minio_operator_namespace run).0
      ≡ ok mtac
  pub is_op : op ≡ Op.remove_canned_policy mtac current.name

module _ {W : Type 0} (env : Env W) (r : Reconciler) where
  delete_policy-IsRemoval :
      (p : MinioPolicy) (c : MinioPolicySpec) (s : Run W)
      → p.status.current_spec ≡ some c
      → Ensures
          (λ _ s'.
            IsRemoval env judge
              (RemovesPolicy env r p)
              (record (view env p.meta p.status.current_spec) { managed = false })
              s.log
              s'.log)
          (delete_policy env r p c)
          s
  unfolding delete_policy
  delete_policy-IsRemoval p c s is_current =
      quiet-IsRemoval env (kind env) (kind-IsKind env) r judge (RemovesPolicy env r p) p
        (admin_client_of env c.tenant_ref p.meta.namespace r.minio_operator_namespace) _ s
        (admin_client_of-log env c.tenant_ref p.meta.namespace r.minio_operator_namespace s)
        (λ mtac s1 connected.
          let op = Op.remove_canned_policy mtac c.name in
          strict-IsRemoval env (kind env) (kind-IsKind env) r judge (RemovesPolicy env r p) p op
            (env.act op) s1 refl
            (record {
              current = c;
              is_current = is_current;
              mtac = mtac;
              run = s;
              connected = connected;
              is_op = refl;
            })
            refl)

  pub reconcile_policy-Removes :
      (req : NamespacedName) (w : W) (p : MinioPolicy)
      → (env.get_policy req w).0 ≡ ok p
      → Removes env judge
          (RemovesPolicy env r p)
          (view env p.meta p.status.current_spec)
          (reconcile env r req)
          w
  unfolding reconcile reconcile_found
  reconcile_policy-Removes req =
      with_resource-Removes env (kind env) judge (RemovesPolicy env r) (env.get_policy req)
        (reconcile_found env r)
        (λ p s.
          dispatch-IsRemoval env (kind env) (kind-IsKind env) r judge (RemovesPolicy env r p) p s
            (delete_policy env r p) _ _ (λ c. delete_policy-IsRemoval p c s))
