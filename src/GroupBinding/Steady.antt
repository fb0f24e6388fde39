-- ===== src/GroupBinding/Steady.antt =====
-- A group binding that is in order is left alone.
use minio_operator_ext.Base.{◌≡◌, true, false, some, arith, contains, ◌==◌, string_eq}
use minio_operator_ext.Api.{
  MinioGroupBinding, MinioGroupBindingSpec, Connection, GroupDesc, group_binding_spec_eq,
}
use minio_operator_ext.Client.{ok, Env, Run}
use minio_operator_ext.Reconciler.{Reconciler, zero_time, guarded, dispatch}
use minio_operator_ext.Resource.{drop_migrate}
use minio_operator_ext.Tenant.{admin_client_of}
use minio_operator_ext.Tenant.ReadOnly.{admin_client_of-log}
use minio_operator_ext.GroupBinding.{check_binding, compare_binding, reconcile_found}

module _ {W : Type 0} (env : Env W) (r : Reconciler) where
  -- Given the client of the tenant: a group binding with the finalizer, not marked for deletion and with `migrate` off, whose status has the spec, and whose user is a member in MinIO:
  -- the reconciliation succeeds and makes no call that changes something.
  pub reconcile_group_binding-steady :
      (gb : MinioGroupBinding) (c : MinioGroupBindingSpec) (mtac : Connection) (gd : GroupDesc)
      (s s1 : Run W) (w : W)
      → zero_time env gb.meta ≡ true
      → guarded env gb.meta ≡ true
      → gb.status.current_spec ≡ some c
      → gb.spec.migrate ≡ false
      → admin_client_of env c.tenant_ref gb.meta.namespace r.minio_operator_namespace s
        ≡ (ok mtac, s1)
      → env.get_group_description mtac c.group s1.world ≡ (ok gd, w)
      → contains gd.members c.user ≡ true
      → (c == gb.spec) ≡ true
      → ((reconcile_found env r gb s).0 ≡ ok (record { requeue_after = r.sync_interval }))
        × ((reconcile_found env r gb s).1.log ≡ s.log)
  unfolding reconcile_found dispatch drop_migrate check_binding compare_binding
  reconcile_group_binding-steady gb c mtac gd s s1 w z f n m a d b e =
      grind (arith, admin_client_of-log env)
