-- ===== src/Group/Steady.antt =====
-- A group that is in order is left alone.
use minio_operator_ext.Base.{◌≡◌, true, false, some, arith}
use minio_operator_ext.Api.{MinioGroup, MinioGroupSpec, Connection, GroupDesc}
use minio_operator_ext.Client.{ok, Env, Run}
use minio_operator_ext.Reconciler.{Reconciler, zero_time, guarded, dispatch}
use minio_operator_ext.Resource.{drop_migrate}
use minio_operator_ext.Tenant.{admin_client_of}
use minio_operator_ext.Tenant.ReadOnly.{admin_client_of-log}
use minio_operator_ext.Group.{check_group, reconcile_found}

module _ {W : Type 0} (env : Env W) (r : Reconciler) where
  -- Given the client of the tenant: a group with the finalizer and a status, not marked for deletion and with `migrate` off, that
  -- MinIO has: the reconciliation succeeds and makes no call that changes something.
  pub reconcile_group-steady :
      (g : MinioGroup) (c : MinioGroupSpec) (mtac : Connection) (gd : GroupDesc) (s : Run W)
      → zero_time env g.meta ≡ true
      → guarded env g.meta ≡ true
      → g.status.current_spec ≡ some c
      → g.spec.migrate ≡ false
      → (admin_client_of env c.tenant_ref g.meta.namespace r.minio_operator_namespace s).0 ≡ ok mtac
      → (env.get_group_description mtac c.name
          (admin_client_of env c.tenant_ref g.meta.namespace r.minio_operator_namespace
            s).1.world).0
        ≡ ok gd
      → ((reconcile_found env r g s).0 ≡ ok (record { requeue_after = r.sync_interval }))
        × ((reconcile_found env r g s).1.log ≡ s.log)
  unfolding reconcile_found dispatch drop_migrate check_group
  reconcile_group-steady g c mtac gd s z f n m a d = grind (arith, admin_client_of-log env)
