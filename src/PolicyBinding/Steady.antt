-- ===== src/PolicyBinding/Steady.antt =====
-- A policy binding that is in order is left alone.
use minio_operator_ext.Base.{◌≡◌, true, false, some, arith, ◌==◌, string_eq}
use minio_operator_ext.Api.{
  MinioPolicyBinding, MinioPolicyBindingSpec, Connection, policy_binding_spec_eq,
}
use minio_operator_ext.Client.{ok, Env, Run}
use minio_operator_ext.Reconciler.{Reconciler, zero_time, guarded, dispatch}
use minio_operator_ext.Resource.{drop_migrate}
use minio_operator_ext.Tenant.{admin_client_of}
use minio_operator_ext.Tenant.ReadOnly.{admin_client_of-log}
use minio_operator_ext.PolicyBinding.{check_binding, compare_binding, is_bound, reconcile_found}
use minio_operator_ext.PolicyBinding.Trail.{is_bound-log}

module _ {W : Type 0} (env : Env W) (r : Reconciler) where
  pub reconcile_policy_binding-steady :
      (pb : MinioPolicyBinding) (c : MinioPolicyBindingSpec) (mtac : Connection) (s s1 s2 : Run W)
      → zero_time env pb.meta ≡ true
      → guarded env pb.meta ≡ true
      → pb.status.current_spec ≡ some c
      → pb.spec.migrate ≡ false
      → admin_client_of env c.tenant_ref pb.meta.namespace r.minio_operator_namespace s
        ≡ (ok mtac, s1)
      → is_bound env mtac c s1 ≡ (ok true, s2)
      → (c == pb.spec) ≡ true
      → ((reconcile_found env r pb s).0 ≡ ok (record { requeue_after = r.sync_interval }))
        × ((reconcile_found env r pb s).1.log ≡ s.log)
  unfolding reconcile_found dispatch drop_migrate check_binding compare_binding
  reconcile_policy_binding-steady pb c mtac s s1 s2 z f n m a b e =
      grind (arith, admin_client_of-log env, is_bound-log env)
