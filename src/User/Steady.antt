-- ===== src/User/Steady.antt =====
-- A user that is in order is left alone; a new secret key is sent.
use minio_operator_ext.Base.{
  ◌∷◌, String, ◌≡◌, true, false, none, some, arith, index, ◌==◌, string_eq,
}
use minio_operator_ext.Api.{
  NamespacedName, MinioUser, MinioUserSpec, Connection, Secret, set_default_key_namespace,
}
use minio_operator_ext.Client.{Op, ok, Env, Run}
use minio_operator_ext.Reconciler.{Reconciler, ReconcileResult, zero_time, guarded, dispatch}
use minio_operator_ext.Resource.{drop_migrate}
use minio_operator_ext.Tenant.{admin_client_of}
use minio_operator_ext.Tenant.ReadOnly.{admin_client_of-log}
use minio_operator_ext.User.{
  get_access_key, update_secret_key, look_up_user, check_user, reconcile_found,
}
use minio_operator_ext.User.Trail.{get_access_key-log}

module _ {W : Type 0} (env : Env W) (r : Reconciler) where
  -- The version of the secret is not the one of the status: a check that succeeds sent the secret's
  -- key to MinIO, and then noted the version; it made no other call that changes something.
  pub update_secret_key-log :
      (req : NamespacedName) (mtac : Connection) (key : String) (c : MinioUserSpec) (u : MinioUser)
      (us : Secret) (w : W) (res : ReconcileResult) (s : Run W)
      → env.get_secret
          (record {
            namespace = (set_default_key_namespace c.secret_key_ref req.namespace).namespace;
            name = (set_default_key_namespace c.secret_key_ref req.namespace).name;
          })
          s.world
        ≡ (ok us, w)
      → (us.meta.resource_version == u.status.current_secret_key_ref_resource_version) ≡ false
      → (update_secret_key env r req mtac key c u s).0 ≡ ok res
      → (update_secret_key env r req mtac key c u s).1.log
        ≡ record {
          op = Op.update_user (record u {
            status = record u.status {
              current_secret_key_ref_resource_version = us.meta.resource_version;
            };
          });
          failure = none;
        }
          ∷ record {
            op = Op.add_user mtac key (index "" c.secret_key_ref.key us.contents);
            failure = none;
          }
          ∷ s.log
  unfolding update_secret_key
  update_secret_key-log req mtac key c u us w res s got other = rw (got, other) (λ e. grind arith)

  -- Given the client of the tenant and the access key: a user with the finalizer and a status, not marked for deletion and with `migrate` off, that
  -- MinIO has, and whose secret has the version of the status: the reconciliation succeeds and makes
  -- no call that changes something.
  pub reconcile_user-steady :
      (req : NamespacedName) (u : MinioUser) (c : MinioUserSpec) (mtac : Connection) (key : String)
      (us : Secret) (s s1 s2 : Run W) (w3 w4 : W)
      → zero_time env u.meta ≡ true
      → guarded env u.meta ≡ true
      → u.status.current_spec ≡ some c
      → u.spec.migrate ≡ false
      → admin_client_of env c.tenant_ref u.meta.namespace r.minio_operator_namespace s
        ≡ (ok mtac, s1)
      → get_access_key env c u.meta.namespace s1 ≡ (ok key, s2)
      → env.get_user_info mtac key s2.world ≡ (ok tt, w3)
      → env.get_secret
          (record {
            namespace = (set_default_key_namespace c.secret_key_ref req.namespace).namespace;
            name = (set_default_key_namespace c.secret_key_ref req.namespace).name;
          })
          w3
        ≡ (ok us, w4)
      → (us.meta.resource_version == u.status.current_secret_key_ref_resource_version) ≡ true
      → ((reconcile_found env r req u s).0 ≡ ok (record { requeue_after = r.sync_interval }))
        × ((reconcile_found env r req u s).1.log ≡ s.log)
  unfolding reconcile_found dispatch drop_migrate check_user look_up_user update_secret_key
  reconcile_user-steady req u c mtac key us s s1 s2 w3 w4 z f n m a k i g v =
      grind (arith, admin_client_of-log env, get_access_key-log env)
