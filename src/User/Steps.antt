-- ===== src/User/Steps.antt =====
-- What creation and deletion of the user reconciler do to MinIO and to the resource.
use minio_operator_ext.Base.{◌≡◌, String, ◌++◌, false, arith, string_eq}
use minio_operator_ext.Api.{NamespacedName, MinioUser, Connection}
use minio_operator_ext.Client.{ok, err, message, Env, Run}
use minio_operator_ext.Reconciler.{Reconciler}
use minio_operator_ext.Tenant.{admin_client_of}
use minio_operator_ext.Tenant.ReadOnly.{admin_client_of-log}
use minio_operator_ext.User.Trail.{get_access_key-log}
use minio_operator_ext.User.{create_user, get_access_key}

module _ {W : Type 0} (env : Env W) (r : Reconciler) where
  -- Given the client of the tenant, and the access key: a user that MinIO has already is not taken
  -- over without `migrate`; the creation returns an error, and nothing is changed.
  pub create_user-no_adoption :
      (req : NamespacedName) (u : MinioUser) (mtac : Connection) (key : String) (s : Run W)
      → (admin_client_of env u.spec.tenant_ref u.meta.namespace r.minio_operator_namespace s).0
        ≡ ok mtac
      → (get_access_key env u.spec u.meta.namespace
          (admin_client_of env u.spec.tenant_ref u.meta.namespace r.minio_operator_namespace s).1).0
        ≡ ok key
      → (env.get_user_info mtac key
          (get_access_key env u.spec u.meta.namespace
            (admin_client_of env u.spec.tenant_ref u.meta.namespace r.minio_operator_namespace
              s).1).1.world).0
        ≡ ok tt
      → u.spec.migrate ≡ false
      → ((create_user env r req u s).0 ≡ err (message ("user " ++ key ++ " already exists")))
        × ((create_user env r req u s).1.log ≡ s.log)
  unfolding create_user
  create_user-no_adoption req u mtac key s =
      grind (arith, admin_client_of-log env, get_access_key-log env)
