-- ===== src/Group/Steps.antt =====
-- What creation and deletion of the group reconciler do to MinIO and to the resource.
use minio_operator_ext.Base.{[], ◌∷◌, ◌≡◌, ◌++◌, false, none, some, arith, string_eq}
use minio_operator_ext.Api.{MinioGroup, Connection, GroupDesc}
use minio_operator_ext.Client.{Op, ok, err, message, Env, Run}
use minio_operator_ext.Reconciler.{Reconciler, ReconcileResult}
use minio_operator_ext.Tenant.{admin_client_of}
use minio_operator_ext.Tenant.ReadOnly.{admin_client_of-log}
use minio_operator_ext.Group.{set_current_spec, clear_migrate, create_group}

module _ {W : Type 0} (env : Env W) (r : Reconciler) where
  -- Given the client of the tenant: a creation that succeeds made the group in MinIO, and then set the
  -- status to the spec, with `migrate` off; it made no other call that changes something.
  pub create_group-log :
      (g : MinioGroup) (mtac : Connection) (res : ReconcileResult) (s : Run W)
      → (admin_client_of env g.spec.tenant_ref g.meta.namespace r.minio_operator_namespace s).0
        ≡ ok mtac
      → (create_group env r g s).0 ≡ ok res
      → (create_group env r g s).1.log
        ≡ record {
          op =
              Op.update_group
                (set_current_spec env (clear_migrate env g) (some (clear_migrate env g).spec));
          failure = none;
        }
          ∷ record {
            op =
                Op.update_group_members mtac
                  (record { group = g.spec.name; members = []; is_remove = false });
            failure = none;
          }
          ∷ s.log
  unfolding create_group
  create_group-log g mtac res s = grind (arith, admin_client_of-log env)

  -- Given the client of the tenant: a group that MinIO has already is not taken over without
  -- `migrate`; the creation returns an error, and nothing is changed.
  pub create_group-no_adoption :
      (g : MinioGroup) (mtac : Connection) (gd : GroupDesc) (s : Run W)
      → (admin_client_of env g.spec.tenant_ref g.meta.namespace r.minio_operator_namespace s).0
        ≡ ok mtac
      → (env.get_group_description mtac g.spec.name
          (admin_client_of env g.spec.tenant_ref g.meta.namespace r.minio_operator_namespace
            s).1.world).0
        ≡ ok gd
      → g.spec.migrate ≡ false
      → ((create_group env r g s).0 ≡ err (message ("group " ++ g.spec.name ++ " already exists")))
        × ((create_group env r g s).1.log ≡ s.log)
  unfolding create_group
  create_group-no_adoption g mtac gd s = grind (arith, admin_client_of-log env)
