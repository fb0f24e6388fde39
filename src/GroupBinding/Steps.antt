-- ===== src/GroupBinding/Steps.antt =====
-- What creation and deletion of the group binding reconciler do to MinIO and to the resource.
use minio_operator_ext.Base.{
  [], ◌∷◌, ◌≡◌, ◌++◌, true, false, none, some, arith, contains, string_eq,
}
use minio_operator_ext.Api.{MinioGroupBinding, MinioGroupBindingSpec, Connection, GroupDesc}
use minio_operator_ext.Client.{Op, Error, is_madmin_error_code, ok, err, message, Env, Run}
use minio_operator_ext.Reconciler.{Reconciler, ReconcileResult}
use minio_operator_ext.Tenant.{admin_client_of}
use minio_operator_ext.Tenant.ReadOnly.{admin_client_of-log}
use minio_operator_ext.GroupBinding.{
  set_current_spec, clear_migrate, add_group_member, delete_group_member,
}

module _ {W : Type 0} (env : Env W) (r : Reconciler) where
  -- Given the client of the tenant: a creation that succeeds made the user a member, and then set the
  -- status to the spec, with `migrate` off; it made no other call that changes something.
  pub add_group_member-log :
      (gb : MinioGroupBinding) (mtac : Connection) (res : ReconcileResult) (s : Run W)
      → (admin_client_of env gb.spec.tenant_ref gb.meta.namespace r.minio_operator_namespace s).0
        ≡ ok mtac
      → (add_group_member env r gb s).0 ≡ ok res
      → (add_group_member env r gb s).1.log
        ≡ record {
          op =
              Op.update_group_binding
                (set_current_spec env (clear_migrate env gb) (some (clear_migrate env gb).spec));
          failure = none;
        }
          ∷ record {
            op =
                Op.update_group_members mtac (record {
                  group = gb.spec.group;
                  members = gb.spec.user ∷ [];
                  is_remove = false;
                });
            failure = none;
          }
          ∷ s.log
  unfolding add_group_member
  add_group_member-log gb mtac res s = grind (arith, admin_client_of-log env)

  -- Given the client of the tenant: a user who is a member already is not taken over without
  -- `migrate`; the creation returns an error, and nothing is changed.
  pub add_group_member-no_adoption :
      (gb : MinioGroupBinding) (mtac : Connection) (gd : GroupDesc) (s : Run W)
      → (admin_client_of env gb.spec.tenant_ref gb.meta.namespace r.minio_operator_namespace s).0
        ≡ ok mtac
      → (env.get_group_description mtac gb.spec.group
          (admin_client_of env gb.spec.tenant_ref gb.meta.namespace r.minio_operator_namespace
            s).1.world).0
        ≡ ok gd
      → contains gd.members gb.spec.user ≡ true
      → gb.spec.migrate ≡ false
      → ((add_group_member env r gb s).0
          ≡ err (message ("user " ++ gb.spec.user ++ " already member of group " ++ gb.spec.group)))
        × ((add_group_member env r gb s).1.log ≡ s.log)
  unfolding add_group_member
  add_group_member-no_adoption gb mtac gd s = grind (arith, admin_client_of-log env)

  -- Given the client of the tenant: where MinIO refuses to remove the member with another error than a missing user, such as a
  -- missing group, the removal returns it after that one call, and leaves the status.
  pub delete_group_member-fails :
      (gb : MinioGroupBinding) (c : MinioGroupBindingSpec) (mtac : Connection) (e : Error)
      (s : Run W)
      → (admin_client_of env c.tenant_ref gb.meta.namespace r.minio_operator_namespace s).0
        ≡ ok mtac
      → (env.act
          (Op.update_group_members mtac
            (record { group = c.group; members = c.user ∷ []; is_remove = true }))
          (admin_client_of env c.tenant_ref gb.meta.namespace r.minio_operator_namespace
            s).1.world).0
        ≡ err e
      → is_madmin_error_code (some e) "XMinioAdminNoSuchUser" ≡ false
      → ((delete_group_member env r gb c s).0 ≡ err e)
        × ((delete_group_member env r gb c s).1.log
            ≡ record {
              op =
                  Op.update_group_members mtac
                    (record { group = c.group; members = c.user ∷ []; is_remove = true });
              failure = some e;
            }
              ∷ s.log)
  unfolding delete_group_member
  delete_group_member-fails gb c mtac e s = grind (arith, admin_client_of-log env)
