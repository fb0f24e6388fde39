-- ===== src/PolicyBinding/Steps.antt =====
-- What creation and deletion of the policy binding reconciler do to MinIO and to the resource.
use minio_operator_ext.Base.{◌∷◌, ◌≡◌, false, some, arith, if◌then◌else◌, string_eq}
use minio_operator_ext.Api.{MinioPolicyBinding, Connection}
use minio_operator_ext.Client.{Op, Error, ok, err, Env, Run}
use minio_operator_ext.Reconciler.{Reconciler}
use minio_operator_ext.Tenant.{admin_client_of}
use minio_operator_ext.Tenant.ReadOnly.{admin_client_of-log}
use minio_operator_ext.PolicyBinding.{attach_policy_member, is_ldap, association_of}

module _ {W : Type 0} (env : Env W) (r : Reconciler) where
  -- Given the client of the tenant: where MinIO does not attach the policy, as where it is attached
  -- already, nothing is taken over without `migrate`; the error of MinIO is returned after that one
  -- call.
  pub attach_policy_member-no_adoption :
      (pb : MinioPolicyBinding) (mtac : Connection) (e : Error) (s : Run W)
      → (admin_client_of env pb.spec.tenant_ref pb.meta.namespace r.minio_operator_namespace s).0
        ≡ ok mtac
      → (env.act
          (if is_ldap pb.spec
            then Op.attach_policy_ldap mtac (association_of pb.spec)
            else Op.attach_policy mtac (association_of pb.spec))
          (admin_client_of env pb.spec.tenant_ref pb.meta.namespace r.minio_operator_namespace
            s).1.world).0
        ≡ err e
      → pb.spec.migrate ≡ false
      → ((attach_policy_member env r pb s).0 ≡ err e)
        × ((attach_policy_member env r pb s).1.log
            ≡ record {
              op =
                  if is_ldap pb.spec
                  then Op.attach_policy_ldap mtac (association_of pb.spec)
                  else Op.attach_policy mtac (association_of pb.spec);
              failure = some e;
            }
              ∷ s.log)
  unfolding attach_policy_member
  attach_policy_member-no_adoption pb mtac e s = grind (arith, admin_client_of-log env)
