-- ===== src/Policy/Steps.antt =====
-- What creation and deletion of the policy reconciler do to MinIO and to the resource.
use minio_operator_ext.Base.{◌∷◌, ◌≡◌, String, ◌++◌, false, none, some, arith, string_eq}
use minio_operator_ext.Api.{MinioPolicy, Connection}
use minio_operator_ext.Client.{Op, ok, err, message, Env, Run}
use minio_operator_ext.Reconciler.{Reconciler, ReconcileResult}
use minio_operator_ext.Tenant.{admin_client_of}
use minio_operator_ext.Tenant.ReadOnly.{admin_client_of-log}
use minio_operator_ext.Policy.{set_current_spec, clear_migrate, create_policy}

module _ {W : Type 0} (env : Env W) (r : Reconciler) where
  -- Given the client of the tenant, and the policy's text: a creation that succeeds wrote the text to
  -- MinIO, and then set the status to the spec, with `migrate` off; it made no other call that changes
  -- something.
  pub create_policy-log :
      (text : String) (p : MinioPolicy) (mtac : Connection) (res : ReconcileResult) (s : Run W)
      → (admin_client_of env p.spec.tenant_ref p.meta.namespace r.minio_operator_namespace s).0
        ≡ ok mtac
      → env.marshal_policy p.spec.statement p.spec.version ≡ ok text
      → (create_policy env r p s).0 ≡ ok res
      → (create_policy env r p s).1.log
        ≡ record {
          op =
              Op.update_policy
                (set_current_spec env (clear_migrate env p) (some (clear_migrate env p).spec));
          failure = none;
        }
          ∷ record { op = Op.add_canned_policy mtac p.spec.name text; failure = none }
          ∷ s.log
  unfolding create_policy
  create_policy-log text p mtac res s = grind (arith, admin_client_of-log env)

  -- Given the client of the tenant: a policy that MinIO has already is not taken over without
  -- `migrate`; the creation returns an error, and nothing is changed.
  pub create_policy-no_adoption :
      (p : MinioPolicy) (mtac : Connection) (text : String) (s : Run W)
      → (admin_client_of env p.spec.tenant_ref p.meta.namespace r.minio_operator_namespace s).0
        ≡ ok mtac
      → (env.info_canned_policy mtac p.spec.name
          (admin_client_of env p.spec.tenant_ref p.meta.namespace r.minio_operator_namespace
            s).1.world).0
        ≡ ok text
      → p.spec.migrate ≡ false
      → ((create_policy env r p s).0
          ≡ err (message ("policy " ++ p.spec.name ++ " already exists")))
        × ((create_policy env r p s).1.log ≡ s.log)
  unfolding create_policy
  create_policy-no_adoption p mtac text s = grind (arith, admin_client_of-log env)
