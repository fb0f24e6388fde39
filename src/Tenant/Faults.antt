-- ===== src/Tenant/Faults.antt =====
-- Where the client of MinIO's admin API cannot be made.
use minio_operator_ext.Base.{◌≡◌, refl, none, some}
use minio_operator_ext.Api.{CertPool}
use minio_operator_ext.Client.{Error, err, nil_dereference, Env, Run}
use minio_operator_ext.Tenant.{MinioTenantClientInfo, get_admin_client}

module _ {W : Type 0} (env : Env W) where
  -- Where `madmin.New` fails with no client, and a method of a nil client dereferences it,
  -- `GetAdminClient` panics on a nil pointer instead of returning the error.
  pub get_admin_client-panics :
      (mtci : MinioTenantClientInfo) (e : Error) (s : Run W)
      → (env.new_admin_client
          (record {
            endpoint = mtci.endpoint;
            access_key = mtci.access_key;
            secret_key = mtci.secret_key;
            secure = mtci.secure;
            root_cas = none;
          })
          s.world).0
        ≡ (none, some e)
      → ((pool : CertPool) → env.set_custom_transport none pool ≡ err nil_dereference)
      → (get_admin_client env mtci s).0 ≡ err nil_dereference
  unfolding get_admin_client
  get_admin_client-panics mtci e s n t = rw n (rw (t mtci.ca_bundle) refl)
