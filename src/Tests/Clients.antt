-- ===== src/Tests/Clients.antt =====
-- The clients of the tenant of World.
use minio_operator_ext.Base.{◌≡◌, refl, none, some, true, List, [], ◌∷◌, format_int}
use minio_operator_ext.Api.{Connection, Secret, CertPool, set_default_namespace}
use minio_operator_ext.Bucket.{client_of}
use minio_operator_ext.Client.{Op, Call, Error, message, ok, err, nil_dereference, Env}
use minio_operator_ext.Tenant.{
  append_certs, append_operator_certs, append_external_certs, is_secure, find_endpoint,
  get_root_credentials, get_endpoint, get_ca_bundle, get_minio_tenant_client_info, get_admin_client,
  get_client, admin_client_of, MinioTenantClientInfo,
}
use minio_operator_ext.Tenant.ReadOnly.{admin_client_of-log}
use minio_operator_ext.Tenant.Endpoint.{IsInfoOf, get_minio_tenant_client_info-IsInfoOf}
use minio_operator_ext.Tenant.Pool.{
  operator_pems, extended, Extends, system_pool, append_operator_certs-operator_pems,
  get_ca_bundle-Extends,
}
use minio_operator_ext.Tenant.Faults.{get_admin_client-panics}
use minio_operator_ext.Tests.World.{Quiet, env, start, tenant_ref, tenant, live_meta, secret}

-- The key `tls.crt` of the external CA, and nothing of a secret without certificates.
abbrev pub connection : Connection
connection = record {
  endpoint = "minio.minio.svc:443";
  access_key = "root";
  secret_key = "pw";
  secure = true;
  root_cas = some (record { from_system = true; pems = "pod" ∷ [] });
}

module _ (act : Op → Call Quiet (Unit {0})) where
  -- The admin client, whatever MinIO answers to what is asked of it.
  pub admin_client_of_run :
      admin_client_of (record env { act = act }) tenant_ref "minio" "operator" start
      ≡ (ok connection, start)
  unfolding admin_client_of get_minio_tenant_client_info get_admin_client get_root_credentials
      get_endpoint get_ca_bundle append_external_certs is_secure find_endpoint append_certs
      append_operator_certs set_default_namespace format_int
  admin_client_of_run = refl

  pub client_of_run :
      client_of (record env { act = act }) tenant_ref "minio" "operator" start
      ≡ (ok connection, start)
  unfolding client_of get_client get_minio_tenant_client_info get_root_credentials get_endpoint
      get_ca_bundle append_external_certs is_secure find_endpoint append_certs append_operator_certs
      set_default_namespace format_int
  client_of_run = refl

-- A world in which MinIO has lost the access keys.
abbrev pub lost : Env Quiet
lost = record env {
  info_service_account = λ _ _ w. (err (Error.madmin_response "XMinioInvalidIAMCredentials" ""), w);
}

pub gone_client_run :
    admin_client_of lost tenant_ref "minio" "operator" start ≡ (ok connection, start)
unfolding admin_client_of get_minio_tenant_client_info get_admin_client get_root_credentials
    get_endpoint get_ca_bundle append_external_certs is_secure find_endpoint append_certs
    append_operator_certs set_default_namespace format_int
gone_client_run = refl

-- A world in which `madmin.New` refuses the endpoint.
abbrev refusing : Env Quiet
refusing = record env { new_admin_client = λ c w. ((none, some (message "invalid endpoint")), w) }

abbrev info : MinioTenantClientInfo
info = record {
  access_key = "root";
  ca_bundle = record { from_system = true; pems = [] };
  endpoint = "?";
  secret_key = "pw";
  secure = true;
}

get_admin_client-panics_example : (get_admin_client refusing info start).0 ≡ err nil_dereference
get_admin_client-panics_example =
    get_admin_client-panics refusing info (message "invalid endpoint") start refl (λ _. refl)

admin_client_of-log_example : (admin_client_of env tenant_ref "minio" "operator" start).1.log ≡ []
admin_client_of-log_example = admin_client_of-log env tenant_ref "minio" "operator" start

-- The tenant of World by its port 443, with the pool of its pod.
abbrev found : MinioTenantClientInfo
found = record {
  access_key = "root";
  ca_bundle = record { from_system = true; pems = "pod" ∷ [] };
  endpoint = "minio.minio.svc:443";
  secret_key = "pw";
  secure = true;
}

get_minio_tenant_client_info_run :
    (get_minio_tenant_client_info env tenant_ref "operator" start).0 ≡ ok found
unfolding get_minio_tenant_client_info get_root_credentials get_endpoint get_ca_bundle
    append_external_certs is_secure find_endpoint append_certs append_operator_certs format_int
get_minio_tenant_client_info_run = refl

get_minio_tenant_client_info-IsInfoOf_example : IsInfoOf env tenant_ref found
get_minio_tenant_client_info-IsInfoOf_example =
    get_minio_tenant_client_info-IsInfoOf env tenant_ref "operator" start found
      get_minio_tenant_client_info_run

-- Two secrets, of which one is by its name for the operator.
abbrev ca_secrets : List Secret
ca_secrets =
    record secret {
      meta = record live_meta { name = "operator-ca-tls-1" };
      contents = ("ca.crt", "first") ∷ ("tls.crt", "second") ∷ [];
    }
    ∷ record secret {
      meta = record live_meta { name = "other" };
      contents = ("ca.crt", "third") ∷ [];
    }
    ∷ []

abbrev empty_pool : CertPool
empty_pool = record { from_system = true; pems = [] }

append_operator_certs-operator_pems_example :
    append_operator_certs ca_secrets empty_pool ≡ extended empty_pool (operator_pems ca_secrets)
append_operator_certs-operator_pems_example =
    append_operator_certs-operator_pems ca_secrets empty_pool

get_ca_bundle-Extends_example :
    Extends (system_pool env tt) (get_ca_bundle env tenant_ref "operator" tenant start).0
get_ca_bundle-Extends_example = get_ca_bundle-Extends env tenant_ref "operator" tenant start
