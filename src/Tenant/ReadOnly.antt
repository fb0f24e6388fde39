-- ===== src/Tenant/ReadOnly.antt =====
-- Looking a tenant up changes nothing: no call that could is made, whatever the services answer.
use minio_operator_ext.Base.{String, Bool, ◌≡◌, List, [], ◌∷◌, refl, arith}
use minio_operator_ext.Api.{ResourceRef, LocalCertificateReference, CertPool, Tenant}
use minio_operator_ext.Client.{Env, Run}
use minio_operator_ext.Tenant.{
  append_external_certs, get_root_credentials, get_endpoint, get_ca_bundle,
  get_minio_tenant_client_info, get_admin_client, get_client, admin_client_of,
  MinioTenantClientInfo,
}

module _ {W : Type 0} (env : Env W) where
  append_external_certs-log :
      (ns : String) (l : List LocalCertificateReference) (pool : CertPool) (s : Run W)
      → (append_external_certs env ns l pool s).1.log ≡ s.log
  unfolding append_external_certs
  append_external_certs-log ns [] pool s = refl
  append_external_certs-log ns (eca ∷ rest) pool s =
      grind (arith, append_external_certs-log ns rest)

  get_root_credentials-log :
      (ns : String) (t : Tenant) (s : Run W) → (get_root_credentials env ns t s).1.log ≡ s.log
  unfolding get_root_credentials
  get_root_credentials-log ns t s = ground arith

  get_endpoint-log :
      (ns : String) (secure : Bool) (s : Run W) → (get_endpoint env ns secure s).1.log ≡ s.log
  unfolding get_endpoint
  get_endpoint-log ns secure s = ground arith

  get_ca_bundle-log :
      (rr : ResourceRef) (ns : String) (t : Tenant) (s : Run W)
      → (get_ca_bundle env rr ns t s).1.log ≡ s.log
  unfolding get_ca_bundle
  get_ca_bundle-log rr ns t s = grind (arith, append_external_certs-log)

  pub get_minio_tenant_client_info-log :
      (rr : ResourceRef) (ns : String) (s : Run W)
      → (get_minio_tenant_client_info env rr ns s).1.log ≡ s.log
  unfolding get_minio_tenant_client_info
  get_minio_tenant_client_info-log rr ns s =
      grind (arith, get_root_credentials-log, get_endpoint-log, get_ca_bundle-log)

  get_admin_client-log :
      (mtci : MinioTenantClientInfo) (s : Run W) → (get_admin_client env mtci s).1.log ≡ s.log
  unfolding get_admin_client
  get_admin_client-log mtci s = ground arith

  -- Finding the tenant that a resource refers to and making its admin client changes nothing: no
  -- call that could is made, whatever the services answer.
  pub admin_client_of-log :
      (rr : ResourceRef) (ns operator_ns : String) (s : Run W)
      → (admin_client_of env rr ns operator_ns s).1.log ≡ s.log
  unfolding admin_client_of
  admin_client_of-log rr ns operator_ns s =
      grind (arith, get_minio_tenant_client_info-log, get_admin_client-log)

  pub get_client-log :
      (mtci : MinioTenantClientInfo) (s : Run W) → (get_client env mtci s).1.log ≡ s.log
  unfolding get_client
  get_client-log mtci s = ground arith
