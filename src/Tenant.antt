-- ===== src/Tenant.antt =====
-- internal/operator/minio_tenant_client_info.go: how a tenant's endpoint, credentials and
-- certificates are found, and the clients made from them.
pub mod ReadOnly
pub mod Faults
pub mod Endpoint
pub mod Pool
use minio_operator_ext.Base.{
  String, ◌++◌, Bool, true, false, none, some, List, [], ◌∷◌, if◌then◌else◌, lookup, ◌==◌,
  string_eq, format_int,
}
use mathlib.Core.List.{◌++◌ as append}
use text.Mathlib.Text.{starts_with}
use minio_operator_ext.Api.{
  ResourceRef, Secret, ServicePort, LocalCertificateReference, Tenant, CertPool, Connection,
  set_default_namespace,
}
use minio_operator_ext.Client.{
  message, ok, err, Env, Io, ◌>>=◌, ◌>>◌, pure, throw, lift, deref, query, attempt, check,
}

pub record MinioTenantClientInfo : Type 0 where
  pub access_key : String
  pub ca_bundle : CertPool
  pub endpoint : String
  pub secret_key : String
  pub secure : Bool

-- `t.Spec.RequestAutoCert != nil && *t.Spec.RequestAutoCert`, else a certificate of its own
unfoldable pub is_secure : Tenant → Bool
is_secure t = elim t.request_auto_cert [
  | some true ↦ true
  | _ ↦ elim t.external_cert_secret [ [] ↦ false | _ ∷ _ ↦ true ]
]

-- The loop over `tsvc.Spec.Ports`: the first port of that name; "" if there is none.
unfoldable pub find_endpoint : String → String → List ServicePort → String
find_endpoint port_name namespace [] = ""
find_endpoint port_name namespace (p ∷ ps) =
    if p.name == port_name
    then "minio." ++ namespace ++ ".svc:" ++ format_int p.port
    else find_endpoint port_name namespace ps

-- `CertPool.AppendCertsFromPEM`
abbrev append_certs_from_pem : CertPool → String → CertPool
append_certs_from_pem pool pem = record pool { pems = append pool.pems (pem ∷ []) }

-- `ks`
abbrev pub cert_keys : List String
cert_keys = "public.crt" ∷ "tls.crt" ∷ "ca.crt" ∷ []

-- `for _, k := range ks { cas, ok := data[k]; if !ok { continue }; pool.AppendCertsFromPEM(cas) }`
unfoldable pub append_certs : List String → List (String × String) → CertPool → CertPool
append_certs [] contents pool = pool
append_certs (k ∷ ks) contents pool =
    append_certs ks contents
      (elim (lookup k contents) [ none ↦ pool | some pem ↦ append_certs_from_pem pool pem ])

-- The loop over the secrets of the operator's namespace.
unfoldable pub append_operator_certs : List Secret → CertPool → CertPool
unfolding append_certs
append_operator_certs [] pool = pool
append_operator_certs (s ∷ rest) pool = append_operator_certs rest (
    if starts_with s.meta.name "operator-ca-tls"
    then append_certs cert_keys s.contents pool
    else pool)

module _ {W : Type 0} (env : Env W) where
  -- The loop over `t.Spec.ExternalCaCertSecret`: a secret that cannot be read is skipped.
  unfoldable pub append_external_certs :
      String → List LocalCertificateReference → CertPool → Io W CertPool
  unfolding append_certs
  append_external_certs namespace [] pool = pure pool
  append_external_certs namespace (eca ∷ rest) pool = do
    next ←
        if eca.kind == "kubernetes.io/tls"
        then (do
          found ←
              attempt (query (env.get_secret (record { namespace = namespace; name = eca.name })))
          pure (elim found [ ok s ↦ append_certs cert_keys s.contents pool | err _ ↦ pool ]))
        else pure pool
    append_external_certs namespace rest next

  -- `k, ok := tce[key]; if !ok { return fmt.Errorf(…) }`
  abbrev pub require_key : String → List (String × String) → String → Io W String
  require_key k m text = elim (lookup k m) [ none ↦ throw (message text) | some v ↦ pure v ]

  -- The access key and the secret key of the tenant's configuration.
  unfoldable pub get_root_credentials : String → Tenant → Io W (String × String)
  get_root_credentials namespace t = do
    config ← deref t.configuration
    ts ← query (env.get_secret (record { namespace = namespace; name = config }))
    let place = ts.meta.namespace ++ "/" ++ ts.meta.name
    text ← require_key "config.env" ts.contents ("key config.env for " ++ place ++ " not found")
    tce ← lift (env.parse_env text)
    access_key ←
        require_key "MINIO_ROOT_USER" tce
          ("key MINIO_ROOT_USER in " ++ place ++ "/config.env not found")
    secret_key ←
        require_key "MINIO_ROOT_PASSWORD" tce
          ("key MINIO_ROOT_PASSWORD in " ++ place ++ "/config.env not found")
    pure (access_key, secret_key)

  -- The endpoint of the service `minio`.
  unfoldable pub get_endpoint : String → Bool → Io W String
  unfolding find_endpoint
  get_endpoint namespace secure = do
    svc ← query (env.get_service (record { namespace = namespace; name = "minio" }))
    let e = find_endpoint (if secure then "https-minio" else "http-minio") namespace svc.ports
    let place = svc.meta.namespace ++ "/" ++ svc.meta.name
    if e == ""
        then throw (message ("endpoint for minio service " ++ place ++ " not found"))
        else pure e

  -- The certificates that the TLS client trusts; what cannot be read is left out.
  unfoldable pub get_ca_bundle : ResourceRef → String → Tenant → Io W CertPool
  unfolding append_certs append_operator_certs append_external_certs
  get_ca_bundle rr operator_namespace t = do
    system ← attempt (query env.system_cert_pool)
    let cbp : CertPool = elim system [
      | ok p ↦ p
      | err _ ↦ record { from_system = false; pems = [] }
    ]
    pod ← attempt (
        query (env.get_config_map (record { namespace = rr.namespace; name = "kube-root-ca.crt" })))
    let cbp2 : CertPool = elim pod [ ok cm ↦ append_certs cert_keys cm.contents cbp | err _ ↦ cbp ]
    listed ← attempt (query (env.list_secrets operator_namespace))
    let cbp3 : CertPool = elim listed [ ok sl ↦ append_operator_certs sl cbp2 | err _ ↦ cbp2 ]
    append_external_certs operator_namespace t.external_ca_cert_secret cbp3

  -- `getMinioTenantClientInfo`
  unfoldable pub get_minio_tenant_client_info : ResourceRef → String → Io W MinioTenantClientInfo
  unfolding is_secure get_root_credentials get_endpoint get_ca_bundle
  get_minio_tenant_client_info rr operator_namespace =
      if rr.namespace == "" then throw (message "namespace empty") else (do
        t ← query (env.get_tenant (record { namespace = rr.namespace; name = rr.name }))
        let s = is_secure t
        (ak, sk) ← get_root_credentials rr.namespace t
        e ← get_endpoint rr.namespace s
        cbp ← get_ca_bundle rr operator_namespace t
        pure (record {
          access_key = ak;
          ca_bundle = cbp;
          endpoint = e;
          secret_key = sk;
          secure = s;
        }))

  -- `GetAdminClient`: the transport is set before the error is looked at.
  unfoldable pub get_admin_client : MinioTenantClientInfo → Io W Connection
  get_admin_client mtci s =
      let ((client, e), w) =
        env.new_admin_client
          (record {
            endpoint = mtci.endpoint;
            access_key = mtci.access_key;
            secret_key = mtci.secret_key;
            secure = mtci.secure;
            root_cas = none;
          })
          s.world in
      (do mtac ← lift (env.set_custom_transport client mtci.ca_bundle); check e; deref mtac)
        (record s { world = w })

  -- `getAdminClient`, which the other reconcilers write out.
  unfoldable pub admin_client_of : ResourceRef → String → String → Io W Connection
  unfolding get_minio_tenant_client_info get_admin_client
  admin_client_of tenant_ref default_ns operator_namespace = do
    mtci ←
        get_minio_tenant_client_info (set_default_namespace tenant_ref default_ns)
          operator_namespace
    get_admin_client mtci

  -- `GetClient`
  unfoldable pub get_client : MinioTenantClientInfo → Io W Connection
  get_client mtci = query (
      env.new_client (record {
        endpoint = mtci.endpoint;
        access_key = mtci.access_key;
        secret_key = mtci.secret_key;
        secure = mtci.secure;
        root_cas = some mtci.ca_bundle;
      }))
