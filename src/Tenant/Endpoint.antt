-- ===== src/Tenant/Endpoint.antt =====
-- What a client of a tenant is built from: the tenant, its configuration, and its service.
use mathlib.Core.List.{Mem}
use mathlib.Core.List.{mem-cons_self, mem-cons_of_mem}
use minio_operator_ext.Base.{
  String, ◌++◌, ◌≡◌, ◌≢◌, refl, ◌∙◌, Bool, Bool-cases, inl, inr, Option, none, some, List, [], ◌∷◌,
  if◌then◌else◌, ◌==◌, string_eq, path_of_same, lookup, arith, format_int,
}
use minio_operator_ext.Api.{ResourceRef, ServicePort, Tenant, Secret, Service}
use minio_operator_ext.Client.{
  Error, message, ok, Env, Io, Run, ◌>>=◌, pure, throw, lift, query, deref, Ensures, >>=-Ensures,
  pure-Ensures,
}
use minio_operator_ext.Tenant.{
  MinioTenantClientInfo, is_secure, find_endpoint, require_key, get_root_credentials, get_endpoint,
  get_ca_bundle, get_minio_tenant_client_info,
}

-- The address of a port of the service.
abbrev pub address : String → ServicePort → String
address namespace p = "minio." ++ namespace ++ ".svc:" ++ format_int p.port

abbrev pub port_name : Bool → String
port_name secure = if secure then "https-minio" else "http-minio"

find_endpoint-Mem :
    (name namespace : String) (ports : List ServicePort)
    → find_endpoint name namespace ports ≢ ""
    → (p : ServicePort) × Mem p ports
      × (p.name ≡ name)
      × (find_endpoint name namespace ports ≡ address namespace p)
unfolding find_endpoint
find_endpoint-Mem name namespace [] found = absurd (found refl)
find_endpoint-Mem name namespace (q ∷ qs) found = elim (Bool-cases (q.name == name)) [
  | inl e ↦ (q, mem-cons_self, path_of_same q.name name e, rw e refl)
  | inr e ↦
      let (p, mem, named, at) = find_endpoint-Mem name namespace qs (λ n. found (rw e n)) in
      (p, mem-cons_of_mem q mem, named, rw e at)
]

-- The keys of a tenant: the two settings in the configuration that the tenant names.
pub record HasKeys {W : Type 0} (env : Env W) (namespace : String) (t : Tenant)
    (keys : String × String) : Type 0 where
  pub config : String
  pub configured : t.configuration ≡ some config
  pub secret : Secret
  pub world : W
  pub read : (env.get_secret (record { namespace = namespace; name = config }) world).0 ≡ ok secret
  pub text : String
  pub found : lookup "config.env" secret.contents ≡ some text
  pub settings : List (String × String)
  pub parsed : env.parse_env text ≡ ok settings
  pub access_key : lookup "MINIO_ROOT_USER" settings ≡ some keys.0
  pub secret_key : lookup "MINIO_ROOT_PASSWORD" settings ≡ some keys.1

-- The address of a port of the service `minio`, by its name.
pub record HasEndpoint {W : Type 0} (env : Env W) (namespace : String) (secure : Bool)
    (endpoint : String) : Type 0 where
  pub service : Service
  pub world : W
  pub read :
      (env.get_service (record { namespace = namespace; name = "minio" }) world).0 ≡ ok service
  pub port : ServicePort
  pub listed : Mem port service.ports
  pub named : port.name ≡ port_name secure
  pub addressed : endpoint ≡ address namespace port

module _ {W : Type 0} (env : Env W) where
  deref-ok : {A : Type 0} (o : Option A) (s : Run W) (a : A) → (deref o s).0 ≡ ok a → o ≡ some a
  deref-ok none s a e = absurd (cc)
  deref-ok (some b) s a e = ground (arith, e)

  -- A key that a map has.
  require_key-ok :
      (k : String) (m : List (String × String)) (text : String) (s : Run W) (v : String)
      → (require_key env k m text s).0 ≡ ok v
      → lookup k m ≡ some v
  require_key-ok k m text s v = go (lookup k m)
    where
      go :
          (o : Option String)
          → ((elim o as (λ _. Io W String) [ none ↦ throw (message text) | some v ↦ pure v ]) s).0
            ≡ ok v
          → o ≡ some v
      go none e = absurd (cc)
      go (some u) e = ground (arith, e)

  settings-keys :
      (tce : List (String × String)) (first second : String) (s : Run W)
      → Ensures
          (λ (keys : String × String) _.
            (lookup "MINIO_ROOT_USER" tce ≡ some keys.0)
            × (lookup "MINIO_ROOT_PASSWORD" tce ≡ some keys.1))
          (require_key env "MINIO_ROOT_USER" tce first >>= λ ak.
            require_key env "MINIO_ROOT_PASSWORD" tce second >>= λ sk. pure (ak, sk))
          s
  settings-keys tce first second s =
      let P : String × String → Run W → Type 0 = λ keys _.
        (lookup "MINIO_ROOT_USER" tce ≡ some keys.0)
        × (lookup "MINIO_ROOT_PASSWORD" tce ≡ some keys.1) in
      >>=-Ensures (λ ak _. lookup "MINIO_ROOT_USER" tce ≡ some ak) P
        (require_key env "MINIO_ROOT_USER" tce first) _ s
        (λ ak e. require_key-ok "MINIO_ROOT_USER" tce first s ak e)
        (λ ak s5 user.
          >>=-Ensures (λ sk _. lookup "MINIO_ROOT_PASSWORD" tce ≡ some sk) P
            (require_key env "MINIO_ROOT_PASSWORD" tce second) _ s5
            (λ sk e. require_key-ok "MINIO_ROOT_PASSWORD" tce second s5 sk e)
            (λ sk s6 password. pure-Ensures P (ak, sk) s6 (user, password)))

  get_root_credentials-HasKeys :
      (namespace : String) (t : Tenant) (s : Run W)
      → Ensures (λ keys _. HasKeys env namespace t keys) (get_root_credentials env namespace t) s
  unfolding get_root_credentials
  get_root_credentials-HasKeys namespace t s =
      let P : String × String → Run W → Type 0 = λ keys _. HasKeys env namespace t keys in
      >>=-Ensures (λ config _. t.configuration ≡ some config) P (deref t.configuration) _ s
        (λ config e. deref-ok t.configuration s config e)
        (λ config s1 configured.
          let get = env.get_secret (record { namespace = namespace; name = config }) in
          >>=-Ensures (λ secret _. (get s1.world).0 ≡ ok secret) P (query get) _ s1 (λ _ e. e)
            (λ secret s2 read.
              >>=-Ensures (λ text _. lookup "config.env" secret.contents ≡ some text) P
                (require_key env "config.env" secret.contents _) _ s2
                (λ text e. require_key-ok "config.env" secret.contents _ s2 text e)
                (λ text s3 found.
                  >>=-Ensures (λ tce _. env.parse_env text ≡ ok tce) P (lift (env.parse_env text)) _
                    s3 (λ _ e. e)
                    (λ tce s4 parsed keys e.
                      let (user, password) = settings-keys tce _ _ s4 keys e in
                      record {
                        config = config;
                        configured = configured;
                        secret = secret;
                        world = s1.world;
                        read = read;
                        text = text;
                        found = found;
                        settings = tce;
                        parsed = parsed;
                        access_key = user;
                        secret_key = password;
                      }))))

  given :
      (e : String) (error : Error) (s : Run W)
      → Ensures (λ x _. (x ≢ "") × (x ≡ e)) (if e == "" then throw error else pure e) s
  given e error s x h = elim (Bool-cases (e == "")) [
    | inl t ↦ absurd (ground (arith, t))
    | inr t ↦ ground (arith, t, string_eq.same_iff e "")
  ]

  get_endpoint-HasEndpoint :
      (namespace : String) (secure : Bool) (s : Run W)
      → Ensures (λ e _. HasEndpoint env namespace secure e) (get_endpoint env namespace secure) s
  unfolding get_endpoint
  get_endpoint-HasEndpoint namespace secure s =
      let P : String → Run W → Type 0 = λ e _. HasEndpoint env namespace secure e in
      let get = env.get_service (record { namespace = namespace; name = "minio" }) in
      >>=-Ensures (λ svc _. (get s.world).0 ≡ ok svc) P (query get) _ s (λ _ e. e)
        (λ svc s1 read e h.
          let (some_text, same) =
            given (find_endpoint (port_name secure) namespace svc.ports) _ s1 e h in
          let (p, listed, named, at) =
            find_endpoint-Mem (port_name secure) namespace svc.ports (λ n. some_text (same ∙ n)) in
          record {
            service = svc;
            world = s.world;
            read = read;
            port = p;
            listed = listed;
            named = named;
            addressed = same ∙ at;
          })

-- What the client of a tenant is given.
pub record IsInfoOf {W : Type 0} (env : Env W) (rr : ResourceRef) (mtci : MinioTenantClientInfo)
    : Type 0 where
  pub tenant : Tenant
  pub world : W
  pub read :
      (env.get_tenant (record { namespace = rr.namespace; name = rr.name }) world).0 ≡ ok tenant
  pub secure : mtci.secure ≡ is_secure tenant
  pub keys : HasKeys env rr.namespace tenant (mtci.access_key, mtci.secret_key)
  pub endpoint : HasEndpoint env rr.namespace mtci.secure mtci.endpoint

module _ {W : Type 0} (env : Env W) where
  IsInfoOf-tenant :
      (rr : ResourceRef) (operator_namespace : String) (t : Tenant) (w : W) (s : Run W)
      → (env.get_tenant (record { namespace = rr.namespace; name = rr.name }) w).0 ≡ ok t
      → Ensures
          (λ mtci _. IsInfoOf env rr mtci)
          (get_root_credentials env rr.namespace t >>= λ keys.
            get_endpoint env rr.namespace (is_secure t) >>= λ e.
            get_ca_bundle env rr operator_namespace t >>= λ cbp. pure (record {
              access_key = keys.0;
              ca_bundle = cbp;
              endpoint = e;
              secret_key = keys.1;
              secure = is_secure t;
            }))
          s
  IsInfoOf-tenant rr operator_namespace t w s read =
      let P : MinioTenantClientInfo → Run W → Type 0 = λ mtci _. IsInfoOf env rr mtci in
      >>=-Ensures (λ keys _. HasKeys env rr.namespace t keys) P
        (get_root_credentials env rr.namespace t) _ s
        (get_root_credentials-HasKeys env rr.namespace t s)
        (λ keys s1 has.
          >>=-Ensures (λ e _. HasEndpoint env rr.namespace (is_secure t) e) P
            (get_endpoint env rr.namespace (is_secure t)) _ s1
            (get_endpoint-HasEndpoint env rr.namespace (is_secure t) s1)
            (λ e s2 reached.
              >>=-Ensures (λ _ _. Unit {0}) P (get_ca_bundle env rr operator_namespace t) _ s2
                (λ _ _. tt)
                (λ cbp s3 _. pure-Ensures P _ s3 (record {
                  tenant = t;
                  world = w;
                  read = read;
                  secure = refl;
                  keys = has;
                  endpoint = reached;
                }))))

  -- Where getMinioTenantClientInfo succeeds, it has read the tenant that the reference names; it
  -- uses TLS as that tenant says; the two keys are MINIO_ROOT_USER and MINIO_ROOT_PASSWORD of
  -- the `config.env` in the secret that the tenant's configuration names; and the endpoint is
  -- the address of a port of the service `minio` in the namespace of the reference, named
  -- `https-minio` with TLS and `http-minio` without.
  pub get_minio_tenant_client_info-IsInfoOf :
      (rr : ResourceRef) (operator_namespace : String) (s : Run W) (mtci : MinioTenantClientInfo)
      → (get_minio_tenant_client_info env rr operator_namespace s).0 ≡ ok mtci
      → IsInfoOf env rr mtci
  unfolding get_minio_tenant_client_info
  get_minio_tenant_client_info-IsInfoOf rr operator_namespace s =
      let get = env.get_tenant (record { namespace = rr.namespace; name = rr.name }) in
      let P : MinioTenantClientInfo → Run W → Type 0 = λ mtci _. IsInfoOf env rr mtci in
      elim (Bool-cases (rr.namespace == "")) [
        | inl t ↦ λ mtci e. absurd (ground (arith, t, e))
        | inr t ↦ rw t (
            >>=-Ensures (λ t _. (get s.world).0 ≡ ok t) P (query get) _ s (λ _ e. e)
              (λ t s1 read. IsInfoOf-tenant rr operator_namespace t s.world s1 read))
      ]
