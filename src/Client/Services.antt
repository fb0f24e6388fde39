-- ===== src/Client/Services.antt =====
-- The code that the program calls and that is not in this repository, as a parameter: the state
-- `W` of everything outside (the API server, the MinIO tenants, the clock, other clients), and one
-- field for each function. A call may change `W` in any way, also a call that only reads.
use minio_operator_ext.Base.{ℕ, String, Bool, Option, List}
use minio_operator_ext.Api.{
  Time, NamespacedName, MinioGroup, MinioGroupBinding, MinioUser, MinioPolicy, MinioPolicyBinding,
  MinioAccessKey, MinioPolicyStatement, MinioPolicySpec, MinioAccessKeyPolicy, Secret, ConfigMap,
  Service, Tenant, CertPool, Connection, GroupDesc, PolicyMapping, IdpConfigItem,
  InfoServiceAccountResp, MinioBucket, MinioBucketVersioningConfiguration,
  MinioBucketLifecycleConfiguration, BucketVersioning, BucketLifecycle,
}
use minio_operator_ext.Client.Errors.{Error, Result}
use minio_operator_ext.Client.Calls.{Op}

abbrev pub Call : Type 0 → Type 0 → Type 0
Call W A = W → Result A × W

-- `xml.Marshal`, `xml.Unmarshal`, `json.Marshal` and `json.Unmarshal` at one type. The last writes
-- over a value that may hold something already.
pub record Codec (A : Type 0) : Type 0 where
  pub xml_marshal : A → Result String
  pub xml_unmarshal : String → Result A
  pub json_marshal : A → Result String
  pub json_unmarshal : String → A → Result A
  pub zero_value : A

pub record Env (W : Type 0) : Type 0 where
  -- `client.Client`
  pub get_group : NamespacedName → Call W MinioGroup
  pub get_group_binding : NamespacedName → Call W MinioGroupBinding
  pub get_user : NamespacedName → Call W MinioUser
  pub get_policy : NamespacedName → Call W MinioPolicy
  pub get_policy_binding : NamespacedName → Call W MinioPolicyBinding
  pub get_access_key : NamespacedName → Call W MinioAccessKey
  pub get_bucket : NamespacedName → Call W MinioBucket
  pub get_secret : NamespacedName → Call W Secret
  pub get_config_map : NamespacedName → Call W ConfigMap
  pub get_service : NamespacedName → Call W Service
  pub get_tenant : NamespacedName → Call W Tenant
  pub list_secrets : String → Call W (List Secret)
  -- `Update` and `Create` fill the object in with what the server stored
  pub update_group : MinioGroup → Call W MinioGroup
  pub update_group_binding : MinioGroupBinding → Call W MinioGroupBinding
  pub update_user : MinioUser → Call W MinioUser
  pub update_policy : MinioPolicy → Call W MinioPolicy
  pub update_policy_binding : MinioPolicyBinding → Call W MinioPolicyBinding
  pub update_bucket : MinioBucket → Call W MinioBucket
  pub update_access_key : MinioAccessKey → Call W MinioAccessKey
  pub create_secret : Secret → Call W Secret
  pub update_secret : Secret → Call W Secret
  pub delete_secret : Secret → Call W (Unit {0})
  -- `client.IgnoreNotFound`, `errors.IsNotFound`, `metav1.Time.IsZero`, `controllerutil`
  pub ignore_not_found : Error → Option Error
  pub is_not_found : Error → Bool
  pub is_zero : Option Time → Bool
  pub contains_finalizer : List String → String → Bool
  pub add_finalizer : List String → String → List String
  pub remove_finalizer : List String → String → List String
  pub set_owner_reference : MinioAccessKey → Secret → Result Secret
  -- `envparse.Parse`, `x509.SystemCertPool`, `rand.Read` of a number of bytes, `err.Error()`
  pub parse_env : String → Result (List (String × String))
  pub system_cert_pool : Call W CertPool
  pub rand_read : ℕ → Call W (List ℕ)
  pub error_text : Error → String
  -- `madmin.New`: a client and an error, either of which may be nil; `SetCustomTransport`
  pub new_admin_client : Connection → W → (Option Connection × Option Error) × W
  pub set_custom_transport : Option Connection → CertPool → Result (Option Connection)
  -- JSON, the SHA-512/256 of a text, and the SHA-256 of bytes in hexadecimal
  pub marshal_policy : List MinioPolicyStatement → String → Result String
  pub unmarshal_policy_spec : String → Result MinioPolicySpec
  pub unmarshal_access_key_policy : String → Result MinioAccessKeyPolicy
  pub sha512_256 : String → String
  pub sha256_hex : List ℕ → String
  -- `madmin.AdminClient`, the calls that read
  pub get_group_description : Connection → String → Call W GroupDesc
  pub get_user_info : Connection → String → Call W (Unit {0})
  pub info_canned_policy : Connection → String → Call W String
  pub get_policy_entities : Connection → List String → Call W (List PolicyMapping)
  pub get_ldap_policy_entities : Connection → List String → Call W (List PolicyMapping)
  pub get_idp_config : Connection → String → String → Call W (List IdpConfigItem)
  pub info_service_account : Connection → String → Call W InfoServiceAccountResp
  -- `minioclient.New` with the transport, and the calls of its client that read; a bucket that has
  -- no lifecycle may be answered by nil
  pub new_client : Connection → Call W Connection
  pub bucket_exists : Connection → String → Call W Bool
  pub get_bucket_versioning : Connection → String → Call W BucketVersioning
  pub get_bucket_lifecycle : Connection → String → Call W (Option BucketLifecycle)
  -- `lifecycle.NewConfiguration()`, and the zero value of its type
  pub new_lifecycle : BucketLifecycle
  pub zero_lifecycle : BucketLifecycle
  -- XML and JSON of the bucket configurations
  pub spec_versioning : Codec MinioBucketVersioningConfiguration
  pub spec_lifecycle : Codec MinioBucketLifecycleConfiguration
  pub remote_versioning : Codec BucketVersioning
  pub remote_lifecycle : Codec BucketLifecycle
  -- the calls of both clients that change something in MinIO
  pub act : Op → Call W (Unit {0})
