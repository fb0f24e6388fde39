-- ===== src/Api/Foreign.antt =====
-- The fields that the program reads or writes of objects whose types are not in this repository:
-- `corev1`, the tenant of `miniov2`, and the requests and answers of `madmin`.
use minio_operator_ext.Base.{ℕ, String, Bool, Option, List}
use minio_operator_ext.Api.Common.{ObjectMeta, Time}

-- `corev1.Secret`; the bytes of a value are read as text, as `string(b)` does.
pub record Secret : Type 0 where
  pub meta : ObjectMeta
  pub owned : Bool  -- carries an owner reference
  pub contents : List (String × String)  -- `Data`
  pub string_data : List (String × String)

pub record ConfigMap : Type 0 where
  pub contents : List (String × String)  -- `Data`

pub record ServicePort : Type 0 where
  pub name : String
  pub port : ℕ

pub record Service : Type 0 where
  pub meta : ObjectMeta
  pub ports : List ServicePort

pub record LocalCertificateReference : Type 0 where
  pub name : String
  pub kind : String  -- `Type`

-- The part of `miniov2.Tenant` that is read; `configuration` is the name behind a pointer.
pub record Tenant : Type 0 where
  pub request_auto_cert : Option Bool
  pub external_cert_secret : List LocalCertificateReference
  pub external_ca_cert_secret : List LocalCertificateReference
  pub configuration : Option String

-- `x509.CertPool`: the pool that it began as, and the PEM texts appended, in order.
pub record CertPool : Type 0 where
  pub from_system : Bool
  pub pems : List String

-- What `madmin.New` or `minioclient.New` was given; `root_cas` is the custom transport's pool.
pub record Connection : Type 0 where
  pub endpoint : String
  pub access_key : String
  pub secret_key : String
  pub secure : Bool
  pub root_cas : Option CertPool

pub record GroupAddRemove : Type 0 where
  pub group : String
  pub members : List String
  pub is_remove : Bool

pub record GroupDesc : Type 0 where
  pub members : List String

pub record PolicyAssociationReq : Type 0 where
  pub group : String
  pub policies : List String
  pub user : String

pub record PolicyMapping : Type 0 where
  pub groups : List String
  pub users : List String

pub record IdpConfigItem : Type 0 where
  pub key : String
  pub value : String

pub record AddServiceAccountReq : Type 0 where
  pub access_key : String
  pub description : String
  pub expiration : Option Time
  pub name : String
  pub secret_key : String
  pub policy : Option String  -- `nil` or a JSON text
  pub target_user : String

pub record UpdateServiceAccountReq : Type 0 where
  pub new_description : String
  pub new_expiration : Option Time
  pub new_name : String
  pub new_policy : Option String  -- `none` is the empty slice
  pub new_secret_key : String

pub record InfoServiceAccountResp : Type 0 where
  pub description : String
  pub expiration : Option Time
  pub implied_policy : Bool
  pub name : String
  pub policy : String

-- `minioclient.BucketVersioningConfiguration`
pub record BucketVersioning : Type 0 where
  pub status : String
  pub mfa_delete : String
  pub excluded_prefixes : List String
  pub exclude_folders : Bool

-- `lifecycle.Configuration`, known by its XML text: the program never looks into it.
pub record BucketLifecycle : Type 0 where
  pub text : String
