-- ===== src/Api/AccessKey.antt =====
-- pkg/api/bfiola.dev/v1/minioaccesskey.go.
use minio_operator_ext.Base.{String, Bool, Option, List}
use minio_operator_ext.Api.Common.{ObjectMeta, ResourceRef, ResourceKeyRef, Time}
use minio_operator_ext.Api.Policy.{MinioPolicyStatement}

pub record MinioAccessKeyIdentity : Type 0 where
  pub builtin : String
  pub ldap : String

pub record MinioAccessKeyPolicy : Type 0 where
  pub statement : List MinioPolicyStatement
  pub version : String

pub record MinioAccessKeySpec : Type 0 where
  pub access_key : String
  pub access_key_ref : ResourceKeyRef
  pub description : String
  pub expiration : Option Time
  pub migrate : Bool
  pub name : String
  pub policy : MinioAccessKeyPolicy
  pub secret_key_ref : ResourceKeyRef
  pub secret_name : String
  pub tenant_ref : ResourceRef
  pub user : MinioAccessKeyIdentity

pub record MinioAccessKeyStatus : Type 0 where
  pub synced : Option Bool
  pub current_spec : Option MinioAccessKeySpec
  pub current_secret_resource_version : String

pub record MinioAccessKey : Type 0 where
  pub meta : ObjectMeta
  pub spec : MinioAccessKeySpec
  pub status : MinioAccessKeyStatus
