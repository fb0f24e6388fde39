-- ===== src/Api/User.antt =====
-- pkg/api/bfiola.dev/v1/miniouser.go.
use minio_operator_ext.Base.{String, Bool, Option}
use minio_operator_ext.Api.Common.{ObjectMeta, ResourceRef, ResourceKeyRef}

pub record MinioUserSpec : Type 0 where
  pub access_key : String
  pub access_key_ref : ResourceKeyRef
  pub migrate : Bool
  pub secret_key_ref : ResourceKeyRef
  pub tenant_ref : ResourceRef

pub record MinioUserStatus : Type 0 where
  pub synced : Option Bool
  pub current_spec : Option MinioUserSpec
  pub current_secret_key_ref_resource_version : String

pub record MinioUser : Type 0 where
  pub meta : ObjectMeta
  pub spec : MinioUserSpec
  pub status : MinioUserStatus
