-- ===== src/Client/Calls.antt =====
-- The calls that change something outside the program: one constructor for each method, with its
-- arguments. A run records them with their errors, newest first.
use minio_operator_ext.Base.{String, Bool, Option}
use minio_operator_ext.Api.{
  MinioGroup, MinioGroupBinding, MinioUser, MinioPolicy, MinioPolicyBinding, MinioAccessKey, Secret,
  Connection, GroupAddRemove, PolicyAssociationReq, AddServiceAccountReq, UpdateServiceAccountReq,
  MinioBucket, BucketVersioning, BucketLifecycle,
}
use minio_operator_ext.Client.Errors.{Error}

pub data Op : Type 0 where
  -- Kubernetes
  update_group : MinioGroup → Op
  update_group_binding : MinioGroupBinding → Op
  update_user : MinioUser → Op
  update_policy : MinioPolicy → Op
  update_policy_binding : MinioPolicyBinding → Op
  update_bucket : MinioBucket → Op
  update_access_key : MinioAccessKey → Op
  create_secret : Secret → Op
  update_secret : Secret → Op
  delete_secret : Secret → Op
  -- MinIO
  update_group_members : Connection → GroupAddRemove → Op
  add_user : Connection → String → String → Op
  remove_user : Connection → String → Op
  add_canned_policy : Connection → String → String → Op
  remove_canned_policy : Connection → String → Op
  attach_policy : Connection → PolicyAssociationReq → Op
  attach_policy_ldap : Connection → PolicyAssociationReq → Op
  detach_policy : Connection → PolicyAssociationReq → Op
  detach_policy_ldap : Connection → PolicyAssociationReq → Op
  add_service_account : Connection → AddServiceAccountReq → Op
  add_service_account_ldap : Connection → AddServiceAccountReq → Op
  update_service_account : Connection → String → UpdateServiceAccountReq → Op
  delete_service_account : Connection → String → Op
  make_bucket : Connection → String → Op
  -- with `ForceDelete`
  remove_bucket : Connection → String → Bool → Op
  set_bucket_versioning : Connection → String → BucketVersioning → Op
  set_bucket_lifecycle : Connection → String → BucketLifecycle → Op

pub record Event : Type 0 where
  pub op : Op
  pub failure : Option Error
