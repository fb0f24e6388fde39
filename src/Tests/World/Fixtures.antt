-- ===== src/Tests/World/Fixtures.antt =====
-- Resources of each kind, with a finalizer and, but for the access key, no status.
use minio_operator_ext.Base.{true, false, none, some, [], ◌∷◌, string_eq}
use minio_operator_ext.Api.{
  ResourceRef, ResourceKeyRef, ObjectMeta, MinioGroup, MinioGroupSpec, MinioGroupBinding,
  MinioGroupBindingSpec, MinioUser, MinioUserSpec, MinioPolicy, MinioPolicySpec,
  MinioPolicyStatement, MinioPolicyBinding, MinioPolicyBindingSpec, MinioAccessKey,
  MinioAccessKeySpec, MinioBucket, MinioBucketSpec, Secret, Tenant,
}
use minio_operator_ext.Reconciler.{finalizer}

abbrev pub tenant_ref : ResourceRef
tenant_ref = record { name = "tenant"; namespace = "minio" }

abbrev pub no_key_ref : ResourceKeyRef
no_key_ref = record { key = ""; name = ""; namespace = "" }

-- The metadata of a resource with the finalizer, and of one that is marked for deletion.
abbrev pub live_meta : ObjectMeta
live_meta = record {
  name = "r";
  namespace = "minio";
  resource_version = "1";
  deletion_timestamp = none;
  finalizers = finalizer ∷ [];
}

abbrev pub deleted_meta : ObjectMeta
deleted_meta = record live_meta {
  deletion_timestamp = some (record { instant = 1; location = "UTC" });
}

abbrev pub group_spec : MinioGroupSpec
group_spec = record { migrate = false; name = "g"; tenant_ref = tenant_ref }

abbrev pub group : MinioGroup
group = record {
  meta = live_meta;
  spec = group_spec;
  status = record { synced = none; current_spec = none };
}

abbrev pub group_binding_spec : MinioGroupBindingSpec
group_binding_spec = record { group = "g"; migrate = false; tenant_ref = tenant_ref; user = "u" }

abbrev pub group_binding : MinioGroupBinding
group_binding = record {
  meta = live_meta;
  spec = group_binding_spec;
  status = record { synced = none; current_spec = none };
}

abbrev pub user_spec : MinioUserSpec
user_spec = record {
  access_key = "u";
  access_key_ref = no_key_ref;
  migrate = false;
  secret_key_ref = record { key = "secretKey"; name = "s"; namespace = "" };
  tenant_ref = tenant_ref;
}

abbrev pub user : MinioUser
user = record {
  meta = live_meta;
  spec = user_spec;
  status = record {
    synced = none;
    current_spec = none;
    current_secret_key_ref_resource_version = "";
  };
}

abbrev pub statement : MinioPolicyStatement
statement = record {
  action = "s3:Get" ∷ "s3:Put" ∷ [];
  effect = "Allow";
  resource = "a" ∷ "b" ∷ [];
}

abbrev pub policy_spec : MinioPolicySpec
policy_spec = record {
  migrate = false;
  name = "p";
  statement = statement ∷ [];
  tenant_ref = tenant_ref;
  version = "2012-10-17";
}

abbrev pub policy : MinioPolicy
policy = record {
  meta = live_meta;
  spec = policy_spec;
  status = record { synced = none; current_spec = none };
}

abbrev pub policy_binding_spec : MinioPolicyBindingSpec
policy_binding_spec = record {
  group = record { builtin = "g"; ldap = "" };
  migrate = false;
  policy = "p";
  tenant_ref = tenant_ref;
  user = record { builtin = ""; ldap = "" };
}

abbrev pub policy_binding : MinioPolicyBinding
policy_binding = record {
  meta = live_meta;
  spec = policy_binding_spec;
  status = record { synced = none; current_spec = none };
}

abbrev pub access_key_spec : MinioAccessKeySpec
access_key_spec = record {
  access_key = "AK";
  access_key_ref = no_key_ref;
  description = "";
  expiration = none;
  migrate = false;
  name = "k";
  policy = record { statement = []; version = "" };
  secret_key_ref = no_key_ref;
  secret_name = "s";
  tenant_ref = tenant_ref;
  user = record { builtin = "u"; ldap = "" };
}

abbrev pub access_key : MinioAccessKey
access_key = record {
  meta = live_meta;
  spec = access_key_spec;
  status = record {
    synced = none;
    current_spec = some access_key_spec;
    current_secret_resource_version = "1";
  };
}

abbrev pub bucket_spec : MinioBucketSpec
bucket_spec = record {
  deletion_policy = "Always";
  lifecycle = none;
  migrate = false;
  name = "b";
  tenant_ref = tenant_ref;
  versioning = none;
}

abbrev pub bucket : MinioBucket
bucket = record {
  meta = live_meta;
  spec = bucket_spec;
  status = record { synced = none; current_spec = none };
}

abbrev pub secret : Secret
secret = record {
  meta = record live_meta { name = "s" };
  owned = true;
  contents = ("accessKey", "AK") ∷ ("secretKey", "SK") ∷ ("config.env", "…") ∷ [];
  string_data = [];
}

abbrev pub tenant : Tenant
tenant = record {
  request_auto_cert = some true;
  external_cert_secret = [];
  external_ca_cert_secret = record { name = "ca"; kind = "kubernetes.io/tls" } ∷ [];
  configuration = some "config";
}
