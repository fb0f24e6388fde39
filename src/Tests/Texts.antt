-- ===== src/Tests/Texts.antt =====
-- Random keys, the credentials in a new secret, and sorted lists.
use minio_operator_ext.Base.{String, ◌≡◌, refl, arith, List, [], ◌∷◌, none, true}
use minio_operator_ext.Api.{MinioAccessKey, Secret}
use minio_operator_ext.Client.{ok}
use minio_operator_ext.AccessKey.Credentials.{
  get_desired_credentials, get_credentials_from_secret, desired_access_key, desired_secret_key,
  named_access_key, named_secret_key, or_current, or_random, read_ref,
}
use minio_operator_ext.AccessKey.Actions.{create_credentials_secret}
use minio_operator_ext.AccessKey.Issue.{
  KeepsData, create_credentials_secret-get_credentials_from_secret,
}
use minio_operator_ext.Tests.World.{env, start, access_key, access_key_spec}

abbrev unsorted : List String
unsorted = "b" ∷ "a" ∷ []

abbrev sorted : List String
sorted = "a" ∷ "b" ∷ []

env-KeepsData : KeepsData env
env-KeepsData = record {
  owned = λ ak s s' e. ground (arith, e);
  created = λ s s' w unset e. ground (arith, e);
}

-- An access key whose secret key another secret holds.
abbrev keyed : MinioAccessKey
keyed = record access_key {
  spec = record access_key_spec {
    secret_key_ref = record { key = "secretKey"; name = "s"; namespace = "" };
  };
}

abbrev made : Secret
made = record {
  meta = record {
    name = "s";
    namespace = "minio";
    resource_version = "";
    deletion_timestamp = none;
    finalizers = [];
  };
  owned = true;
  contents = ("accessKey", "AK") ∷ ("secretKey", "SK") ∷ [];
  string_data = [];
}

creation : (create_credentials_secret env keyed start).0 ≡ ok made
unfolding create_credentials_secret get_desired_credentials desired_access_key desired_secret_key
    named_access_key named_secret_key or_current or_random read_ref
creation = refl

create_credentials_secret-get_credentials_from_secret_example :
    (get_desired_credentials env keyed none start).0 ≡ ok (get_credentials_from_secret made)
create_credentials_secret-get_credentials_from_secret_example =
    create_credentials_secret-get_credentials_from_secret env env-KeepsData keyed start made
      creation
