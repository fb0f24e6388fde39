-- ===== src/Tests/Keys.antt =====
-- Access keys in World, and in a world where MinIO has lost them.
use Prim.Native.Nat.{◌<◌}
use minio_operator_ext.Base.{
  ◌≡◌, refl, ap, none, some, true, [], ◌∷◌, inr, All, take, length, arith, bytes,
}
use minio_operator_ext.Api.{MinioAccessKey, InfoServiceAccountResp}
use minio_operator_ext.Client.{Op, ok, err, message, Env}
use minio_operator_ext.Policy.Hash.{access_key_policy_hash, document_text, sort, join}
use minio_operator_ext.Lifecycle.{view, latest}
use minio_operator_ext.Reconciler.{ReconcileResult}
use minio_operator_ext.AccessKey.Random.{digits, random_digits}
use minio_operator_ext.AccessKey.Random.Length.{random_digits-length}
use minio_operator_ext.AccessKey.Credentials.{
  Credentials, get_desired_credentials, get_credentials_from_secret, credentials_hash,
}
use minio_operator_ext.AccessKey.Credentials.Framing.{hashed_bytes-injective}
use minio_operator_ext.AccessKey.Credentials.Stable.{get_desired_credentials-keeps}
use minio_operator_ext.AccessKey.Actions.{
  restore_access_key, apply_spec, sync_access_key, remote_policy, marshal_spec_policy,
  delete_access_key, update_credentials_secret, find_secret, keep_secret, refresh_secret,
  update_access_key, drop_migrate, look_up_access_key, forget_access_key, delete_current_secret,
}
use minio_operator_ext.AccessKey.{check_access_key, finish_deletion}
use minio_operator_ext.AccessKey.Removal.{Deleted, finish_deletion-Deleted}
use minio_operator_ext.Resource.{clear_finalizer}
use minio_operator_ext.AccessKey.Sync.{Synced, sync_access_key-Synced}
use minio_operator_ext.AccessKey.Status.{check_access_key-managed}
use minio_operator_ext.Tests.World.{
  Quiet, env, reconciler, start, access_key, access_key_spec, secret,
}
use minio_operator_ext.Tests.Clients.{connection, lost, gone_client_run}

abbrev done : ReconcileResult
done = record { requeue_after = 60 }

abbrev keys : Credentials
keys = record { access_key = "AK"; secret_key = "SK" }

get_desired_credentials-keeps_example :
    get_desired_credentials env access_key (some keys) start ≡ (ok keys, start)
get_desired_credentials-keeps_example =
    get_desired_credentials-keeps env access_key keys start (inr refl) refl refl refl refl

gone_secret_run : update_credentials_secret lost access_key start ≡ (ok (secret, access_key), start)
unfolding update_credentials_secret find_secret keep_secret refresh_secret
    get_credentials_from_secret credentials_hash
gone_secret_run =
    rw (get_desired_credentials-keeps lost access_key keys start (inr refl) refl refl refl refl)
      refl

gone_update_run : update_access_key lost reconciler access_key secret start ≡ (
  ok (record access_key { status = record access_key.status { current_spec = none } }),
  record start {
    log =
        record {
          op =
              Op.update_access_key
                (record access_key { status = record access_key.status { current_spec = none } });
          failure = none;
        }
        ∷ record { op = Op.delete_secret secret; failure = none }
        ∷ [];
  },
)
unfolding update_access_key drop_migrate look_up_access_key forget_access_key delete_current_secret
    find_secret get_credentials_from_secret
gone_update_run = rw gone_client_run refl

-- The access key is gone from MinIO and its secret is deleted; the status is cleared, and then set
-- again, so that no later reconciliation makes the access key anew.
gone_access_key_run : check_access_key lost reconciler access_key start ≡ (
  ok done,
  record start {
    log =
        record { op = Op.update_access_key access_key; failure = none }
        ∷ record {
          op =
              Op.update_access_key
                (record access_key { status = record access_key.status { current_spec = none } });
          failure = none;
        }
        ∷ record { op = Op.delete_secret secret; failure = none }
        ∷ [];
  },
)
unfolding check_access_key
gone_access_key_run = rw gone_secret_run (rw gone_update_run refl)

check_access_key-managed_example :
    (latest lost
      (view lost access_key.meta access_key.status.current_spec)
      (check_access_key lost reconciler access_key start).1.log).managed
    ≡ true
check_access_key-managed_example =
    check_access_key-managed lost reconciler
      (view lost access_key.meta access_key.status.current_spec) access_key done start
      (ap (λ x. x.0) gone_access_key_run)

hashed_bytes-injective_example : (bytes "AK" ≡ bytes "AK") × (bytes "SK" ≡ bytes "SK")
unfolding bytes
hashed_bytes-injective_example =
    hashed_bytes-injective keys keys (omega arith) (omega arith) (omega arith) (omega arith) refl

-- A world whose random bytes are all ones.
abbrev ones : Env Quiet
ones = record env { rand_read = λ _ w. (ok (255 ∷ []), w) }

random_digits-length_example :
    ((random_digits ones 1 start).0 ≡ ok (take 1 (digits (255 ∷ []))))
    × (length (take 1 (digits (255 ∷ []))) ≡ 1)
    × All (λ x. x < 32) (take 1 (digits (255 ∷ [])))
random_digits-length_example =
    random_digits-length ones 1 (255 ∷ []) start refl refl (omega arith, tt)

-- MinIO has another description, and the spec another name.
abbrev renamed : MinioAccessKey
renamed = record access_key { spec = record access_key_spec { name = "k2" } }

abbrev drifted : InfoServiceAccountResp
drifted = record {
  description = "by hand";
  expiration = none;
  implied_policy = true;
  name = "k";
  policy = "";
}

sync_access_key_run :
    (sync_access_key env reconciler connection secret renamed access_key_spec drifted start).0
    ≡ ok renamed
unfolding sync_access_key restore_access_key apply_spec remote_policy marshal_spec_policy
    get_credentials_from_secret access_key_policy_hash document_text sort join
sync_access_key_run = refl

sync_access_key-Synced_example :
    Synced env reconciler connection keys secret renamed access_key_spec drifted start.log
      (sync_access_key env reconciler connection secret renamed access_key_spec drifted start).1.log
unfolding get_credentials_from_secret
sync_access_key-Synced_example =
    sync_access_key-Synced env reconciler connection secret renamed renamed access_key_spec drifted
      start sync_access_key_run

-- A cluster that has lost the secret: the access key stays in MinIO.
abbrev secretless : Env Quiet
secretless = record env { get_secret = λ _ w. (err (message "not found"), w) }

finish_deletion_run : finish_deletion secretless reconciler access_key start ≡ (
  ok done,
  record start {
    log =
        record {
          op = Op.update_access_key (record access_key {
            meta = record access_key.meta { finalizers = [] };
            status = record access_key.status { current_spec = none };
          });
          failure = none;
        }
        ∷ record {
          op =
              Op.update_access_key
                (record access_key { status = record access_key.status { current_spec = none } });
          failure = none;
        }
        ∷ [];
  },
)
unfolding finish_deletion delete_access_key find_secret clear_finalizer
finish_deletion_run = refl

finish_deletion-Deleted_example :
    Deleted secretless reconciler access_key access_key_spec start
      (finish_deletion secretless reconciler access_key start).1.log
finish_deletion-Deleted_example =
    finish_deletion-Deleted secretless reconciler access_key access_key_spec done start refl
      (ap (λ x. x.0) finish_deletion_run)
