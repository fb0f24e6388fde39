-- ===== src/Tests/Steady.antt =====
-- Resources of World that are in order, settings of a bucket that change, and a creation that fails.
use minio_operator_ext.Base.{◌≡◌, refl, none, some, true, [], ◌∷◌}
use minio_operator_ext.Api.{
  MinioUser, MinioGroupBinding, MinioPolicyBinding, MinioBucket, MinioBucketVersioningConfiguration,
}
use minio_operator_ext.Client.{Op, Error, message, ok, err, Env, Run, Call}
use minio_operator_ext.Reconciler.{ReconcileResult}
use minio_operator_ext.Tenant.{admin_client_of}
use minio_operator_ext.User.{get_access_key, update_secret_key}
use minio_operator_ext.User
use minio_operator_ext.User.Steady.{reconcile_user-steady}
use minio_operator_ext.PolicyBinding.{is_bound, is_ldap, is_mapped}
use minio_operator_ext.PolicyBinding
use minio_operator_ext.PolicyBinding.Steady.{reconcile_policy_binding-steady}
use minio_operator_ext.Bucket.{
  kind, apply_versioning, apply_lifecycle, apply_deletion_policy, versioning_to_remote,
}
use minio_operator_ext.Bucket.Follow.{Follows, apply_versioning-Follows}
use minio_operator_ext.Policy.Hash.{access_key_policy_hash, document_text, sort, join, insert}
use minio_operator_ext.AccessKey.Credentials.{get_credentials_from_secret}
use minio_operator_ext.AccessKey.Actions.{create_access_key, marshal_spec_policy}
use minio_operator_ext.AccessKey.{create_or_delete_secret}
use minio_operator_ext.AccessKey.Rollback.{create_or_delete_secret-fails}
use minio_operator_ext.Tests.World.{
  Quiet, env, reconciler, request, start, stored-Echoes, tenant_ref, user, user_spec, group_binding,
  group_binding_spec, policy_binding, policy_binding_spec, bucket, bucket_spec, secret, access_key,
  spec_versioning_zero,
}
use minio_operator_ext.Tests.Clients.{connection, admin_client_of_run}

abbrev finished : ReconcileResult
finished = record { requeue_after = 60 }

abbrev known_user : MinioUser
known_user = record user {
  status = record {
    synced = none;
    current_spec = some user_spec;
    current_secret_key_ref_resource_version = "1";
  };
}

known_user_key : get_access_key env user_spec "minio" start ≡ (ok "u", start)
unfolding get_access_key
known_user_key = refl

reconcile_user-steady_example :
    ((User.reconcile_found env reconciler request known_user start).0 ≡ ok finished)
    × ((User.reconcile_found env reconciler request known_user start).1.log ≡ [])
reconcile_user-steady_example =
    reconcile_user-steady env reconciler request known_user user_spec connection "u" secret start
      start start tt tt refl refl refl refl (admin_client_of_run env.act) known_user_key refl refl
      refl

-- The status has an older version of the secret.
abbrev rotated_user : MinioUser
rotated_user = record known_user {
  status = record known_user.status { current_secret_key_ref_resource_version = "0" };
}

rotated_user_run :
    (update_secret_key env reconciler request connection "u" user_spec rotated_user start).0
    ≡ ok finished
unfolding update_secret_key
rotated_user_run = refl

abbrev known_group_binding : MinioGroupBinding
known_group_binding = record group_binding {
  status = record { synced = none; current_spec = some group_binding_spec };
}

abbrev known_policy_binding : MinioPolicyBinding
known_policy_binding = record policy_binding {
  status = record { synced = none; current_spec = some policy_binding_spec };
}

-- A world in which the policy is attached to the group.
abbrev attached : Env Quiet
attached = record env {
  get_policy_entities = λ _ _ w. (ok (record { groups = "g" ∷ []; users = [] } ∷ []), w);
}

attached_client_run :
    admin_client_of attached tenant_ref "minio" "operator" start ≡ (ok connection, start)
unfolding admin_client_of
attached_client_run = admin_client_of_run env.act

attached_run : is_bound attached connection policy_binding_spec start ≡ (ok true, start)
unfolding is_bound is_ldap is_mapped
attached_run = refl

reconcile_policy_binding-steady_example :
    ((PolicyBinding.reconcile_found attached reconciler known_policy_binding start).0 ≡ ok finished)
    × ((PolicyBinding.reconcile_found attached reconciler known_policy_binding start).1.log ≡ [])
reconcile_policy_binding-steady_example =
    reconcile_policy_binding-steady attached reconciler known_policy_binding policy_binding_spec
      connection start start start refl refl refl refl attached_client_run attached_run refl

abbrev versioned : MinioBucketVersioningConfiguration
versioned = record spec_versioning_zero { status = "Enabled" }

abbrev changed_bucket : MinioBucket
changed_bucket = record bucket {
  spec = record bucket_spec { versioning = some versioned; deletion_policy = "IfEmpty" };
  status = record { synced = none; current_spec = some bucket_spec };
}

abbrev versioned_bucket : MinioBucket
versioned_bucket = record changed_bucket {
  status = record {
    synced = none;
    current_spec = some (record bucket_spec { versioning = some versioned });
  };
}

versioned_bucket_run :
    (apply_versioning env connection bucket_spec changed_bucket start).0 ≡ ok versioned_bucket
unfolding apply_versioning versioning_to_remote
versioned_bucket_run = refl

apply_versioning-Follows_example :
    Follows changed_bucket (record bucket_spec { versioning = some versioned }) versioned_bucket
apply_versioning-Follows_example =
    apply_versioning-Follows env (stored-Echoes env (kind env) (λ _ _. refl)) connection bucket_spec
      changed_bucket versioned_bucket start refl versioned_bucket_run

kept_bucket_run :
    (apply_lifecycle env connection bucket_spec changed_bucket start).0 ≡ ok changed_bucket
unfolding apply_lifecycle
kept_bucket_run = refl

abbrev kept_if_filled : MinioBucket
kept_if_filled = record changed_bucket {
  status = record {
    synced = none;
    current_spec = some (record bucket_spec { deletion_policy = "IfEmpty" });
  };
}

kept_if_filled_run :
    (apply_deletion_policy env bucket_spec changed_bucket start).0 ≡ ok kept_if_filled
unfolding apply_deletion_policy
kept_if_filled_run = refl

-- A world in which MinIO refuses the access key.
abbrev taken : Error
taken = message "taken"

abbrev refusal : Op → Call Quiet (Unit {0})
refusal op w = (err taken, w)

abbrev refusing : Env Quiet
refusing = record env { act = refusal }

abbrev after_refusal : Run Quiet
after_refusal = record start {
  log =
      record {
        op = Op.add_service_account connection (record {
          access_key = "AK";
          description = "";
          expiration = none;
          name = "k";
          secret_key = "SK";
          policy = none;
          target_user = "u";
        });
        failure = some taken;
      }
      ∷ [];
}

refused_run :
    create_access_key refusing reconciler access_key secret start ≡ (err taken, after_refusal)
unfolding create_access_key marshal_spec_policy get_credentials_from_secret access_key_policy_hash
    document_text sort join insert
refused_run = rw (admin_client_of_run refusal) refl

create_or_delete_secret-fails_example :
    ((create_or_delete_secret refusing reconciler access_key secret start).0 ≡ err taken)
    × ((create_or_delete_secret refusing reconciler access_key secret start).1.log
        ≡ record { op = Op.delete_secret secret; failure = none } ∷ after_refusal.log)
create_or_delete_secret-fails_example =
    create_or_delete_secret-fails refusing reconciler access_key secret taken start after_refusal
      refused_run refl
