-- ===== src/Tests/Steps.antt =====
-- Creations and deletions in World, and in worlds where MinIO refuses.
use mathlib.Core.List.Perm
use minio_operator_ext.Base.{◌≡◌, refl, ap, some, true, [], ◌∷◌}
use minio_operator_ext.Api.{
  MinioGroup, MinioPolicy, MinioPolicyStatement, MinioPolicySpec, MinioGroupBinding,
}
use minio_operator_ext.Client.{Op, Error, message, madmin_response, ok, err, Env, Call, Run}
use minio_operator_ext.Tenant.{admin_client_of}
use minio_operator_ext.Reconciler.{ReconcileResult}
use minio_operator_ext.Resource.{clear_status}
use minio_operator_ext.Policy.Hash.{
  statement_hash, policy_spec_hash, statement_text, sort, insert, join, text_leb,
}
use minio_operator_ext.Policy.Digest.{statement_hash-Perm, policy_spec_hash-Perm}
use minio_operator_ext.User.{create_user, get_access_key}
use minio_operator_ext.Group.{create_group, reconcile_found}
use minio_operator_ext.GroupBinding.{add_group_member, delete_group_member}
use minio_operator_ext.Policy.{create_policy, check_policy, update_policy}
use minio_operator_ext.Bucket.{delete_bucket, is_forced}
use minio_operator_ext.Group.Steps.{create_group-no_adoption}
use minio_operator_ext.Group.Steady.{reconcile_group-steady}
use minio_operator_ext.GroupBinding.Steps.{delete_group_member-fails}
use minio_operator_ext.User.Steps.{create_user-no_adoption}
use minio_operator_ext.Policy.Sync.{Checked, check_policy-Checked}
use minio_operator_ext.Tests.World.{
  Quiet, env, reconciler, start, request, tenant_ref, group, group_spec, group_binding,
  group_binding_spec, user, user_spec, policy, policy_spec, bucket, bucket_spec, statement,
}
use minio_operator_ext.Tests.Clients.{connection, admin_client_of_run, client_of_run}

abbrev done : ReconcileResult
done = record { requeue_after = 60 }

client_ok : (admin_client_of env tenant_ref "minio" "operator" start).0 ≡ ok connection
client_ok = ap (λ x. x.0) (admin_client_of_run env.act)

-- A group that takes over the one that MinIO has.
abbrev migrated : MinioGroup
migrated = record group { spec = record group_spec { migrate = true } }

create_group_run : (create_group env reconciler migrated start).0 ≡ ok done
unfolding create_group
create_group_run = rw (admin_client_of_run env.act) refl

create_group-no_adoption_example :
    ((create_group env reconciler group start).0 ≡ err (message "group g already exists"))
    × ((create_group env reconciler group start).1.log ≡ [])
create_group-no_adoption_example =
    create_group-no_adoption env reconciler group connection (record { members = "u" ∷ [] }) start
      client_ok refl refl

abbrev steady : MinioGroup
steady = record group { status = record group.status { current_spec = some group_spec } }

reconcile_group-steady_example :
    ((reconcile_found env reconciler steady start).0 ≡ ok done)
    × ((reconcile_found env reconciler steady start).1.log ≡ [])
reconcile_group-steady_example =
    reconcile_group-steady env reconciler steady group_spec connection
      (record { members = "u" ∷ [] }) start refl refl refl refl client_ok refl

-- A user who is not a member yet.
abbrev newcomer : MinioGroupBinding
newcomer = record group_binding { spec = record group_binding_spec { user = "v" } }

add_group_member_run : (add_group_member env reconciler newcomer start).0 ≡ ok done
unfolding add_group_member
add_group_member_run = rw (admin_client_of_run env.act) refl

get_access_key_run : (s : Run Quiet) → (get_access_key env user_spec "minio" s).0 ≡ ok "u"
unfolding get_access_key
get_access_key_run s = refl

create_user-no_adoption_example :
    ((create_user env reconciler request user start).0 ≡ err (message "user u already exists"))
    × ((create_user env reconciler request user start).1.log ≡ [])
create_user-no_adoption_example =
    create_user-no_adoption env reconciler request user connection "u" start client_ok
      (get_access_key_run (admin_client_of env tenant_ref "minio" "operator" start).1) refl refl

abbrev migrated_policy : MinioPolicy
migrated_policy = record policy { spec = record policy_spec { migrate = true } }

create_policy_run : (create_policy env reconciler migrated_policy start).0 ≡ ok done
unfolding create_policy
create_policy_run = rw (admin_client_of_run env.act) refl

-- A world in which MinIO refuses every change.
abbrev refused : Error
refused = madmin_response "XMinioAdminNoSuchPolicy" "gone"

abbrev refusal : Op → Call Quiet (Unit {0})
refusal op w = (err refused, w)

abbrev refusing : Env Quiet
refusing = record env { act = refusal }

refusing_client_ok :
    (admin_client_of refusing tenant_ref "minio" "operator" start).0 ≡ ok connection
refusing_client_ok = ap (λ x. x.0) (admin_client_of_run refusal)

delete_group_member-fails_example :
    ((delete_group_member refusing reconciler group_binding group_binding_spec start).0
      ≡ err refused)
    × ((delete_group_member refusing reconciler group_binding group_binding_spec start).1.log
        ≡ record {
          op =
              Op.update_group_members connection
                (record { group = "g"; members = "u" ∷ []; is_remove = true });
          failure = some refused;
        }
          ∷ [])
delete_group_member-fails_example =
    delete_group_member-fails refusing reconciler group_binding group_binding_spec connection
      refused start refusing_client_ok refl refl

delete_bucket_run : (delete_bucket env reconciler bucket bucket_spec start).0 ≡ ok done
unfolding delete_bucket is_forced clear_status
delete_bucket_run = rw (client_of_run env.act) refl

-- The same actions and resources in another order.
abbrev shuffled : MinioPolicyStatement
shuffled = record statement { action = "s3:Put" ∷ "s3:Get" ∷ []; resource = "b" ∷ "a" ∷ [] }

statement_hash-Perm_example : statement_hash env shuffled ≡ statement_hash env statement
statement_hash-Perm_example =
    statement_hash-Perm env shuffled statement refl (Perm.swap "s3:Get" "s3:Put" [])
      (Perm.swap "a" "b" [])

abbrev two_statements : MinioPolicySpec
two_statements = record policy_spec {
  statement = statement ∷ record statement { effect = "Deny" } ∷ [];
}

abbrev two_statements_swapped : MinioPolicySpec
two_statements_swapped = record policy_spec {
  statement = record statement { effect = "Deny" } ∷ statement ∷ [];
}

policy_spec_hash-Perm_example :
    policy_spec_hash env two_statements_swapped ≡ policy_spec_hash env two_statements
policy_spec_hash-Perm_example =
    policy_spec_hash-Perm env two_statements_swapped two_statements refl
      (Perm.swap statement (record statement { effect = "Deny" }) [])

-- Two actions, and one that is spelled like both: the text that is hashed is the same.
hash_collision :
    statement_text (record statement { action = "a" ∷ "b" ∷ [] })
    ≡ statement_text (record statement { action = "a,b" ∷ [] })
unfolding statement_text sort insert join text_leb
hash_collision = refl

-- A policy whose version was changed.
abbrev newer : MinioPolicy
newer = record policy {
  spec = record policy_spec { version = "2" };
  status = record policy.status { current_spec = some policy_spec };
}

check_policy_run : (check_policy env reconciler newer start).0 ≡ ok done
unfolding check_policy update_policy
check_policy_run = rw (admin_client_of_run env.act) refl

check_policy-Checked_example :
    Checked env connection policy_spec newer
      (ok "{}")
      []
      (check_policy env reconciler newer start).1.log
check_policy-Checked_example =
    check_policy-Checked env reconciler newer policy_spec connection done start refl client_ok
      check_policy_run
