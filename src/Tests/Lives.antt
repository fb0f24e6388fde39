-- ===== src/Tests/Lives.antt =====
-- Reconciliations in a row, of a group that the server stores.
use minio_operator_ext.Base.{
  ◌≡◌, refl, true, false, none, some, [], ◌∷◌, ◌⊎◌, ◌≤◌, arith, format_int,
}
use minio_operator_ext.Api.{MinioGroup, set_default_namespace}
use minio_operator_ext.Client.{ok, Env}
use minio_operator_ext.Lifecycle.{View, view, IsTrail}
use minio_operator_ext.Tenant.{
  append_certs, append_operator_certs, append_external_certs, is_secure, find_endpoint,
  get_root_credentials, get_endpoint, get_ca_bundle, get_minio_tenant_client_info, get_admin_client,
  admin_client_of,
}
use minio_operator_ext.Reconciler.{ReconcileResult, dispatch, branch}
use minio_operator_ext.Resource.{add_finalizer, clear_status}
use minio_operator_ext.Resource.Creation.{IsCreation}
use minio_operator_ext.Resource.Removal.{IsRemoval}
use minio_operator_ext.Operator.Controllers.{Controller, reconcile_of, Server, reconcile_of-IsTrail}
use minio_operator_ext.Operator.History.{
  Reaches, Reaches-guarded, IsCovered, reconcile_of-IsCovered,
}
use minio_operator_ext.Operator.Creation.{excused_by, reconcile_of-IsCreation}
use minio_operator_ext.Operator.Convergence.{
  Attempts, Attempts-bound, Successes, Settles, Successes-Settles,
}
use minio_operator_ext.Operator.Removal.{judge_of, IsTarget, reconcile_of-IsRemoval}
use minio_operator_ext.Group.{reconcile, reconcile_found, create_group, delete_group}
use minio_operator_ext.Group
use minio_operator_ext.GroupBinding
use minio_operator_ext.User
use minio_operator_ext.Policy
use minio_operator_ext.PolicyBinding
use minio_operator_ext.Bucket
use minio_operator_ext.AccessKey
use minio_operator_ext.Tests.World.{
  env_of, reconciler, request, env_of-Finalizers, stored-Echoes, live_meta, deleted_meta, group,
  group_spec,
}

-- A server that stores one group.
abbrev storing : Env MinioGroup
storing = record (env_of MinioGroup) {
  get_group = λ _ g. (ok g, g);
  update_group = λ g _. (ok g, g);
}

storing-Server : Server storing
storing-Server = record {
  finalizers = record {
    added = (env_of-Finalizers MinioGroup).added;
    removed = (env_of-Finalizers MinioGroup).removed;
  };
  buckets = stored-Echoes storing (Bucket.kind storing) (λ _ _. refl);
  groups = stored-Echoes storing (Group.kind storing) (λ _ _. refl);
  group_bindings = stored-Echoes storing (GroupBinding.kind storing) (λ _ _. refl);
  policies = stored-Echoes storing (Policy.kind storing) (λ _ _. refl);
  policy_bindings = stored-Echoes storing (PolicyBinding.kind storing) (λ _ _. refl);
  users = stored-Echoes storing (User.kind storing) (λ _ _. refl);
  access_keys = stored-Echoes storing (AccessKey.Actions.kind storing) (λ _ _. refl);
}

-- As a user writes it, and with the finalizer.
abbrev written : MinioGroup
written = record {
  meta = record live_meta { finalizers = [] };
  spec = record group_spec { migrate = true };
  status = record { synced = none; current_spec = none };
}

abbrev guarded : MinioGroup
guarded = record written { meta = live_meta }

abbrev unmade : View
unmade = view storing written.meta written.status.current_spec

abbrev half_made : View
half_made = record { deleting = false; guarded = true; managed = false }

abbrev made : View
made = record { deleting = false; guarded = true; managed = true }

abbrev answer : ReconcileResult
answer = record { requeue_after = 60 }

reconcile_of-IsTrail_example :
    IsTrail storing unmade
      (reconcile_of storing Controller.group reconciler request
        (record { world = written; log = [] })).1.log
reconcile_of-IsTrail_example =
    reconcile_of-IsTrail storing storing-Server Controller.group reconciler request written unmade
      refl

-- The group is made, gets its finalizer, and then its MinIO group.
twice : Attempts storing Controller.group unmade 2 made
unfolding reconcile_of reconcile reconcile_found dispatch branch add_finalizer create_group
    admin_client_of get_minio_tenant_client_info get_admin_client get_root_credentials get_endpoint
    get_ca_bundle append_external_certs is_secure find_endpoint append_certs append_operator_certs
    set_default_namespace format_int
twice =
    Attempts.next 1 half_made reconciler request guarded answer
      (Attempts.next 0 unmade reconciler request written answer Attempts.start refl (ground arith)
        refl)
      refl (ground arith) refl

Attempts-bound_example : 2 ≤ 2
Attempts-bound_example = Attempts-bound storing storing-Server Controller.group unmade 2 made twice

-- The same two, without a claim on what they started from.
chain : Successes storing Controller.group (made ∷ half_made ∷ unmade ∷ [])
unfolding reconcile_of reconcile reconcile_found dispatch branch add_finalizer create_group
    admin_client_of get_minio_tenant_client_info get_admin_client get_root_credentials get_endpoint
    get_ca_bundle append_external_certs is_secure find_endpoint append_certs append_operator_certs
    set_default_namespace format_int
chain =
    Successes.succeed half_made (unmade ∷ []) reconciler request guarded answer
      (Successes.succeed unmade [] reconciler request written answer (Successes.begin unmade) refl
        refl)
      refl refl

Successes-Settles_example :
    Settles storing unmade unmade ⊎ (Settles storing unmade half_made ⊎ Settles storing unmade made)
Successes-Settles_example =
    Successes-Settles storing storing-Server Controller.group unmade half_made made chain

-- The same two reconciliations as a part of the group's life.
life : Reaches storing Controller.group made
unfolding reconcile_of reconcile reconcile_found dispatch branch add_finalizer create_group
    admin_client_of get_minio_tenant_client_info get_admin_client get_root_credentials get_endpoint
    get_ca_bundle append_external_certs is_secure find_endpoint append_certs append_operator_certs
    set_default_namespace format_int
life =
    Reaches.reconciled half_made reconciler request guarded 0
      (Reaches.reconciled unmade reconciler request written 0 (Reaches.created unmade refl) refl)
      refl

Reaches-guarded_example : made.guarded ≡ true
Reaches-guarded_example = Reaches-guarded storing storing-Server Controller.group made life refl

abbrev managed : MinioGroup
managed = record group { status = record { synced = none; current_spec = some group_spec } }

reconcile_of-IsCovered_example :
    IsCovered storing made
      (reconcile_of storing Controller.group reconciler request
        (record { world = managed; log = [] })).1.log
reconcile_of-IsCovered_example =
    reconcile_of-IsCovered storing storing-Server Controller.group made life reconciler request
      managed refl

-- The group is deleted: removed from MinIO, and then written without a status.
abbrev deleted : MinioGroup
deleted = record managed { meta = deleted_meta }

deletion :
    (reconcile_of storing Controller.group reconciler request
      (record { world = deleted; log = [] })).0
    ≡ ok answer
unfolding reconcile_of reconcile reconcile_found dispatch branch delete_group clear_status
    admin_client_of get_minio_tenant_client_info get_admin_client get_root_credentials get_endpoint
    get_ca_bundle append_external_certs is_secure find_endpoint append_certs append_operator_certs
    set_default_namespace format_int
deletion = refl

reconcile_of-IsRemoval_example :
    IsRemoval storing
      (judge_of Controller.group)
      (IsTarget storing Controller.group reconciler request deleted)
      (record { deleting = true; guarded = true; managed = false })
      []
      (reconcile_of storing Controller.group reconciler request
        (record { world = deleted; log = [] })).1.log
reconcile_of-IsRemoval_example =
    reconcile_of-IsRemoval storing Controller.group reconciler request deleted
      (record { deleting = true; guarded = true; managed = true }) answer (λ e. ground (arith, e))
      refl refl refl deletion

-- The second of the two reconciliations by itself.
creation :
    (reconcile_of storing Controller.group reconciler request
      (record { world = guarded; log = [] })).0
    ≡ ok answer
unfolding reconcile_of reconcile reconcile_found dispatch branch create_group admin_client_of
    get_minio_tenant_client_info get_admin_client get_root_credentials get_endpoint get_ca_bundle
    append_external_certs is_secure find_endpoint append_certs append_operator_certs
    set_default_namespace format_int
creation = refl

reconcile_of-IsCreation_example :
    IsCreation storing
      (excused_by storing Controller.group)
      made
      (reconcile_of storing Controller.group reconciler request
        (record { world = guarded; log = [] })).1.log
reconcile_of-IsCreation_example =
    reconcile_of-IsCreation storing Controller.group reconciler request guarded half_made answer
      refl refl refl refl creation
