-- ===== src/Bucket.antt =====
-- internal/operator/minio_bucket_reconciler.go.
pub mod Sync
pub mod Trail
pub mod Steps
pub mod Progress
pub mod Removal
pub mod Creation
pub mod Follow
use minio_operator_ext.Base.{
  String, Bool, true, false, not, Option, none, some, List, [], if◌then◌else◌, ◌==◌, string_eq,
  option_eq,
}
use minio_operator_ext.Api.{
  NamespacedName, MinioBucket, MinioBucketSpec, MinioBucketVersioningConfiguration,
  MinioBucketLifecycleConfiguration, Connection, BucketVersioning, BucketLifecycle, ResourceRef,
  versioning_eq, lifecycle_eq, lifecycle_equal, deletion_policy_always, deletion_policy_if_empty,
  set_default_namespace,
}
use minio_operator_ext.Client.{
  Op, ok, err, error_of, ignore_minio_error_code, Env, Io, ◌>>=◌, ◌>>◌, pure, deref, query, perform,
  attempt, check,
}
use minio_operator_ext.Tenant.{get_minio_tenant_client_info, get_client}
use minio_operator_ext.Resource.{
  Kind, update, drop_migrate, add_finalizer, clear_finalizer, clear_status,
}
use minio_operator_ext.Reconciler.{
  finalizer, Reconciler, ReconcileResult, succeed, with_resource, dispatch, convert_via_xml,
  nil_to_empty,
}

-- `minioclient.BucketVersioningConfiguration{Status: "Suspended"}`, and the zero value
abbrev suspended : BucketVersioning
suspended = record {
  status = "Suspended";
  mfa_delete = "";
  excluded_prefixes = [];
  exclude_folders = false;
}

abbrev no_versioning : BucketVersioning
no_versioning = record {
  status = "";
  mfa_delete = "";
  excluded_prefixes = [];
  exclude_folders = false;
}

-- `dp == Always`, where an empty policy is `IfEmpty`
unfoldable pub is_forced : MinioBucketSpec → Bool
is_forced spec =
    (if spec.deletion_policy == "" then deletion_policy_if_empty else spec.deletion_policy)
    == deletion_policy_always

module _ {W : Type 0} (env : Env W) where
  -- `mtc.MakeBucket(ctx, name, …)`
  abbrev pub make_bucket : Connection → String → Io W (Unit {0})
  make_bucket mtc name = perform (Op.make_bucket mtc name) (env.act (Op.make_bucket mtc name))

  -- `mtc.RemoveBucketWithOptions(ctx, name, …)`
  abbrev pub remove_bucket : Connection → String → Bool → Io W (Unit {0})
  remove_bucket mtc name force =
      perform (Op.remove_bucket mtc name force) (env.act (Op.remove_bucket mtc name force))

  -- `mtc.SetBucketVersioning(ctx, name, config)`
  abbrev pub set_bucket_versioning : Connection → String → BucketVersioning → Io W (Unit {0})
  set_bucket_versioning mtc name config =
      perform (Op.set_bucket_versioning mtc name config)
        (env.act (Op.set_bucket_versioning mtc name config))

  -- `mtc.SetBucketLifecycle(ctx, name, config)`
  abbrev pub set_bucket_lifecycle : Connection → String → BucketLifecycle → Io W (Unit {0})
  set_bucket_lifecycle mtc name config =
      perform (Op.set_bucket_lifecycle mtc name config)
        (env.act (Op.set_bucket_lifecycle mtc name config))

  abbrev pub clear_migrate : MinioBucket → MinioBucket
  clear_migrate b = record b { spec = record b.spec { migrate = false } }

  abbrev pub set_current_spec : MinioBucket → Option MinioBucketSpec → MinioBucket
  set_current_spec b c = record b { status = record b.status { current_spec = c } }

  abbrev pub kind : Kind W MinioBucket MinioBucketSpec
  kind = record {
    meta = λ b. b.meta;
    spec = λ b. b.spec;
    current_spec = λ b. b.status.current_spec;
    migrate = λ b. b.spec.migrate;
    set_finalizers = λ b fs. record b { meta = record b.meta { finalizers = fs } };
    set_current_spec = set_current_spec;
    clear_migrate = clear_migrate;
    op = λ b. Op.update_bucket b;
    call = env.update_bucket;
  }

  -- The configuration that is sent to MinIO: `base` where the resource has none.
  unfoldable pub versioning_to_remote :
      BucketVersioning → Option MinioBucketVersioningConfiguration → Io W BucketVersioning
  versioning_to_remote base config = elim config [
    | none ↦ pure base
    | some c ↦ convert_via_xml env.spec_versioning env.remote_versioning c base
  ]

  pub lifecycle_to_remote : Option MinioBucketLifecycleConfiguration → Io W BucketLifecycle
  lifecycle_to_remote config = elim config [
    | none ↦ pure env.zero_lifecycle
    | some c ↦ convert_via_xml env.spec_lifecycle env.remote_lifecycle c env.zero_lifecycle
  ]

  -- MinIO's versioning is made what the status says, where it differs.
  restore_versioning : Connection → MinioBucketSpec → Io W (Unit {0})
  restore_versioning mtc current = do
    bvc ← query (env.get_bucket_versioning mtc current.name)
    let zero_value = env.spec_versioning.zero_value
    mbvc ← convert_via_xml env.remote_versioning env.spec_versioning bvc zero_value
    if mbvc == nil_to_empty zero_value current.versioning then pure tt else (do
      config ← versioning_to_remote suspended current.versioning
      set_bucket_versioning mtc current.name config)

  -- The spec's versioning, where it differs from the status, is sent and noted.
  unfoldable pub apply_versioning : Connection → MinioBucketSpec → MinioBucket → Io W MinioBucket
  apply_versioning mtc current b = if b.spec.versioning == current.versioning then pure b else (do
    config ← versioning_to_remote suspended b.spec.versioning
    set_bucket_versioning mtc current.name config
    update env kind (set_current_spec b (some (record current { versioning = b.spec.versioning }))))

  restore_lifecycle : Connection → MinioBucketSpec → Io W (Unit {0})
  restore_lifecycle mtc current = do
    got ← attempt (query (env.get_bucket_lifecycle mtc current.name))
    check (ignore_minio_error_code (error_of got) "NoSuchLifecycleConfiguration")
    let blc : BucketLifecycle = elim got [
      | ok (some c) ↦ c
      | ok none ↦ env.new_lifecycle
      | err _ ↦ env.new_lifecycle
    ]
    let zero_value = env.spec_lifecycle.zero_value
    mblc ← convert_via_xml env.remote_lifecycle env.spec_lifecycle blc zero_value
    if lifecycle_equal mblc (nil_to_empty zero_value current.lifecycle) then pure tt else (do
      config ← lifecycle_to_remote current.lifecycle
      set_bucket_lifecycle mtc current.name config)

  unfoldable pub apply_lifecycle : Connection → MinioBucketSpec → MinioBucket → Io W MinioBucket
  apply_lifecycle mtc current b = if b.spec.lifecycle == current.lifecycle then pure b else (do
    config ← lifecycle_to_remote b.spec.lifecycle
    set_bucket_lifecycle mtc current.name config
    update env kind (set_current_spec b (some (record current { lifecycle = b.spec.lifecycle }))))

  -- The spec's deletion policy, where it differs from the status, is noted.
  unfoldable pub apply_deletion_policy : MinioBucketSpec → MinioBucket → Io W MinioBucket
  apply_deletion_policy current b =
      if current.deletion_policy == b.spec.deletion_policy
      then pure b
      else update env kind
          (set_current_spec b (some (record current { deletion_policy = b.spec.deletion_policy })))

  -- The client of the tenant that a resource refers to.
  unfoldable pub client_of : ResourceRef → String → String → Io W Connection
  client_of tenant_ref default_ns operator_namespace = do
    mtci ←
        get_minio_tenant_client_info env (set_default_namespace tenant_ref default_ns)
          operator_namespace
    get_client env mtci

  module _ (r : Reconciler) where
    -- Marked for deletion, status set.
    unfoldable pub delete_bucket : MinioBucket → MinioBucketSpec → Io W ReconcileResult
    delete_bucket b current = do
      mtc ← client_of current.tenant_ref b.meta.namespace r.minio_operator_namespace
      removed ← attempt (remove_bucket mtc current.name (is_forced current))
      check (ignore_minio_error_code (error_of removed) "NoSuchBucket")
      clear_status env kind r b

    -- The bucket exists: each of its settings is brought up to date.
    sync_deletion_policy : MinioBucket → Io W ReconcileResult
    sync_deletion_policy b = do
      current ← deref b.status.current_spec
      apply_deletion_policy current b
      succeed r

    sync_lifecycle : Connection → MinioBucket → Io W ReconcileResult
    sync_lifecycle mtc b = do
      current ← deref b.status.current_spec
      restore_lifecycle mtc current
      b2 ← apply_lifecycle mtc current b
      sync_deletion_policy b2

    sync_bucket : Connection → MinioBucketSpec → MinioBucket → Io W ReconcileResult
    sync_bucket mtc current b = do
      restore_versioning mtc current
      b2 ← apply_versioning mtc current b
      sync_lifecycle mtc b2

    -- Cleared if the bucket is gone from MinIO.
    pub look_up_bucket : Connection → MinioBucketSpec → MinioBucket → Io W ReconcileResult
    look_up_bucket mtc current b = do
      be ← query (env.bucket_exists mtc current.name)
      if be then sync_bucket mtc current b else clear_status env kind r b

    -- Status set.
    check_bucket : MinioBucket → Io W ReconcileResult
    check_bucket b = do
      current ← deref b.status.current_spec
      mtc ← client_of current.tenant_ref b.meta.namespace r.minio_operator_namespace
      look_up_bucket mtc current b

    -- The settings of a new bucket, where the spec has them.
    configure_bucket : Connection → MinioBucketSpec → Io W (Unit {0})
    configure_bucket mtc spec = do
      elim spec.versioning [
        | none ↦ pure tt
        | some _ ↦ (do
          config ← versioning_to_remote no_versioning spec.versioning
          set_bucket_versioning mtc spec.name config)
      ]
      elim spec.lifecycle [
        | none ↦ pure tt
        | some _ ↦ (do
          config ← lifecycle_to_remote spec.lifecycle
          set_bucket_lifecycle mtc spec.name config)
      ]

    -- Status unset: the bucket is made and configured, then the status is set.
    pub create_bucket : MinioBucket → Io W ReconcileResult
    create_bucket b = do
      mtc ← client_of b.spec.tenant_ref b.meta.namespace r.minio_operator_namespace
      made ← attempt (make_bucket mtc b.spec.name)
      check (
          if b.spec.migrate
          then ignore_minio_error_code (error_of made) "BucketAlreadyOwnedByYou"
          else error_of made)
      configure_bucket mtc b.spec
      let b2 = clear_migrate b
      update env kind (set_current_spec b2 (some b2.spec))
      succeed r

    -- The branches of `Reconcile` behind `r.Get`.
    pub reconcile_found : MinioBucket → Io W ReconcileResult
    reconcile_found b =
        dispatch env b.meta b.status.current_spec (delete_bucket b) (clear_finalizer env kind r b)
          (add_finalizer env kind r b) (λ _. drop_migrate env kind b >>= check_bucket)
          (create_bucket b)

    -- `Reconcile`
    pub reconcile : NamespacedName → Io W ReconcileResult
    reconcile req = with_resource env (env.get_bucket req) reconcile_found
