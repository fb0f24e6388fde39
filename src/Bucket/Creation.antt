-- ===== src/Bucket/Creation.antt =====
-- A creation of a bucket that succeeds made it in MinIO before it set the status.
use minio_operator_ext.Base.{◌≡◌, refl, true, some, none, Option}
use minio_operator_ext.Api.{
  NamespacedName, MinioBucket, MinioBucketSpec, Connection, MinioBucketVersioningConfiguration,
  MinioBucketLifecycleConfiguration,
}
use minio_operator_ext.Client.{
  Error, ok, Op, Env, Io, Run, ◌>>=◌, ◌>>◌, attempt, check, Ensures, >>=-Ensures, error_of,
  ignore_minio_error_code, pure,
}
use minio_operator_ext.Lifecycle.{View, view}
use minio_operator_ext.Reconciler.{Reconciler, ReconcileResult, succeed}
use minio_operator_ext.Resource.{update}
use minio_operator_ext.Resource.Creation.{
  Made, IsCreation, Creates, >>=-Creates, judged-Made, neither-Made, last-Creates, dispatch-Creates,
  Makes, with_resource-Makes,
}
use minio_operator_ext.Base.{String, if◌then◌else◌, inl, inr, Bool-cases}
use minio_operator_ext.Base.{arith}
use minio_operator_ext.Bucket.Sync.{versioning_to_remote-log, lifecycle_to_remote-log}
use minio_operator_ext.Bucket.{
  kind, set_current_spec, clear_migrate, client_of, make_bucket, configure_bucket,
  versioning_to_remote, lifecycle_to_remote, no_versioning, set_bucket_versioning,
  set_bucket_lifecycle, create_bucket, reconcile_found, reconcile,
}
use minio_operator_ext.Bucket.Sync.{kind-IsKind}

-- The error of a bucket that is there already is let pass, for a resource with `migrate`.
abbrev pub lenient : Option Error → Option Error
lenient e = ignore_minio_error_code e "BucketAlreadyOwnedByYou"

module _ {W : Type 0} (env : Env W) (r : Reconciler) where
  abbrev made_view : MinioBucket → View
  made_view b = record (view env b.meta b.status.current_spec) { managed = true }

  abbrev test : MinioBucket → Option Error → Option Error
  test b e = if b.spec.migrate then lenient e else e

  test-lenient : (b : MinioBucket) (e : Option Error) → test b e ≡ none → lenient e ≡ none
  test-lenient b e h = elim (Bool-cases b.spec.migrate) [
    | inl t ↦ ground (arith, t, h)
    | inr t ↦ ground (arith, t, h)
  ]

  abbrev Kept : {A : Type 0} → A → Run W → Type 0
  Kept _ s = Made lenient s.log

  abbrev set_versioning :
      Connection
      → String
      → Option MinioBucketVersioningConfiguration
      → Option MinioBucketVersioningConfiguration
      → Io W (Unit {0})
  set_versioning mtc name o p = elim o [
    | none ↦ pure tt
    | some _ ↦ versioning_to_remote env no_versioning p >>= set_bucket_versioning env mtc name
  ]

  versioning-Made :
      (mtc : Connection) (name : String) (o p : Option MinioBucketVersioningConfiguration)
      (s : Run W)
      → Made lenient s.log
      → Ensures Kept (set_versioning mtc name o p) s
  versioning-Made mtc name none p s made = λ u e. made
  versioning-Made mtc name (some c) p s made =
      >>=-Ensures Kept Kept (versioning_to_remote env no_versioning p)
        (set_bucket_versioning env mtc name) s
        (λ config e. rw (versioning_to_remote-log env no_versioning p s) made)
        (λ config s1 made.
          let op = Op.set_bucket_versioning mtc name config in
          neither-Made env lenient op (env.act op) s1 refl made)

  abbrev set_lifecycle :
      Connection
      → String
      → Option MinioBucketLifecycleConfiguration
      → Option MinioBucketLifecycleConfiguration
      → Io W (Unit {0})
  set_lifecycle mtc name o p = elim o [
    | none ↦ pure tt
    | some _ ↦ lifecycle_to_remote env p >>= set_bucket_lifecycle env mtc name
  ]

  lifecycle-Made :
      (mtc : Connection) (name : String) (o p : Option MinioBucketLifecycleConfiguration)
      (s : Run W)
      → Made lenient s.log
      → Ensures Kept (set_lifecycle mtc name o p) s
  lifecycle-Made mtc name none p s made = λ u e. made
  lifecycle-Made mtc name (some c) p s made =
      >>=-Ensures Kept Kept (lifecycle_to_remote env p) (set_bucket_lifecycle env mtc name) s
        (λ config e. rw (lifecycle_to_remote-log env p s) made)
        (λ config s1 made.
          let op = Op.set_bucket_lifecycle mtc name config in
          neither-Made env lenient op (env.act op) s1 refl made)

  configure_bucket-Made :
      (mtc : Connection) (spec : MinioBucketSpec) (s : Run W)
      → Made lenient s.log
      → Ensures Kept (configure_bucket env r mtc spec) s
  unfolding configure_bucket
  configure_bucket-Made mtc spec s made =
      >>=-Ensures Kept Kept (set_versioning mtc spec.name spec.versioning spec.versioning)
        (λ _. set_lifecycle mtc spec.name spec.lifecycle spec.lifecycle) s
        (versioning-Made mtc spec.name spec.versioning spec.versioning s made)
        (λ _ s1 made. lifecycle-Made mtc spec.name spec.lifecycle spec.lifecycle s1 made)

  abbrev done : MinioBucket → MinioBucket
  done b = set_current_spec env (clear_migrate env b) (some (clear_migrate env b).spec)

  abbrev configure : MinioBucket → Connection → Io W ReconcileResult
  configure b mtc =
      configure_bucket env r mtc b.spec >>= λ _. update env (kind env) (done b) >>= λ _. succeed r

  create_bucket-Creates :
      (b : MinioBucket) (s : Run W) → Creates env lenient (made_view b) (create_bucket env r b) s
  unfolding create_bucket
  create_bucket-Creates b s =
      let P : ReconcileResult → Run W → Type 0 =
        λ _ s'. IsCreation env lenient (made_view b) s'.log in
      >>=-Creates env lenient (made_view b)
        (client_of env b.spec.tenant_ref b.meta.namespace r.minio_operator_namespace)
        (λ mtc. attempt (make_bucket env mtc b.spec.name) >>= λ made.
          check (test b (error_of made)) >> configure b mtc)
        s
        (λ mtc s1.
          let op = Op.make_bucket mtc b.spec.name in
          judged-Made env lenient P (test b) op (env.act op) (configure b mtc) s1 refl
            (test-lenient b)
            (λ s2 made.
              >>=-Ensures Kept P (configure_bucket env r mtc b.spec)
                (λ _. update env (kind env) (done b) >>= λ _. succeed r) s2
                (configure_bucket-Made mtc b.spec s2 made)
                (λ _ s3 made.
                  last-Creates env lenient (kind env) (kind-IsKind env) r (done b) s3 made)))

  pub reconcile_bucket-Makes :
      (req : NamespacedName) (w : W) (b : MinioBucket)
      → (env.get_bucket req w).0 ≡ ok b
      → Makes env lenient (view env b.meta b.status.current_spec) (reconcile env r req) w
  unfolding reconcile reconcile_found
  reconcile_bucket-Makes req =
      with_resource-Makes env lenient (kind env) (env.get_bucket req) (reconcile_found env r)
        (λ b s.
          dispatch-Creates env lenient (kind env) b (made_view b) s _ _ _ _ (create_bucket env r b)
            (create_bucket-Creates b s))
