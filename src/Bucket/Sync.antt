-- ===== src/Bucket/Sync.antt =====
-- The steps by which the settings of an existing bucket are brought up to date write the resource
-- as the machine of Lifecycle allows.
use minio_operator_ext.Base.{
  ◌≡◌, refl, arith, some, Option, inr, Bool, if◌then◌else◌, ◌==◌, option_eq, string_eq,
}
use minio_operator_ext.Api.{
  MinioBucket, MinioBucketSpec, Connection, BucketVersioning, versioning_eq, lifecycle_eq,
}
use minio_operator_ext.Client.{Env, Run, Io, ◌>>=◌, pure}
use minio_operator_ext.Lifecycle.{
  View, Move, IsTrail, deref-IsTrail, >>=-IsTrail, After, >>=-After, if-After, pure-After,
}
use minio_operator_ext.Reconciler.{Reconciler, succeed}
use minio_operator_ext.Resource.Laws.{Echoes, IsKind}
use minio_operator_ext.Resource.Trail.{clear_status-IsTrail}
use minio_operator_ext.Resource.Live.{IsLive, quiet-After, write-After}
use minio_operator_ext.Resource.{update}
use minio_operator_ext.Bucket.{
  kind, versioning_to_remote, lifecycle_to_remote, restore_versioning, apply_versioning,
  restore_lifecycle, apply_lifecycle, apply_deletion_policy, sync_deletion_policy, sync_lifecycle,
  sync_bucket, set_current_spec, set_bucket_versioning, set_bucket_lifecycle, look_up_bucket,
  suspended,
}

module _ {W : Type 0} (env : Env W) where
  pub kind-IsKind : IsKind env (kind env)
  kind-IsKind = record {
    writes = λ x. refl;
    meta_of_finalizers = λ x fs. refl;
    current_of_finalizers = λ x fs. refl;
    meta_of_status = λ x c. refl;
    current_of_status = λ x c. refl;
    meta_of_migrate = λ x. refl;
    current_of_migrate = λ x. refl;
  }

  pub versioning_to_remote-log :
      (base : BucketVersioning) (c : Option _) (s : Run W)
      → (versioning_to_remote env base c s).1.log ≡ s.log
  unfolding versioning_to_remote
  versioning_to_remote-log base c s = grind arith

  pub lifecycle_to_remote-log :
      (c : Option _) (s : Run W) → (lifecycle_to_remote env c s).1.log ≡ s.log
  unfolding lifecycle_to_remote
  lifecycle_to_remote-log c s = grind arith

  restore_versioning-IsLive :
      (mtc : Connection) (c : MinioBucketSpec) (v : View) (b : MinioBucket) (s : Run W)
      → IsLive env (kind env) v b s
      → IsLive env (kind env) v b (restore_versioning env mtc c s).1
  unfolding restore_versioning versioning_to_remote
  restore_versioning-IsLive mtc c v b s live = grind arith

  restore_lifecycle-IsLive :
      (mtc : Connection) (c : MinioBucketSpec) (v : View) (b : MinioBucket) (s : Run W)
      → IsLive env (kind env) v b s
      → IsLive env (kind env) v b (restore_lifecycle env mtc c s).1
  unfolding restore_lifecycle lifecycle_to_remote
  restore_lifecycle-IsLive mtc c v b s live = grind arith

  module _ (echoes : Echoes env (kind env)) where
    -- The status is set to another spec.
    record_status-After :
        (v : View) (b : MinioBucket) (c : MinioBucketSpec) (s : Run W)
        → IsLive env (kind env) v b s
        → After env v
            (λ b' s'. IsLive env (kind env) v b' s')
            (update env (kind env) (set_current_spec env b (some c)) s)
    record_status-After v b c s live =
        write-After env (kind env) kind-IsKind echoes v b (set_current_spec env b (some c)) s refl
          (Move.adopt (rw live.1.0) live.1.1 refl) live

    -- A setting that differs is sent to MinIO and noted in the status.
    apply_setting-After :
        {C : Type 0} (t : Bool) (remote : Io W C) (send : C → Io W (Unit {0})) (v : View)
        (b : MinioBucket) (c : MinioBucketSpec) (s : Run W)
        → ((s : Run W) → (remote s).1.log ≡ s.log)
        → ((config : C) (s : Run W)
            → IsLive env (kind env) v b s
            → IsLive env (kind env) v b (send config s).1)
        → IsLive env (kind env) v b s
        → After env v
            (λ b' s'. IsLive env (kind env) v b' s')
            ((if t
                then pure b
                else remote >>= λ config.
                    send config >>= λ _. update env (kind env) (set_current_spec env b (some c)))
              s)
    apply_setting-After {C = C} t remote send v b c s quiet kept live =
        let note = λ (_ : Unit {0}). update env (kind env) (set_current_spec env b (some c)) in
        let rest = λ (config : C). send config >>= note in
        if-After env v (λ b' s'. IsLive env (kind env) v b' s') t (pure b) (remote >>= rest) s
          (λ _. pure-After env v (λ b' s'. IsLive env (kind env) v b' s') b s live.0.0 live)
          (λ _.
            >>=-After env v (λ _ s'. IsLive env (kind env) v b s')
              (λ b' s'. IsLive env (kind env) v b' s') remote rest s
              (quiet-After env (kind env) v b s remote (quiet s) live)
              (λ config s1 live1.
                >>=-After env v (λ _ s'. IsLive env (kind env) v b s')
                  (λ b' s'. IsLive env (kind env) v b' s') (send config) note s1
                  (let live2 = kept config s1 live1 in (live2.0.0, λ _ _. live2))
                  (λ _ s2 live2. record_status-After v b c s2 live2)))

    apply_versioning-After :
        (mtc : Connection) (c : MinioBucketSpec) (v : View) (b : MinioBucket) (s : Run W)
        → IsLive env (kind env) v b s
        → After env v (λ b' s'. IsLive env (kind env) v b' s') (apply_versioning env mtc c b s)
    unfolding apply_versioning
    apply_versioning-After mtc c v b s =
        apply_setting-After (b.spec.versioning == c.versioning)
          (versioning_to_remote env suspended b.spec.versioning)
          (set_bucket_versioning env mtc c.name) v b (record c { versioning = b.spec.versioning }) s
          (versioning_to_remote-log suspended b.spec.versioning)
          (λ config s ((trail, now), off). (((trail, tt), now), off))

    apply_lifecycle-After :
        (mtc : Connection) (c : MinioBucketSpec) (v : View) (b : MinioBucket) (s : Run W)
        → IsLive env (kind env) v b s
        → After env v (λ b' s'. IsLive env (kind env) v b' s') (apply_lifecycle env mtc c b s)
    unfolding apply_lifecycle
    apply_lifecycle-After mtc c v b s =
        apply_setting-After (b.spec.lifecycle == c.lifecycle)
          (lifecycle_to_remote env b.spec.lifecycle) (set_bucket_lifecycle env mtc c.name) v b
          (record c { lifecycle = b.spec.lifecycle }) s (lifecycle_to_remote-log b.spec.lifecycle)
          (λ config s ((trail, now), off). (((trail, tt), now), off))

    apply_deletion_policy-After :
        (c : MinioBucketSpec) (v : View) (b : MinioBucket) (s : Run W)
        → IsLive env (kind env) v b s
        → After env v (λ b' s'. IsLive env (kind env) v b' s') (apply_deletion_policy env c b s)
    unfolding apply_deletion_policy
    apply_deletion_policy-After c v b s live =
        let noted = record c { deletion_policy = b.spec.deletion_policy } in
        if-After env v (λ b' s'. IsLive env (kind env) v b' s')
          (c.deletion_policy == b.spec.deletion_policy) (pure b)
          (update env (kind env) (set_current_spec env b (some noted))) s
          (λ _. pure-After env v (λ b' s'. IsLive env (kind env) v b' s') b s live.0.0 live)
          (λ _. record_status-After v b noted s live)

    module _ (r : Reconciler) where
      sync_deletion_policy-IsTrail :
          (v : View) (b : MinioBucket) (s : Run W)
          → IsLive env (kind env) v b s
          → IsTrail env v (sync_deletion_policy env r b s).1.log
      unfolding sync_deletion_policy
      sync_deletion_policy-IsTrail v b s live =
          deref-IsTrail env v b.status.current_spec
            (λ c. apply_deletion_policy env c b >>= λ _. succeed r) s live.0.0
            (λ c _.
              let applied = apply_deletion_policy-After c v b s live in
              >>=-IsTrail env v (apply_deletion_policy env c b) (λ _. succeed r) s applied.0
                (λ b' e. applied.0))

      sync_lifecycle-IsTrail :
          (mtc : Connection) (v : View) (b : MinioBucket) (s : Run W)
          → IsLive env (kind env) v b s
          → IsTrail env v (sync_lifecycle env r mtc b s).1.log
      unfolding sync_lifecycle
      sync_lifecycle-IsTrail mtc v b s live =
          deref-IsTrail env v b.status.current_spec
            (λ c. restore_lifecycle env mtc c >>= λ _.
              apply_lifecycle env mtc c b >>= sync_deletion_policy env r)
            s live.0.0
            (λ c _.
              let restored = restore_lifecycle-IsLive mtc c v b s live in
              let s' = (restore_lifecycle env mtc c s).1 in
              let applied = apply_lifecycle-After mtc c v b s' restored in
              >>=-IsTrail env v (restore_lifecycle env mtc c)
                (λ _. apply_lifecycle env mtc c b >>= sync_deletion_policy env r) s restored.0.0
                (λ _ _.
                  >>=-IsTrail env v (apply_lifecycle env mtc c b) (sync_deletion_policy env r) s'
                    applied.0
                    (λ b' e.
                      sync_deletion_policy-IsTrail v b' (apply_lifecycle env mtc c b s').1
                        (applied.1 b' e))))

      sync_bucket-IsTrail :
          (mtc : Connection) (c : MinioBucketSpec) (v : View) (b : MinioBucket) (s : Run W)
          → IsLive env (kind env) v b s
          → IsTrail env v (sync_bucket env r mtc c b s).1.log
      unfolding sync_bucket
      sync_bucket-IsTrail mtc c v b s live =
          let restored = restore_versioning-IsLive mtc c v b s live in
          let s' = (restore_versioning env mtc c s).1 in
          let applied = apply_versioning-After mtc c v b s' restored in
          >>=-IsTrail env v (restore_versioning env mtc c)
            (λ _. apply_versioning env mtc c b >>= sync_lifecycle env r mtc) s restored.0.0
            (λ _ _.
              >>=-IsTrail env v (apply_versioning env mtc c b) (sync_lifecycle env r mtc) s'
                applied.0
                (λ b' e.
                  sync_lifecycle-IsTrail mtc v b' (apply_versioning env mtc c b s').1
                    (applied.1 b' e)))

      pub look_up_bucket-IsTrail :
          (mtc : Connection) (c : MinioBucketSpec) (v : View) (b : MinioBucket) (s : Run W)
          → IsLive env (kind env) v b s
          → IsTrail env v (look_up_bucket env r mtc c b s).1.log
      unfolding look_up_bucket
      look_up_bucket-IsTrail mtc c v b s live =
          let s' = record s { world = (env.bucket_exists mtc c.name s.world).1 } in
          grind (
            arith,
            sync_bucket-IsTrail mtc c v b s' live,
            clear_status-IsTrail env (kind env) kind-IsKind r v b s' live.0 (inr live.1),
          )
