-- ===== src/Bucket/Follow.antt =====
-- After a setting of an existing bucket is brought up to date, the status has that of the spec.
use minio_operator_ext.Base.{
  ◌≡◌, refl, sym, ap, true, false, some, Bool, ◌∙◌, if◌then◌else◌, ◌==◌, path_of_same, option_eq,
  string_eq,
}
use minio_operator_ext.Api.{MinioBucket, MinioBucketSpec, Connection, versioning_eq, lifecycle_eq}
use minio_operator_ext.Client.{ok, Env, Run, Io, pure, ◌>>=◌, >>=-ok}
use minio_operator_ext.Resource.{update}
use minio_operator_ext.Resource.Laws.{Echoes}
use minio_operator_ext.Bucket.{
  kind, set_current_spec, suspended, set_bucket_versioning, set_bucket_lifecycle, apply_versioning,
  apply_lifecycle, apply_deletion_policy, versioning_to_remote, lifecycle_to_remote,
}

-- `b'` is `b` with the status `n`, at least in its spec and its status.
abbrev pub Follows : MinioBucket → MinioBucketSpec → MinioBucket → Type 0
Follows b n b' = (b'.status.current_spec ≡ some n) × (b'.spec ≡ b.spec)

module _ {W : Type 0} (env : Env W) (echoes : Echoes env (kind env)) where
  written-Follows :
      (b b' : MinioBucket) (n : MinioBucketSpec) (s : Run W)
      → (update env (kind env) (set_current_spec env b (some n)) s).0 ≡ ok b'
      → Follows b n b'
  written-Follows b b' n s e = (
    echoes.status (set_current_spec env b (some n)) b' s.world e,
    echoes.spec (set_current_spec env b (some n)) b' s.world e,
  )

  kept-Follows :
      (b b' : MinioBucket) (c n : MinioBucketSpec) (s : Run W)
      → b.status.current_spec ≡ some c
      → c ≡ n
      → (pure b s).0 ≡ ok b'
      → Follows b n b'
  kept-Follows b b' c n s at same e =
      let p : b ≡ b' = cc in
      (ap (λ x. x.status.current_spec) (sym p) ∙ at ∙ ap some same, ap (λ x. x.spec) (sym p))

  apply_setting-Follows :
      {C : Type 0} (t : Bool) (remote : Io W C) (send : C → Io W (Unit {0})) (b b' : MinioBucket)
      (c n : MinioBucketSpec) (s : Run W)
      → b.status.current_spec ≡ some c
      → (t ≡ true → c ≡ n)
      → ((if t
            then pure b
            else remote >>= λ config.
                send config >>= λ _. update env (kind env) (set_current_spec env b (some n)))
          s).0
        ≡ ok b'
      → Follows b n b'
  apply_setting-Follows true remote send b b' c n s at same e =
      kept-Follows b b' c n s at (same refl) e
  apply_setting-Follows {C} false remote send b b' c n s at same e =
      let write = λ (_ : Unit {0}). update env (kind env) (set_current_spec env b (some n)) in
      let rest = λ (config : C). send config >>= write in
      let (config, h) = >>=-ok remote rest s b' e in
      let (_, h2) = >>=-ok (send config) write (remote s).1 b' h in
      written-Follows b b' n (send config (remote s).1).1 h2

  -- Given an API server that stores what it accepts: where the versioning is brought up to date, the
  -- status is the one before with the versioning of the spec, and the spec is kept.
  pub apply_versioning-Follows :
      (mtc : Connection) (c : MinioBucketSpec) (b b' : MinioBucket) (s : Run W)
      → b.status.current_spec ≡ some c
      → (apply_versioning env mtc c b s).0 ≡ ok b'
      → Follows b (record c { versioning = b.spec.versioning }) b'
  unfolding apply_versioning
  apply_versioning-Follows mtc c b b' s at =
      apply_setting-Follows (b.spec.versioning == c.versioning)
        (versioning_to_remote env suspended b.spec.versioning)
        (set_bucket_versioning env mtc c.name) b b' c (record c { versioning = b.spec.versioning })
        s at
        (λ t.
          ap (λ x. record c { versioning = x })
            (sym (path_of_same b.spec.versioning c.versioning t)))

  -- Given an API server that stores what it accepts: where the lifecycle is brought up to date, the
  -- status is the one before with the lifecycle of the spec, and the spec is kept.
  pub apply_lifecycle-Follows :
      (mtc : Connection) (c : MinioBucketSpec) (b b' : MinioBucket) (s : Run W)
      → b.status.current_spec ≡ some c
      → (apply_lifecycle env mtc c b s).0 ≡ ok b'
      → Follows b (record c { lifecycle = b.spec.lifecycle }) b'
  unfolding apply_lifecycle
  apply_lifecycle-Follows mtc c b b' s at =
      apply_setting-Follows (b.spec.lifecycle == c.lifecycle)
        (lifecycle_to_remote env b.spec.lifecycle) (set_bucket_lifecycle env mtc c.name) b b' c
        (record c { lifecycle = b.spec.lifecycle }) s at
        (λ t.
          ap (λ x. record c { lifecycle = x }) (sym (path_of_same b.spec.lifecycle c.lifecycle t)))

  -- Given an API server that stores what it accepts: where the deletion policy is brought up to date,
  -- the status is the one before with the deletion policy of the spec, and the spec is kept.
  pub apply_deletion_policy-Follows :
      (c : MinioBucketSpec) (b b' : MinioBucket) (s : Run W)
      → b.status.current_spec ≡ some c
      → (apply_deletion_policy env c b s).0 ≡ ok b'
      → Follows b (record c { deletion_policy = b.spec.deletion_policy }) b'
  unfolding apply_deletion_policy
  apply_deletion_policy-Follows c b b' s at =
      noted (c.deletion_policy == b.spec.deletion_policy) (λ t.
        ap (λ x. record c { deletion_policy = x })
          (path_of_same c.deletion_policy b.spec.deletion_policy t))
    where
      noted :
          (t : Bool)
          → (t ≡ true → c ≡ record c { deletion_policy = b.spec.deletion_policy })
          → ((if t
                then pure b
                else update env (kind env) (
                    set_current_spec env b
                      (some (record c { deletion_policy = b.spec.deletion_policy }))))
              s).0
            ≡ ok b'
          → Follows b (record c { deletion_policy = b.spec.deletion_policy }) b'
      noted true same e =
          kept-Follows b b' c (record c { deletion_policy = b.spec.deletion_policy }) s at
            (same refl) e
      noted false same e =
          written-Follows b b' (record c { deletion_policy = b.spec.deletion_policy }) s e
