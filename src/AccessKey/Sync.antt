-- ===== src/AccessKey/Sync.antt =====
-- How an access key that MinIO has is brought up to date: first to the status, then to the spec.
pub mod Wanted
use minio_operator_ext.Base.{
  ◌↔◌, ◌≢◌, ◌⊎◌, inl, inr, Bool-cases, option_eq, option_beq_iff, path_of_same, ◌&&◌, String, ◌≡◌,
  refl, Bool, true, false, not, ◌||◌, Option, none, some, List, ◌∷◌, if◌then◌else◌, ◌==◌, string_eq,
  arith,
}
use minio_operator_ext.Api.{
  MinioAccessKey, MinioAccessKeySpec, MinioAccessKeyPolicy, InfoServiceAccountResp,
  UpdateServiceAccountReq, Connection, Secret, time_eq,
}
use minio_operator_ext.Client.{
  Op, Event, ok, Env, Io, Run, ◌>>=◌, pure, lift, Ensures, >>=-Ensures, pure-Ensures,
}
use minio_operator_ext.Reconciler.{Reconciler}
use minio_operator_ext.AccessKey.Credentials.{Credentials, get_credentials_from_secret}
use minio_operator_ext.AccessKey.Quiet.{remote_policy-log, marshal_spec_policy-log}
use minio_operator_ext.Policy.Hash.{access_key_policy_hash}
use minio_operator_ext.AccessKey.Actions.{
  no_policy, remote_differs, spec_differs, remote_policy, marshal_spec_policy,
  update_service_account, restore_access_key, apply_spec, sync_access_key,
}
use minio_operator_ext.AccessKey.Sync.Wanted.{
  request_of, sent, Sends, IsRestored, IsApplied, IsStatusPolicy, IsSpecPolicy, IsRemote,
  is_outdated, remote_differs-IsRestored, is_outdated-IsApplied, marshal_spec_policy-IsSpecPolicy,
  remote_policy-IsRemote,
}

module _ {W : Type 0} (env : Env W) (r : Reconciler) where
  -- What a synchronisation did, between the logs `before` and `after`.
  pub record Synced (mtac : Connection) (creds : Credentials) (secret : Secret)
      (ak : MinioAccessKey) (current : MinioAccessKeySpec) (msa : InfoServiceAccountResp)
      (before after : List Event) : Type 0 where
    pub remote : MinioAccessKeyPolicy
    pub is_remote : IsRemote env msa remote
    pub between : List Event
    pub restored :
        Sends mtac creds current
          (IsStatusPolicy env current)
          (IsRestored env msa remote current)
          before
          between
    pub applied :
        Sends mtac creds ak.spec
          (IsSpecPolicy env ak.spec)
          (IsApplied env secret ak current)
          between
          after

  perform-sent :
      (mtac : Connection) (creds : Credentials) (spec : MinioAccessKeySpec)
      (IsPolicy : Option String → Type 0) (IsAsWanted : Type 0) (policy : Option String)
      (before : List Event) (s : Run W)
      → ¬ IsAsWanted
      → IsPolicy policy
      → s.log ≡ before
      → Ensures
          (λ _ s'. Sends mtac creds spec IsPolicy IsAsWanted before s'.log)
          (update_service_account env mtac creds.access_key (request_of spec creds policy))
          s
  perform-sent mtac creds spec IsPolicy IsAsWanted policy before s on is_policy start u e =
      Sends.changed on policy is_policy (ground (arith, e, start))

  -- The two steps have this form.
  step-Sends :
      {A : Type 0} (mtac : Connection) (creds : Credentials) (spec : MinioAccessKeySpec)
      (IsPolicy : Option String → Type 0) (IsAsWanted : Type 0) (differs : Bool) (read : Io W A)
      (text : A → Option String) (before : List Event) (s : Run W)
      → (differs ≡ false) ↔ IsAsWanted
      → s.log ≡ before
      → (read s).1.log ≡ before
      → ((a : A) → (read s).0 ≡ ok a → IsPolicy (text a))
      → Ensures
          (λ _ s'. Sends mtac creds spec IsPolicy IsAsWanted before s'.log)
          (if differs
            then (read >>= λ a.
                update_service_account env mtac creds.access_key (request_of spec creds (text a)))
            else pure tt)
          s
  step-Sends mtac creds spec IsPolicy IsAsWanted true read text before s tests start quiet
        is_policy =
      let differ : ¬ IsAsWanted = λ wanted. let f = tests.1 wanted in absurd (cc) in
      let P : Unit {0} → Run W → Type 0 =
        λ _ s'. Sends mtac creds spec IsPolicy IsAsWanted before s'.log in
      >>=-Ensures (λ a s'. (IsPolicy (text a)) × (s'.log ≡ before)) P read _ s
        (λ a e. (is_policy a e, quiet))
        (λ a s1 (p, kept).
          perform-sent mtac creds spec IsPolicy IsAsWanted (text a) before s1 differ p kept)
  step-Sends mtac creds spec IsPolicy IsAsWanted false read text before s tests start quiet
        is_policy =
      pure-Ensures (λ _ s'. Sends mtac creds spec IsPolicy IsAsWanted before s'.log) tt s
        (Sends.same (tests.0 refl) start)

  restore_access_key-Sends :
      (mtac : Connection) (creds : Credentials) (current : MinioAccessKeySpec)
      (msa : InfoServiceAccountResp) (s : Run W)
      → Ensures
          (λ _ s'.
            (remote : MinioAccessKeyPolicy) × (IsRemote env msa remote)
            × (Sends mtac creds current
                (IsStatusPolicy env current)
                (IsRestored env msa remote current)
                s.log
                s'.log))
          (restore_access_key env r mtac creds msa current)
          s
  unfolding restore_access_key
  restore_access_key-Sends mtac creds current msa s =
      let P = λ (_ : Unit {0}) (s' : Run W).
        (remote : MinioAccessKeyPolicy) × (IsRemote env msa remote)
        × (Sends mtac creds current (IsStatusPolicy env current) (IsRestored env msa remote current)
            s.log s'.log) in
      let marshal : Io W String =
        lift (env.marshal_policy current.policy.statement current.policy.version) in
      >>=-Ensures (λ remote s'. (IsRemote env msa remote) × (s'.log ≡ s.log)) P
        (remote_policy env msa) _ s
        (λ remote e. (remote_policy-IsRemote env msa s remote e, remote_policy-log env msa s))
        (λ remote s1 (read, kept) u e. (
          remote,
          read,
          step-Sends mtac creds current (IsStatusPolicy env current)
              (IsRestored env msa remote current) (remote_differs env msa remote current) marshal
              some s.log s1 (remote_differs-IsRestored env msa remote current) kept kept
              (λ text h. (text, h, refl)) u e,
        ))

  apply_spec-Sends :
      (mtac : Connection) (creds : Credentials) (secret : Secret) (ak : MinioAccessKey)
      (current : MinioAccessKeySpec) (s : Run W)
      → Ensures
          (λ _ s'.
            Sends mtac creds ak.spec
              (IsSpecPolicy env ak.spec)
              (IsApplied env secret ak current)
              s.log
              s'.log)
          (apply_spec env r mtac creds secret ak current)
          s
  unfolding apply_spec
  apply_spec-Sends mtac creds secret ak current s =
      step-Sends mtac creds ak.spec (IsSpecPolicy env ak.spec) (IsApplied env secret ak current)
        (is_outdated env secret ak current) (marshal_spec_policy env ak.spec.policy)
        (λ policy. policy) s.log s (is_outdated-IsApplied env secret ak current) refl
        (marshal_spec_policy-log env ak.spec.policy s)
        (λ policy e. marshal_spec_policy-IsSpecPolicy env ak.spec s policy e)

  -- A synchronisation of an access key that succeeds first sent the status to MinIO, exactly
  -- where the description, the expiration, the name or the digest of the policy of MinIO's
  -- access key is not that of the status; and then the spec, exactly where one of these four or
  -- the version of the secret is not that of the status. MinIO's policy is the empty one where
  -- it is implied or has no text. Both are sent with the access key and the secret key of the
  -- secret; the spec's policy is left out where it has the digest of the empty one. Each call
  -- was accepted, and no other was made that changes something.
  pub sync_access_key-Synced :
      (mtac : Connection) (secret : Secret) (ak ak' : MinioAccessKey) (current : MinioAccessKeySpec)
      (msa : InfoServiceAccountResp) (s : Run W)
      → (sync_access_key env r mtac secret ak current msa s).0 ≡ ok ak'
      → Synced mtac
          (get_credentials_from_secret secret)
          secret
          ak
          current
          msa
          s.log
          (sync_access_key env r mtac secret ak current msa s).1.log
  unfolding sync_access_key
  sync_access_key-Synced mtac secret ak ak' current msa s =
      let creds = get_credentials_from_secret secret in
      let P =
        λ (_ : MinioAccessKey) (s' : Run W). Synced mtac creds secret ak current msa s.log s'.log in
      >>=-Ensures
        (λ _ s'.
          (remote : MinioAccessKeyPolicy) × (IsRemote env msa remote)
          × (Sends mtac creds current (IsStatusPolicy env current)
              (IsRestored env msa remote current) s.log s'.log))
        P (restore_access_key env r mtac creds msa current) _ s
        (restore_access_key-Sends mtac creds current msa s)
        (λ _ s1 (remote, is_remote, restored).
          >>=-Ensures
            (λ _ s'.
              Sends mtac creds ak.spec (IsSpecPolicy env ak.spec) (IsApplied env secret ak current)
                s1.log s'.log)
            P (apply_spec env r mtac creds secret ak current) _ s1
            (apply_spec-Sends mtac creds secret ak current s1)
            (λ _ s2 applied. pure-Ensures P ak s2 (record {
              remote = remote;
              is_remote = is_remote;
              between = s1.log;
              restored = restored;
              applied = applied;
            })))
        ak'
