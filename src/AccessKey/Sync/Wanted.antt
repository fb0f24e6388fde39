-- ===== src/AccessKey/Sync/Wanted.antt =====
-- When an access key in MinIO is as the status says, and the status as the spec does, and what is
-- sent otherwise.
use minio_operator_ext.Base.{
  ◌↔◌, ◌≢◌, ◌⊎◌, inl, inr, Bool-cases, option_eq, option_beq_iff, path_of_same, ◌&&◌, String, ◌≡◌,
  refl, Bool, true, false, not, ◌||◌, Option, none, some, List, ◌∷◌, if◌then◌else◌, ◌==◌, string_eq,
  arith,
}
use minio_operator_ext.Api.{
  MinioAccessKey, MinioAccessKeySpec, MinioAccessKeyPolicy, InfoServiceAccountResp,
  UpdateServiceAccountReq, Connection, Secret, time_eq,
}
use minio_operator_ext.Client.{
  Op, Event, ok, Env, Run, pure, lift, Ensures, >>=-Ensures, pure-Ensures,
}
use minio_operator_ext.AccessKey.Credentials.{Credentials}
use minio_operator_ext.Policy.Hash.{access_key_policy_hash}
use minio_operator_ext.AccessKey.Actions.{
  no_policy, remote_differs, spec_differs, remote_policy, marshal_spec_policy,
}

-- What MinIO is asked for so that an access key is as a spec says.
abbrev pub request_of : MinioAccessKeySpec → Credentials → Option String → UpdateServiceAccountReq
request_of spec creds policy = record {
  new_description = spec.description;
  new_expiration = spec.expiration;
  new_name = spec.name;
  new_policy = policy;
  new_secret_key = creds.secret_key;
}

-- The call, accepted.
abbrev pub sent : Connection → Credentials → UpdateServiceAccountReq → Event
sent mtac creds req = record {
  op = Op.update_service_account mtac creds.access_key req;
  failure = none;
}

-- From one log to another: nothing where things are as they should be, and otherwise a call.
pub data Sends (mtac : Connection) (creds : Credentials) (spec : MinioAccessKeySpec)
    (IsPolicy : Option String → Type 0) (IsAsWanted : Type 0) (before after : List Event)
    : Type 0 where
  same : IsAsWanted → after ≡ before → Sends mtac creds spec IsPolicy IsAsWanted before after
  changed :
      ¬ IsAsWanted
      → (policy : Option String) → IsPolicy policy
      → after ≡ sent mtac creds (request_of spec creds policy) ∷ before
      → Sends mtac creds spec IsPolicy IsAsWanted before after

module _ {W : Type 0} (env : Env W) where
  -- MinIO has what the status says.
  abbrev pub IsRestored :
      InfoServiceAccountResp → MinioAccessKeyPolicy → MinioAccessKeySpec → Type 0
  IsRestored msa remote current =
      (msa.description ≡ current.description)
      × (msa.expiration ≡ current.expiration)
      × (msa.name ≡ current.name)
      × (access_key_policy_hash env remote ≡ access_key_policy_hash env current.policy)

  -- The status says what the spec does, for this version of the secret.
  abbrev pub IsApplied : Secret → MinioAccessKey → MinioAccessKeySpec → Type 0
  IsApplied secret ak current =
      (current.description ≡ ak.spec.description)
      × (current.expiration ≡ ak.spec.expiration)
      × (current.name ≡ ak.spec.name)
      × (access_key_policy_hash env current.policy ≡ access_key_policy_hash env ak.spec.policy)
      × (secret.meta.resource_version ≡ ak.status.current_secret_resource_version)

  -- The tests of the code.
  abbrev pub is_outdated : Secret → MinioAccessKey → MinioAccessKeySpec → Bool
  is_outdated secret ak current =
      spec_differs env current ak.spec
      || not (secret.meta.resource_version == ak.status.current_secret_resource_version)

  pub remote_differs-IsRestored :
      (msa : InfoServiceAccountResp) (remote : MinioAccessKeyPolicy) (current : MinioAccessKeySpec)
      → (remote_differs env msa remote current ≡ false) ↔ IsRestored msa remote current
  remote_differs-IsRestored msa remote current = ground (
    arith,
    string_eq.same_iff msa.description current.description,
    option_beq_iff msa.expiration current.expiration,
    string_eq.same_iff msa.name current.name,
    string_eq.same_iff (access_key_policy_hash env remote)
        (access_key_policy_hash env current.policy),
  )

  pub is_outdated-IsApplied :
      (secret : Secret) (ak : MinioAccessKey) (current : MinioAccessKeySpec)
      → (is_outdated secret ak current ≡ false) ↔ IsApplied secret ak current
  is_outdated-IsApplied secret ak current = ground (
    arith,
    string_eq.same_iff current.description ak.spec.description,
    option_beq_iff current.expiration ak.spec.expiration,
    string_eq.same_iff current.name ak.spec.name,
    string_eq.same_iff (access_key_policy_hash env current.policy)
        (access_key_policy_hash env ak.spec.policy),
    string_eq.same_iff secret.meta.resource_version ak.status.current_secret_resource_version,
  )

  -- The text of the status's policy.
  abbrev pub IsStatusPolicy : MinioAccessKeySpec → Option String → Type 0
  IsStatusPolicy current policy =
      (text : String) × (env.marshal_policy current.policy.statement current.policy.version
        ≡ ok text)
      × (policy ≡ some text)

  -- The text of the spec's policy, or none for a spec with the digest of an empty policy.
  pub data IsSpecPolicy (spec : MinioAccessKeySpec) (policy : Option String) : Type 0 where
    unset :
        access_key_policy_hash env spec.policy ≡ access_key_policy_hash env no_policy
        → policy ≡ none
        → IsSpecPolicy spec policy
    set :
        access_key_policy_hash env spec.policy ≢ access_key_policy_hash env no_policy
        → (text : String) → env.marshal_policy spec.policy.statement spec.policy.version ≡ ok text
        → policy ≡ some text
        → IsSpecPolicy spec policy

  pub marshal_spec_policy-IsSpecPolicy :
      (spec : MinioAccessKeySpec) (s : Run W) (policy : Option String)
      → (marshal_spec_policy env spec.policy s).0 ≡ ok policy
      → IsSpecPolicy spec policy
  unfolding marshal_spec_policy
  marshal_spec_policy-IsSpecPolicy spec s =
      let same =
        string_eq.same_iff (access_key_policy_hash env spec.policy)
          (access_key_policy_hash env no_policy) in
      let P = λ (policy : Option String) (_ : Run W). IsSpecPolicy spec policy in
      elim (Bool-cases
        (access_key_policy_hash env spec.policy == access_key_policy_hash env no_policy)) [
          | inl e ↦ rw e (pure-Ensures P none s (IsSpecPolicy.unset (same.0 e) refl))
          | inr e ↦ rw e (
              >>=-Ensures
                (λ text _. env.marshal_policy spec.policy.statement spec.policy.version ≡ ok text) P
                (lift (env.marshal_policy spec.policy.statement spec.policy.version)) _ s (λ _ h. h)
                (λ text s1 read.
                  pure-Ensures P (some text) s1
                    (IsSpecPolicy.set (ground (arith, e, same)) text read refl)))
        ]

  -- The policy of the access key in MinIO: its own one, or the empty one where it has none.
  pub data IsRemote (msa : InfoServiceAccountResp) (remote : MinioAccessKeyPolicy) : Type 0 where
    implied :
        ((msa.implied_policy ≡ true) ⊎ (msa.policy ≡ "")) → remote ≡ no_policy → IsRemote msa remote
    own :
        msa.implied_policy ≡ false
        → msa.policy ≢ ""
        → env.unmarshal_access_key_policy msa.policy ≡ ok remote
        → IsRemote msa remote

  pub remote_policy-IsRemote :
      (msa : InfoServiceAccountResp) (s : Run W) (remote : MinioAccessKeyPolicy)
      → (remote_policy env msa s).0 ≡ ok remote
      → IsRemote msa remote
  unfolding remote_policy
  remote_policy-IsRemote msa s = go msa.implied_policy (msa.policy == "") refl refl
    where
      P : MinioAccessKeyPolicy → Run W → Type 0
      P remote _ = IsRemote msa remote

      go :
          (i e : Bool)
          → msa.implied_policy ≡ i
          → (msa.policy == "") ≡ e
          → Ensures P
              (if not i && not e
                then lift (env.unmarshal_access_key_policy msa.policy)
                else pure no_policy)
              s
      go true e is_implied is_empty =
          pure-Ensures P no_policy s (IsRemote.implied (inl is_implied) refl)
      go false true is_implied is_empty =
          pure-Ensures P no_policy s
            (IsRemote.implied (inr (path_of_same msa.policy "" is_empty)) refl)
      go false false is_implied is_empty = λ remote h.
          IsRemote.own is_implied (ground (arith, is_empty, string_eq.same_iff msa.policy "")) h
