-- ===== src/AccessKey/Quiet.antt =====
-- The calls of the access key reconciler that leave the resource alone: its view stays the same.
use minio_operator_ext.Base.{
  ◌&&◌, ℕ, ◌≡◌, true, false, refl, arith, String, Bool, some, none, Option, ◌==◌, string_eq,
  if◌then◌else◌,
}
use minio_operator_ext.Api.{
  MinioAccessKey, MinioAccessKeySpec, MinioAccessKeyPolicy, Secret, Connection, ObjectMeta,
  ResourceKeyRef, is_set_ref, InfoServiceAccountResp,
}
use minio_operator_ext.Client.{Error, Env, Run, Io, pure, check}
use minio_operator_ext.Lifecycle.{View}
use minio_operator_ext.Reconciler.{Reconciler}
use minio_operator_ext.Resource.Laws.{IsKind}
use minio_operator_ext.Resource.Live.{IsLive}
use minio_operator_ext.AccessKey.Random.{create_random_string, random_digits}
use minio_operator_ext.AccessKey.Credentials.{
  Credentials, read_ref, or_random, named_access_key, named_secret_key, desired_access_key,
  desired_secret_key, get_desired_credentials,
}
use minio_operator_ext.AccessKey.Actions.{
  find_secret, marshal_spec_policy, create_credentials_secret, delete_old_secret,
  delete_current_secret, refresh_secret, remote_policy, restore_access_key, apply_spec, kind,
}

module _ {W : Type 0} (env : Env W) where
  pub kind-IsKind : IsKind env (kind env)
  kind-IsKind = record {
    writes = λ x. refl;
    meta_of_finalizers = λ x fs. refl;
    current_of_finalizers = λ x fs. refl;
    meta_of_status = λ x c. refl;
    current_of_status = λ x c. refl;
    meta_of_migrate = λ x. refl;
    current_of_migrate = λ x. refl;
  }

  pub if-log :
      {A : Type 0} (t : Bool) (m n : Io W A) (s : Run W)
      → (m s).1.log ≡ s.log
      → (n s).1.log ≡ s.log
      → ((if t then m else n) s).1.log ≡ s.log
  if-log true m n s quiet _ = quiet
  if-log false m n s _ quiet = quiet

  pub check-log : (e : Option Error) (s : Run W) → (check e s).1.log ≡ s.log
  check-log none s = refl
  check-log (some e) s = refl

  pub or_random-log :
      (n : ℕ) (migrate : Bool) (key : String) (s : Run W)
      → (or_random env n migrate key s).1.log ≡ s.log
  unfolding or_random create_random_string random_digits
  or_random-log n migrate key s = grind arith

  pub read_ref-log :
      (ref : ResourceKeyRef) (ns what : String) (s : Run W)
      → (read_ref env ref ns what s).1.log ≡ s.log
  unfolding read_ref
  read_ref-log ref ns what s = grind arith

  pub named_access_key-log :
      (ak : MinioAccessKey) (s : Run W) → (named_access_key env ak s).1.log ≡ s.log
  unfolding named_access_key
  named_access_key-log ak s =
      if-log (ak.spec.access_key == "" && is_set_ref ak.spec.access_key_ref)
        (read_ref env ak.spec.access_key_ref ak.meta.namespace "access key")
        (pure ak.spec.access_key) s
        (read_ref-log ak.spec.access_key_ref ak.meta.namespace "access key" s) refl

  pub desired_access_key-log :
      (ak : MinioAccessKey) (c : Option Credentials) (s : Run W)
      → (desired_access_key env ak c s).1.log ≡ s.log
  unfolding desired_access_key
  desired_access_key-log ak c s = grind (arith, or_random-log, named_access_key-log)

  pub named_secret_key-log :
      (ak : MinioAccessKey) (s : Run W) → (named_secret_key env ak s).1.log ≡ s.log
  unfolding named_secret_key
  named_secret_key-log ak s =
      if-log (is_set_ref ak.spec.secret_key_ref)
        (read_ref env ak.spec.secret_key_ref ak.meta.namespace "secret key") (pure "") s
        (read_ref-log ak.spec.secret_key_ref ak.meta.namespace "secret key" s) refl

  pub desired_secret_key-log :
      (ak : MinioAccessKey) (c : Option Credentials) (s : Run W)
      → (desired_secret_key env ak c s).1.log ≡ s.log
  unfolding desired_secret_key
  desired_secret_key-log ak c s = grind (arith, or_random-log, named_secret_key-log)

  -- Nothing is written while the credentials are found.
  pub get_desired_credentials-log :
      (ak : MinioAccessKey) (c : Option Credentials) (s : Run W)
      → (get_desired_credentials env ak c s).1.log ≡ s.log
  unfolding get_desired_credentials
  get_desired_credentials-log ak c s = grind (arith, desired_access_key-log, desired_secret_key-log)

  pub marshal_spec_policy-log :
      (policy : MinioAccessKeyPolicy) (s : Run W) → (marshal_spec_policy env policy s).1.log ≡ s.log
  unfolding marshal_spec_policy
  marshal_spec_policy-log policy s = grind arith

  pub find_secret-log :
      (meta : ObjectMeta) (name : String) (s : Run W) → (find_secret env meta name s).1.log ≡ s.log
  unfolding find_secret
  find_secret-log meta name s = grind arith

  pub remote_policy-log :
      (msa : InfoServiceAccountResp) (s : Run W) → (remote_policy env msa s).1.log ≡ s.log
  unfolding remote_policy
  remote_policy-log msa s = grind arith

  module _ (v : View) (ak : MinioAccessKey) (s : Run W) (live : IsLive env (kind env) v ak s) where
    pub create_credentials_secret-IsLive :
        (ak' : MinioAccessKey) → IsLive env (kind env) v ak (create_credentials_secret env ak' s).1
    unfolding create_credentials_secret
    create_credentials_secret-IsLive ak' = grind (arith, get_desired_credentials-log)

    pub refresh_secret-IsLive :
        (secret : Secret) → IsLive env (kind env) v ak (refresh_secret env ak secret s).1
    unfolding refresh_secret
    refresh_secret-IsLive secret = grind (arith, get_desired_credentials-log)

    pub delete_old_secret-IsLive :
        (found : Option Secret) → IsLive env (kind env) v ak (delete_old_secret env found s).1
    unfolding delete_old_secret
    delete_old_secret-IsLive found = grind arith

    pub delete_current_secret-IsLive :
        (r : Reconciler) (c : MinioAccessKeySpec)
        → IsLive env (kind env) v ak (delete_current_secret env r ak c s).1
    unfolding delete_current_secret
    delete_current_secret-IsLive r c = grind (arith, find_secret-log)

    pub restore_access_key-IsLive :
        (r : Reconciler) (mtac : Connection) (creds : Credentials) (msa : InfoServiceAccountResp)
        (c : MinioAccessKeySpec)
        → IsLive env (kind env) v ak (restore_access_key env r mtac creds msa c s).1
    unfolding restore_access_key
    restore_access_key-IsLive r mtac creds msa c = grind (arith, remote_policy-log)

    pub apply_spec-IsLive :
        (r : Reconciler) (mtac : Connection) (creds : Credentials) (secret : Secret)
        (c : MinioAccessKeySpec)
        → IsLive env (kind env) v ak (apply_spec env r mtac creds secret ak c s).1
    unfolding apply_spec
    apply_spec-IsLive r mtac creds secret c = grind (arith, marshal_spec_policy-log)
