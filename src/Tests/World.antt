-- ===== src/Tests/World.antt =====
-- A world of fixed answers: every call succeeds, and what is written is answered as it was sent.
pub mod Fixtures
pub use Fixtures.*
use mathlib.Core.List.{◌++◌ as append}
use minio_operator_ext.Base.{
  String, true, false, none, some, List, [], ◌∷◌, ◌≡◌, refl, ap, if◌then◌else◌, contains, ◌==◌,
  string_eq, Bool-cases, inl, inr,
}
use minio_operator_ext.Api.{
  ResourceRef, ResourceKeyRef, ObjectMeta, NamespacedName, MinioGroup, MinioGroupSpec,
  MinioGroupBinding, MinioGroupBindingSpec, MinioUser, MinioUserSpec, MinioPolicy, MinioPolicySpec,
  MinioPolicyStatement, MinioPolicyBinding, MinioPolicyBindingSpec, MinioAccessKey,
  MinioAccessKeySpec, MinioBucket, MinioBucketSpec, Secret, Tenant,
  MinioBucketVersioningConfiguration, BucketVersioning,
}
use minio_operator_ext.Client.{Error, ok, err, Codec, Env, Run, Call}
use minio_operator_ext.Reconciler.{finalizer, Reconciler}
use minio_operator_ext.Resource.{Kind}
use minio_operator_ext.Resource.Laws.{Finalizers, Echoes}

abbrev pub Quiet : Type 0
Quiet = Unit {0}

abbrev pub spec_versioning_zero : MinioBucketVersioningConfiguration
spec_versioning_zero = record {
  status = "";
  mfa_delete = "";
  excluded_prefixes = [];
  exclude_folders = false;
}

abbrev pub remote_versioning_zero : BucketVersioning
remote_versioning_zero = record {
  status = "";
  mfa_delete = "";
  excluded_prefixes = [];
  exclude_folders = false;
}

abbrev pub constant_codec : {A : Type 0} → A → Codec A
constant_codec a = record {
  xml_marshal = λ _. ok "";
  xml_unmarshal = λ _. ok a;
  json_marshal = λ _. ok "";
  json_unmarshal = λ _ _. ok a;
  zero_value = a;
}

-- A finalizer is put behind the others, and taken out wherever it stands.
abbrev pub without : List String → String → List String
without [] f = []
without (x ∷ xs) f = let rest = without xs f in if f == x then rest else x ∷ rest

abbrev pub answers : {W A : Type 0} → A → Call W A
answers a w = (ok a, w)

-- Over any state, which no call changes.
abbrev pub env_of : (W : Type 0) → Env W
env_of W = record {
  get_group = λ _. answers group;
  get_group_binding = λ _. answers group_binding;
  get_user = λ _. answers user;
  get_policy = λ _. answers policy;
  get_policy_binding = λ _. answers policy_binding;
  get_access_key = λ _. answers access_key;
  get_bucket = λ _. answers bucket;
  get_secret = λ _. answers secret;
  get_config_map = λ _. answers (record { contents = ("ca.crt", "pod") ∷ [] });
  get_service = λ _.
      answers
        (record { meta = live_meta; ports = record { name = "https-minio"; port = 443 } ∷ [] });
  get_tenant = λ _. answers tenant;
  list_secrets = λ _. answers [];
  update_group = answers;
  update_group_binding = answers;
  update_user = answers;
  update_policy = answers;
  update_policy_binding = answers;
  update_bucket = answers;
  update_access_key = answers;
  create_secret = answers;
  update_secret = answers;
  delete_secret = λ _. answers tt;
  ignore_not_found = λ _. none;
  is_not_found = λ _. true;
  is_zero = λ t. elim t [ none ↦ true | some _ ↦ false ];
  contains_finalizer = λ fs f. contains fs f;
  add_finalizer = λ fs f. append fs (f ∷ []);
  remove_finalizer = without;
  set_owner_reference = λ _ s. ok (record s { owned = true });
  parse_env = λ _. ok (("MINIO_ROOT_USER", "root") ∷ ("MINIO_ROOT_PASSWORD", "pw") ∷ []);
  system_cert_pool = answers (record { from_system = true; pems = [] });
  rand_read = λ n. answers (0 ∷ []);
  error_text = λ _. "";
  new_admin_client = λ c w. ((some c, none), w);
  set_custom_transport = λ c pool. elim c [
    | none ↦ err Error.nil_dereference
    | some c ↦ ok (some (record c { root_cas = some pool }))
  ];
  marshal_policy = λ _ _. ok "{}";
  unmarshal_policy_spec = λ _. ok policy_spec;
  unmarshal_access_key_policy = λ _. ok (record { statement = []; version = "" });
  sha512_256 = λ text. text;
  sha256_hex = λ bytes. "";
  get_group_description = λ _ _. answers (record { members = "u" ∷ [] });
  get_user_info = λ _ _. answers tt;
  info_canned_policy = λ _ _. answers "{}";
  get_policy_entities = λ _ _. answers [];
  get_ldap_policy_entities = λ _ _. answers [];
  get_idp_config = λ _ _ _. answers [];
  info_service_account = λ _ _. answers (record {
    description = "";
    expiration = none;
    implied_policy = true;
    name = "k";
    policy = "";
  });
  new_client = answers;
  bucket_exists = λ _ _. answers true;
  get_bucket_versioning = λ _ _. answers remote_versioning_zero;
  get_bucket_lifecycle = λ _ _. answers none;
  new_lifecycle = record { text = "" };
  zero_lifecycle = record { text = "" };
  spec_versioning = constant_codec spec_versioning_zero;
  spec_lifecycle = constant_codec (record { rules = [] });
  remote_versioning = constant_codec remote_versioning_zero;
  remote_lifecycle = constant_codec (record { text = "" });
  act = λ _. answers tt;
}

abbrev pub env : Env Quiet
env = env_of Quiet

abbrev pub reconciler : Reconciler
reconciler = record { minio_operator_namespace = "operator"; sync_interval = 60 }

abbrev pub request : NamespacedName
request = record { namespace = "minio"; name = "r" }

-- Before the first call.
abbrev pub start : Run Quiet
start = record { world = tt; log = [] }

appended : (fs : List String) → contains (append fs (finalizer ∷ [])) finalizer ≡ true
appended [] = refl
appended (x ∷ fs) = elim (Bool-cases (finalizer == x)) [
  | inl e ↦ rw e refl
  | inr e ↦ rw e (appended fs)
]

taken_out : (fs : List String) → contains (without fs finalizer) finalizer ≡ false
taken_out [] = refl
taken_out (x ∷ fs) = elim (Bool-cases (finalizer == x)) [
  | inl e ↦ rw e (taken_out fs)
  | inr e ↦ rw (e, e) (taken_out fs)
]

pub env_of-Finalizers : (W : Type 0) → Finalizers (env_of W)
env_of-Finalizers W = record { added = appended; removed = taken_out }

pub env-Finalizers : Finalizers env
env-Finalizers = env_of-Finalizers Quiet

-- A server that answers with what it was sent.
pub stored-Echoes :
    {W R S : Type 0} (env : Env W) (k : Kind W R S)
    → ((x : R) (w : W) → (k.call x w).0 ≡ ok x)
    → Echoes env k
stored-Echoes {W} {R} env k h =
    let same : (x x' : R) (w : W) → (k.call x w).0 ≡ ok x' → x' ≡ x =
      λ x x' w e. let sent = h x w in cc in
    record {
      meta = λ x x' w e.
          let p = same x x' w e in
          record {
            name = λ i. (k.meta (p i)).name;
            namespace = λ i. (k.meta (p i)).namespace;
            deletion_timestamp = λ i. (k.meta (p i)).deletion_timestamp;
            finalizers = λ i. (k.meta (p i)).finalizers;
          };
      spec = λ x x' w e. ap k.spec (same x x' w e);
      status = λ x x' w e. ap k.current_spec (same x x' w e);
    }
