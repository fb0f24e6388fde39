-- ===== src/Operator/Startup.antt =====
-- `NewOperator`, `Health` and `Run` of internal/operator/operator.go, `addKnownTypes` of pkg/api/bfiola.dev/v1/common.go, and internal/operator/main.go.
use minio_operator_ext.Base.{
  ℕ, String, true, Option, none, some, List, [], ◌∷◌, if◌then◌else◌, ◌==◌, string_eq, ℕ_eq, ◌*◌,
}
use minio_operator_ext.Client.{
  Error, message, Result, ok, err, Io, ◌>>=◌, ◌>>◌, pure, throw, lift, query, attempt,
}
use minio_operator_ext.Reconciler.{Reconciler}
use minio_operator_ext.Operator.Controllers.{Controller}
use minio_operator_ext.Operator.Register.{register}
use minio_operator_ext.Operator.Host.{GroupVersion, Step, Host, Boot, ask, tell}

-- `60 * time.Second`, in nanoseconds
abbrev pub second : ℕ
second = 1000000000

abbrev pub default_sync_interval : ℕ
default_sync_interval = 60 * second

-- `ptr`
abbrev pub ptr : {A : Type 0} → A → Option A
ptr v = some v

-- `SchemeGroupVersion`
abbrev pub scheme_group_version : GroupVersion
scheme_group_version = record { group = "bfiola.dev"; version = "v1" }

-- The types that `addKnownTypes` names.
abbrev pub known_types : List String
known_types =
    "MinioBucket" ∷ "MinioBucketList" ∷ "MinioGroup" ∷ "MinioGroupList" ∷ "MinioGroupBinding"
    ∷ "MinioGroupBindingList" ∷ "MinioPolicy" ∷ "MinioPolicyList" ∷ "MinioPolicyBinding"
    ∷ "MinioPolicyBindingList" ∷ "MinioUser" ∷ "MinioUserList" ∷ "MinioAccessKey"
    ∷ "MinioAccessKeyList" ∷ []

-- `OperatorOpts`, without the logger
pub record OperatorOpts : Type 0 where
  pub kube_config : String
  pub minio_operator_namespace : String
  pub sync_interval : ℕ

-- `operator`, without the logger
pub record Operator (Manager : Type 0) : Type 0 where
  pub manager : Manager

-- The controllers in the order in which they are registered.
abbrev pub controllers : List Controller
controllers =
    Controller.bucket ∷ Controller.group ∷ Controller.group_binding ∷ Controller.policy
    ∷ Controller.policy_binding ∷ Controller.user ∷ Controller.access_key ∷ []

abbrev pub namespace_file : String
namespace_file = "/var/run/secrets/kubernetes.io/serviceaccount/namespace"

-- The part of the interval: 0 stands for the default.
unfoldable pub interval_of : ℕ → ℕ
interval_of si = if si == 0 then default_sync_interval else si

module _ {W Config Scheme Manager : Type 0} (host : Host W Config Scheme Manager) where
  -- `addKnownTypes`
  unfoldable pub add_known_types : Scheme → Result Scheme
  add_known_types scheme = ok (
      host.add_to_group_version (host.add_known_types scheme scheme_group_version known_types)
        scheme_group_version)

  -- `SchemeBuilder.AddToScheme`
  unfoldable pub add_to_scheme : Scheme → Result Scheme
  add_to_scheme = host.run_scheme_builder (add_known_types ∷ [])

  -- What the service account's file holds.
  unfoldable pub file_namespace : Io (Boot W) String
  file_namespace = do
    d ← attempt (query (ask (host.read_file namespace_file)))
    pure (elim d [ ok text ↦ text | err _ ↦ "" ])

  -- The option, or else the service account's; it is an error if that is empty too.
  unfoldable pub namespace_of : String → Io (Boot W) String
  namespace_of given = do
    mon ← if given == "" then file_namespace else pure given
    if mon == "" then throw (message "minio operator namespace is not defined") else pure mon

  -- The scheme with the three groups of types.
  unfoldable pub build_scheme : Result Scheme
  build_scheme = elim (add_to_scheme host.new_scheme) [
    | err e ↦ err e
    | ok s ↦ elim (host.add_minio_v2 s) [ err e ↦ err e | ok s' ↦ host.add_kubernetes s' ]
  ]

  unfoldable pub build_manager : Config → Scheme → Io (Boot W) Manager
  build_manager c s = do
    m ← query (
        tell Step.new_manager (
          host.new_manager c (record {
            cache_disable_for = "ConfigMap" ∷ "Secret" ∷ "Service" ∷ "Tenant" ∷ [];
            skip_name_validation = ptr true;
            health_probe_bind_address = ":8888";
            scheme = s;
          })))
    query (tell (Step.add_healthz_check "healthz") (host.add_healthz_check m "healthz"))
    query (tell (Step.add_readyz_check "readyz") (host.add_readyz_check m "readyz"))
    pure m

  -- `for _, r := range rs { … }`
  unfoldable pub register_all : Manager → Reconciler → List Controller → Io (Boot W) (Unit {0})
  register_all m r [] = pure tt
  register_all m r (c ∷ cs) = register host m r c >> register_all m r cs

  -- `NewOperator`
  unfoldable pub new_operator : OperatorOpts → Io (Boot W) (Operator Manager)
  new_operator o = do
    c ← query (ask (host.build_config_from_flags "" o.kube_config))
    mon ← namespace_of o.minio_operator_namespace
    s ← lift build_scheme
    m ← build_manager c s
    let r : Reconciler = record {
      minio_operator_namespace = mon;
      sync_interval = interval_of o.sync_interval;
    }
    register_all m r controllers
    pure (record { manager = m })

  -- `Health`
  abbrev pub health : Operator Manager → Option Error
  health op = none

  -- `Run` of the operator
  unfoldable pub run_operator : Operator Manager → Io (Boot W) (Unit {0})
  run_operator op = query (tell Step.start (host.start op.manager))
