-- ===== src/Operator/Host.antt =====
-- What the start of the program calls and what is not in this repository: the Kubernetes client
-- configuration, the file system, the schemes, and the manager of controller-runtime.
use minio_operator_ext.Base.{String, Bool, Option, List, ◌∷◌}
use minio_operator_ext.Client.{Result, Call}
use minio_operator_ext.Reconciler.{Reconciler}
use minio_operator_ext.Operator.Controllers.{Controller}

-- `schema.GroupVersion`
pub record GroupVersion : Type 0 where
  pub group : String
  pub version : String

-- `manager.Options`, without the logger
pub record ManagerOptions (Scheme : Type 0) : Type 0 where
  pub cache_disable_for : List String
  pub skip_name_validation : Option Bool
  pub health_probe_bind_address : String
  pub scheme : Scheme

-- The calls on a manager, as the program makes them.
pub data Step : Type 0 where
  new_manager : Step
  add_healthz_check : String → Step
  add_readyz_check : String → Step
  build : Controller → Reconciler → Step
  start : Step

-- `W` is the state of everything outside.
pub record Host (W Config Scheme Manager : Type 0) : Type 0 where
  -- `clientcmd.BuildConfigFromFlags`, `os.ReadFile`
  pub build_config_from_flags : String → String → Call W Config
  pub read_file : String → Call W String
  -- `runtime.NewScheme`, `runtime.SchemeBuilder.AddToScheme`, `Scheme.AddKnownTypes`,
  -- `metav1.AddToGroupVersion`, and `AddToScheme` of the MinIO operator and of Kubernetes
  pub new_scheme : Scheme
  pub run_scheme_builder : List (Scheme → Result Scheme) → Scheme → Result Scheme
  pub add_known_types : Scheme → GroupVersion → List String → Scheme
  pub add_to_group_version : Scheme → GroupVersion → Scheme
  pub add_minio_v2 : Scheme → Result Scheme
  pub add_kubernetes : Scheme → Result Scheme
  -- `manager.New`, and the methods of a manager
  pub new_manager : Config → ManagerOptions Scheme → Call W Manager
  pub add_healthz_check : Manager → String → Call W (Unit {0})
  pub add_readyz_check : Manager → String → Call W (Unit {0})
  pub start : Manager → Call W (Unit {0})
  -- `builder.ControllerManagedBy(m).For(…).Build(r)` for a kind of resource
  pub build : Manager → String → Controller → Reconciler → Call W (Unit {0})

-- The world outside, and the calls on a manager so far, newest first.
pub record Boot (W : Type 0) : Type 0 where
  pub outside : W
  pub steps : List Step

module _ {W : Type 0} {A : Type 0} where
  -- A call outside.
  abbrev pub ask : Call W A → Call (Boot W) A
  ask f b = let (r, w) = f b.outside in (r, record b { outside = w })

  -- A call on a manager, which is recorded.
  abbrev pub tell : Step → Call W A → Call (Boot W) A
  tell step f b = let (r, w) = f b.outside in (r, record { outside = w; steps = step ∷ b.steps })
