-- ===== src/Tests/Startup.antt =====
-- Starts of the program, on a host where every call succeeds and the service account has no namespace.
use minio_operator_ext.Base.{
  ◌≡◌, ◌≢◌, ◌↔◌, ◌⊎◌, String, refl, true, false, none, List, [], ◌∷◌, contains, string_eq, arith,
  ◌==◌, if◌then◌else◌,
}
use minio_operator_ext.Client.{message, ok, err, Run, ◌>>=◌, lift}
use minio_operator_ext.Operator.Controllers.{Controller}
use minio_operator_ext.Operator.Host.{Step, Host, Boot}
use minio_operator_ext.Operator.Register.{
  kind_name, register, register_bucket, register_group, register_group_binding, register_policy,
  register_policy_binding, register_user, register_access_key,
}
use minio_operator_ext.Operator.Startup.{
  OperatorOpts, controllers, known_types, register_all, new_operator, namespace_of, build_scheme,
  add_to_scheme, add_known_types, build_manager, run_operator, interval_of,
}
use minio_operator_ext.Operator.Registers.{
  Ended, register_all-Ended, undefined, new_operator-undefined,
}
use minio_operator_ext.Operator.Kinds.{watchers, controllers-known_types}
use minio_operator_ext.Operator.Cli.{
  Level, configure_logging, Context, Process, main, trim_space, trim_left, trim_right,
  get_operator_version, before, level_of, run_command, run_logged, new, run,
}
use minio_operator_ext.Operator.Commands.{
  level_name, configure_logging-level_name, main-bad_level, IsStarted, main-IsStarted,
}
use minio_operator_ext.Tests.World.{Quiet, answers, reconciler}

abbrev host : Host Quiet Quiet (List String) Quiet
host = record {
  build_config_from_flags = λ _ _. answers tt;
  read_file = λ _ w. (err (message "no such file"), w);
  new_scheme = [];
  run_scheme_builder = λ fs s. elim fs [ [] ↦ ok s | f ∷ _ ↦ f s ];
  add_known_types = λ _ _ names. names;
  add_to_group_version = λ s _. s;
  add_minio_v2 = ok;
  add_kubernetes = ok;
  new_manager = λ _ _. answers tt;
  add_healthz_check = λ _ _. answers tt;
  add_readyz_check = λ _ _. answers tt;
  start = λ _. answers tt;
  -- the policies cannot be registered
  build =
      λ _ name _ _ w. ((if name == "MinioPolicy" then err (message "no policies") else ok tt), w);
}

abbrev healthy : Host Quiet Quiet (List String) Quiet
healthy = record host { build = λ _ _ _ _. answers tt }

abbrev boot : Run (Boot Quiet)
boot = record { world = record { outside = tt; steps = [] }; log = [] }

-- The flags of a command line that runs the operator, and of one with a wrong level.
abbrev flags : String → Context
flags level = record {
  flags = λ name.
      if name == "log-level"
      then level
      else if name == "minio-operator-namespace"
      then "minio-operator"
      else "";
  logger = none;
}

abbrev process : String → Process Quiet
process level = record {
  read_embedded = λ _. ok " 1.2.3\n";
  write = λ _. answers tt;
  wait = λ ms s. elim ms [ [] ↦ (ok tt, s) | m ∷ _ ↦ m s ];
  run_app = λ a args s. (lift (a.before (flags level)) >>= a.run) s;
  error_text = λ _. "";
}

register_all-Ended_example :
    Ended reconciler controllers []
      (register_all host tt reconciler controllers boot).0
      (register_all host tt reconciler controllers boot).1.world.steps
register_all-Ended_example = register_all-Ended host tt reconciler controllers boot

register_all_run :
    (register_all host tt reconciler controllers boot).1.world.steps
    ≡ Step.build Controller.policy reconciler
      ∷ Step.build Controller.group_binding reconciler
      ∷ Step.build Controller.group reconciler
      ∷ Step.build Controller.bucket reconciler
      ∷ []
unfolding register_all register register_bucket register_group register_group_binding
    register_policy register_policy_binding register_user register_access_key
register_all_run = refl

abbrev nameless : OperatorOpts
nameless = record { kube_config = ""; minio_operator_namespace = ""; sync_interval = 0 }

new_operator-undefined_example :
    ((new_operator host nameless boot).0 ≡ err undefined)
    × ((new_operator host nameless boot).1.world.steps ≡ [])
new_operator-undefined_example =
    new_operator-undefined host nameless boot tt refl refl (λ text w e. absurd (cc))

controllers-known_types_example :
    (contains known_types (kind_name Controller.user) ≡ true)
    × (watchers controllers (kind_name Controller.user) ≡ 1)
controllers-known_types_example = controllers-known_types Controller.user

abbrev silent : String
silent = ""

configure_logging-level_name_example :
    (configure_logging silent ≡ ok Level.info)
    ↔ ((silent ≡ level_name Level.info) ⊎ ((silent ≡ "") × (Level.info ≡ Level.info)))
configure_logging-level_name_example = configure_logging-level_name silent Level.info

-- Two texts that the test tells apart.
apart : (s t : String) → (s == t) ≡ false → s ≢ t
apart s t e same = ground (arith, e, (string_eq.same_iff s t).1 same)

loud : (l : Level) → "loud" ≢ level_name l
loud Level.error = apart "loud" "error" refl
loud Level.warn = apart "loud" "warn" refl
loud Level.info = apart "loud" "info" refl
loud Level.debug = apart "loud" "debug" refl

main-bad_level_example :
    ((main healthy (process "loud") ("run" ∷ []) boot).0.code ≡ 1)
    × ((main healthy (process "loud") ("run" ∷ []) boot).1 ≡ boot)
main-bad_level_example =
    main-bad_level healthy (process "loud") ("run" ∷ []) (flags "loud") boot (λ a s. refl) loud
      (apart "loud" "" refl)

runs : (main healthy (process "warn") ("run" ∷ []) boot).0.code ≡ 0
unfolding main before configure_logging level_of run_command run_logged new run new_operator
    namespace_of build_scheme add_to_scheme add_known_types build_manager register_all register
    register_bucket register_group register_group_binding register_policy register_policy_binding
    register_user register_access_key run_operator interval_of
runs = refl

main-IsStarted_example :
    IsStarted "minio-operator" [] (main healthy (process "warn") ("run" ∷ []) boot).1.world.steps
main-IsStarted_example =
    main-IsStarted healthy (process "warn") ("run" ∷ []) (flags "warn") boot (λ a s. refl)
      (λ m s. refl) runs

version : get_operator_version healthy (process "warn") ≡ "1.2.3"
unfolding get_operator_version trim_space trim_left trim_right
version = refl
