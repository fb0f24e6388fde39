-- ===== src/Operator/Commands.antt =====
-- What the command line does: the log levels, the version text, and the two commands up to the exit
-- code.
use mathlib.Core.List.{[], ◌∷◌}
use Prim.Native.Char.{code}
use minio_operator_ext.Base.{
  String, ◌≡◌, ◌≢◌, ◌↔◌, ◌⊎◌, inl, inr, refl, sym, subst, ap, ◌∙◌, false, Bool-cases, Option, none,
  some, List, arith, ◌==◌, string_eq, path_of_same, if◌then◌else◌,
}
use minio_operator_ext.Client.{
  Error, Result, ok, err, Io, Run, ◌>>=◌, proceed, lift, Ensures, >>=-Ensures,
}
use minio_operator_ext.Operator.Host.{Step, Host, Boot}
use minio_operator_ext.Operator.Startup.{
  OperatorOpts, default_sync_interval, interval_of, new_operator, run_operator,
}
use minio_operator_ext.Operator.Registers.{IsServing, new_operator-IsServing}
use minio_operator_ext.Operator.Cli.{
  Level, level_of, configure_logging, Context, App, Process, exit_of, before, new, run, run_command,
  run_logged, app, main,
}

abbrev pub namespace_flag : String
namespace_flag = "minio-operator-namespace"

-- The documented name of a level.
abbrev pub level_name : Level → String
level_name Level.error = "error"
level_name Level.warn = "warn"
level_name Level.info = "info"
level_name Level.debug = "debug"

-- One case of the switch.
switched :
    (s t : String) (k l : Level) (rest : Result Level)
    → (if s == t then ok k else rest) ≡ ok l
    → ((s ≡ t) × (k ≡ l)) ⊎ (rest ≡ ok l)
switched s t k l rest e = elim (Bool-cases (s == t)) [
  | inl h ↦ inl (path_of_same s t h, ground (arith, h))
  | inr h ↦ inr (ground (arith, h))
]

chosen :
    (s : String) (l : Level) (rest : Result Level)
    → (k : Level) → (if s == level_name k then ok k else rest) ≡ ok l
    → (rest ≡ ok l → s ≡ level_name l)
    → s ≡ level_name l
chosen s l rest k e h = elim (switched s (level_name k) k l rest e) [
  | inl (same, level) ↦ same ∙ ap level_name level
  | inr later ↦ h later
]

level_of-level_name : (s : String) (l : Level) → level_of s ≡ ok l → s ≡ level_name l
unfolding level_of
level_of-level_name s l e = chosen s l _ Level.error e (λ e.
    chosen s l _ Level.warn e
      (λ e. chosen s l _ Level.info e (λ e. chosen s l _ Level.debug e (λ e. absurd (cc)))))

level_name-level_of : (l : Level) → level_of (level_name l) ≡ ok l
unfolding level_of
level_name-level_of Level.error = refl
level_name-level_of Level.warn = refl
level_name-level_of Level.info = refl
level_name-level_of Level.debug = refl

configure_logging-level_of : (ls : String) → (ls == "") ≡ false → configure_logging ls ≡ level_of ls
unfolding configure_logging
configure_logging-level_of ls t = rw t refl

name_given : (l : Level) → (level_name l == "") ≡ false
name_given Level.error = refl
name_given Level.warn = refl
name_given Level.info = refl
name_given Level.debug = refl

-- The level of the logger is `l` exactly where the text is the documented name of `l`, or is
-- empty and `l` is the level `info`; every other text is refused.
pub configure_logging-level_name :
    (ls : String) (l : Level)
    → (configure_logging ls ≡ ok l) ↔ ((ls ≡ level_name l) ⊎ ((ls ≡ "") × (l ≡ Level.info)))
unfolding configure_logging
configure_logging-level_name ls l = (
  λ e. elim (Bool-cases (ls == "")) [
    | inl t ↦
        let empty = path_of_same ls "" t in
        let info : level_of "info" ≡ ok l = subst (λ x. configure_logging x ≡ ok l) empty e in
        inr (empty, ground (arith, info, level_name-level_of Level.info))
    | inr t ↦ inl (level_of-level_name ls l (sym (configure_logging-level_of ls t) ∙ e))
  ],
  λ c. elim c [
    | inl named ↦
        rw named (configure_logging-level_of (level_name l) (name_given l) ∙ level_name-level_of l)
    | inr (empty, level) ↦ rw (empty, level) (level_name-level_of Level.info)
  ],
)

-- After the command `run`, with the option `given` for the namespace.
abbrev pub IsStarted : String → List Step → List Step → Type 0
IsStarted given earlier now =
    (after : List Step) × IsServing given default_sync_interval earlier after
    × (now ≡ Step.start ∷ after)

module _ {W Config Scheme Manager : Type 0} (host : Host W Config Scheme Manager)
    (process : Process W) where
  -- The package `cli` on the arguments of a command: `Before` on the context of the flags, and then
  -- the action on the context that it answers with.
  abbrev pub Runs : (App W → Context → Io (Boot W) (Unit {0})) → List String → Context → Type 0
  Runs action args c =
      (a : App W) (s : Run (Boot W)) → process.run_app a args s ≡ (lift (a.before c) >>= action a) s

  -- The package `errgroup` with one function: its answer.
  abbrev pub WaitsForOne : Type 0
  WaitsForOne = (m : Io (Boot W) (Unit {0})) (s : Run (Boot W)) → process.wait (m ∷ []) s ≡ m s

  before-err :
      (c : Context)
      → ((l : Level) → c.flags "log-level" ≢ level_name l)
      → c.flags "log-level" ≢ ""
      → (e : Error) × (before c ≡ err e)
  unfolding before
  before-err c unknown given = go (configure_logging (c.flags "log-level")) (λ l e.
      elim ((configure_logging-level_name (c.flags "log-level") l).0 e) [
        | inl named ↦ unknown l named
        | inr (empty, _) ↦ given empty
      ])
    where
      go :
          (r : Result Level)
          → ((l : Level) → r ≢ ok l)
          → (e : Error) × (elim r [ ok l ↦ ok (record c { logger = some l }) | err e ↦ err e ]
              ≡ err e)
      go (ok l) h = absurd (h l refl)
      go (err e) h = (e, refl)

  -- Given the package `cli` with the arguments of the command `run` as it is documented: where
  -- the flag `log-level` is not empty and names no level, the exit code is 1 and nothing was
  -- done.
  pub main-bad_level :
      (args : List String) (c : Context) (s : Run (Boot W))
      → Runs (λ a. a.run) args c
      → ((l : Level) → c.flags "log-level" ≢ level_name l)
      → c.flags "log-level" ≢ ""
      → ((main host process args s).0.code ≡ 1) × ((main host process args s).1 ≡ s)
  unfolding main
  main-bad_level args c s runs unknown given =
      let (e, bad) = before-err c unknown given in
      let same : process.run_app (app host process) args s ≡ (err e, s) =
        runs (app host process) s ∙ (λ i. proceed (run_command host process) (bad i) s) in
      (λ i. (exit_of host process (same i).0).code, λ i. (same i).1)

  run_logged-IsStarted :
      WaitsForOne
      → (c : Context) (l : Option Level) (s : Run (Boot W))
      → Ensures
          (λ _ s'. IsStarted (c.flags namespace_flag) s.world.steps s'.world.steps)
          (run_logged host process c l)
          s
  unfolding run_logged new run run_operator interval_of
  run_logged-IsStarted waits c none s = λ u e. absurd (cc)
  run_logged-IsStarted waits c (some l) s =
      let opts : OperatorOpts = record {
        kube_config = c.flags "kube-config";
        minio_operator_namespace = c.flags namespace_flag;
        sync_interval = 0;
      } in
      >>=-Ensures
        (λ _ s1.
          IsServing (c.flags namespace_flag) default_sync_interval s.world.steps s1.world.steps)
        (λ _ s'. IsStarted (c.flags namespace_flag) s.world.steps s'.world.steps)
        (new_operator host opts) (run host process) s (new_operator-IsServing host opts s)
        (λ op s1 serving u e.
          (s1.world.steps, serving, ap (λ r. r.1.world.steps) (waits (run_operator host op) s1)))

  before-flags : (c c' : Context) → before c ≡ ok c' → c'.flags ≡ c.flags
  unfolding before
  before-flags c c' e = go (configure_logging (c.flags "log-level")) e
    where
      go :
          (r : Result Level)
          → elim r [ ok l ↦ ok (record c { logger = some l }) | err e ↦ err e ] ≡ ok c'
          → c'.flags ≡ c.flags
      go (ok l) e = ground (arith, e)
      go (err x) e = absurd (cc)

  started :
      WaitsForOne
      → (c : Context) (s : Run (Boot W))
      → Ensures
          (λ _ s'. IsStarted (c.flags namespace_flag) s.world.steps s'.world.steps)
          (lift (before c) >>= run_command host process)
          s
  unfolding run_command
  started waits c s =
      >>=-Ensures (λ c' s1. (c'.flags ≡ c.flags) × (s1.world.steps ≡ s.world.steps))
        (λ _ s'. IsStarted (c.flags namespace_flag) s.world.steps s'.world.steps) (lift (before c))
        (run_command host process) s (λ c' e. (before-flags c c' e, refl))
        (λ c' s1 (flags, same) u e.
          subst
            (λ f.
              IsStarted (f namespace_flag) s.world.steps
                (run_command host process c' s1).1.world.steps)
            flags
            (subst
              (λ earlier.
                IsStarted (c'.flags namespace_flag) earlier
                  (run_command host process c' s1).1.world.steps)
              same (run_logged-IsStarted waits c' c'.logger s1 u e)))

  exit_of-ok : (r : Result (Unit {0})) → (exit_of host process r).code ≡ 0 → r ≡ ok tt
  exit_of-ok (ok u) code = refl
  exit_of-ok (err e) code = absurd (cc)

  pub main-IsStarted :
      (args : List String) (c : Context) (s : Run (Boot W))
      → Runs (λ a. a.run) args c
      → WaitsForOne
      → (main host process args s).0.code ≡ 0
      → IsStarted (c.flags namespace_flag) s.world.steps (main host process args s).1.world.steps
  unfolding main
  main-IsStarted args c s runs waits code =
      let same = runs (app host process) s in
      subst (λ r. IsStarted (c.flags namespace_flag) s.world.steps r.1.world.steps) (sym same)
        (started waits c s tt (sym (ap (λ r. r.0) same) ∙ exit_of-ok _ code))
