-- ===== src/Operator/Cli.antt =====
-- cmd/operator/operator.go, internal/operator/main.go and internal/embed.go: the command line, the
-- log level, the version, and the exit code.
use Prim.Native.Char.{code}
use minio_operator_ext.Base.{
  ℕ, String, ◌++◌, Bool, ◌||◌, ◌&&◌, Option, none, some, List, [], ◌∷◌, if◌then◌else◌, ◌==◌,
  string_eq, ℕ_eq, leb, contains,
}
use minio_operator_ext.Client.{Error, message, Result, ok, err, Call, Io, Run, ◌>>=◌, throw, query}
use minio_operator_ext.Operator.Host.{Host, Boot}
use minio_operator_ext.Operator.Startup.{Operator, new_operator, run_operator}

-- `slog.Level`
pub data Level : Type 0 where
  error : Level
  warn : Level
  info : Level
  debug : Level

-- The `switch` on the name of a level.
unfoldable pub level_of : String → Result Level
level_of ls =
    if ls == "error"
    then ok Level.error
    else if ls == "warn"
    then ok Level.warn
    else if ls == "info"
    then ok Level.info
    else if ls == "debug"
    then ok Level.debug
    else err (message ("unrecognized log level " ++ ls))

-- `configureLogging`, which answers with a logger of that level
unfoldable pub configure_logging : String → Result Level
configure_logging ls = level_of (if ls == "" then "info" else ls)

-- The white space of `strings.TrimSpace`.
abbrev pub is_space : ℕ → Bool
is_space c =
    (leb 0x9 c && leb c 0xd)
    || (leb 0x2000 c && leb c 0x200a)
    || contains (0x20 ∷ 0x85 ∷ 0xa0 ∷ 0x1680 ∷ 0x2028 ∷ 0x2029 ∷ 0x202f ∷ 0x205f ∷ 0x3000 ∷ []) c

unfoldable pub trim_left : String → String
trim_left String.[] = ""
trim_left (String.◌∷◌ c s) =
    let rest = trim_left s in if is_space (code c) then rest else String.◌∷◌ c s

unfoldable pub trim_right : String → String
trim_right String.[] = ""
trim_right (String.◌∷◌ c s) =
    let rest = trim_right s in if is_space (code c) && rest == "" then "" else String.◌∷◌ c rest

unfoldable pub trim_space : String → String
trim_space s = trim_left (trim_right s)

-- The context of a command: the values of the flags, and the logger that `Before` puts in.
pub record Context : Type 0 where
  pub flags : String → String
  pub logger : Option Level

-- `operator.Opts`
pub record Opts : Type 0 where
  pub logger : Level
  pub kube_config : String
  pub minio_operator_namespace : String

-- A `cli.App` with its commands.
pub record App (W : Type 0) : Type 0 where
  pub before : Context → Result Context
  pub run : Context → Io (Boot W) (Unit {0})
  pub version : Context → Io (Boot W) (Unit {0})

-- What of the process is not in this repository: the embedded file system, the streams, the
-- package `errgroup`, and the package `cli`, which runs an app on arguments.
pub record Process (W : Type 0) : Type 0 where
  pub read_embedded : String → Result String
  pub write : String → Call (Boot W) (Unit {0})
  pub wait : List (Io (Boot W) (Unit {0})) → Io (Boot W) (Unit {0})
  pub run_app : App W → List String → Io (Boot W) (Unit {0})
  pub error_text : Error → String

-- How the process ends, and what it writes to standard error before.
pub record Exit : Type 0 where
  pub code : ℕ
  pub stderr : Option String

-- `Before`
unfoldable pub before : Context → Result Context
before c = elim (configure_logging (c.flags "log-level")) [
  | ok l ↦ ok (record c { logger = some l })
  | err e ↦ err e
]

module _ {W Config Scheme Manager : Type 0} (host : Host W Config Scheme Manager)
    (process : Process W) where
  -- `GetOperatorVersion`
  unfoldable pub get_operator_version : String
  get_operator_version = elim (process.read_embedded "embed/version.txt") [
    | err e ↦ "0.0.0+undefined"
    | ok text ↦ trim_space text
  ]

  -- `New` of internal/operator/main.go: no interval is passed
  unfoldable pub new : Opts → Io (Boot W) (Operator Manager)
  new o = new_operator host (record {
    kube_config = o.kube_config;
    minio_operator_namespace = o.minio_operator_namespace;
    sync_interval = 0;
  })

  -- `Run` of internal/operator/main.go
  unfoldable pub run : Operator Manager → Io (Boot W) (Unit {0})
  run m = process.wait (run_operator host m ∷ [])

  -- With the logger of the context.
  unfoldable pub run_logged : Context → Option Level → Io (Boot W) (Unit {0})
  run_logged c none = throw (message "logger not attached to context")
  run_logged c (some l) =
      new (record {
        logger = l;
        kube_config = c.flags "kube-config";
        minio_operator_namespace = c.flags "minio-operator-namespace";
      })
      >>= run

  -- the action of the command `run`
  unfoldable pub run_command : Context → Io (Boot W) (Unit {0})
  run_command c = run_logged c c.logger

  -- the action of the command `version`
  unfoldable pub version_command : Context → Io (Boot W) (Unit {0})
  version_command c = query (process.write get_operator_version)

  abbrev pub app : App W
  app = record { before = before; run = run_command; version = version_command }

  abbrev pub exit_of : Result (Unit {0}) → Exit
  exit_of (ok _) = record { code = 0; stderr = none }
  exit_of (err e) = record { code = 1; stderr = some ("error: " ++ process.error_text e ++ "\n") }

  -- `main`
  unfoldable pub main : List String → Run (Boot W) → Exit × Run (Boot W)
  main args s = let (r, s') = process.run_app app args s in (exit_of r, s')
