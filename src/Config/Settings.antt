-- ===== src/Config/Settings.antt =====
-- internal/platform/config/config.go: the settings, and what the program asks of its environment.
-- An `int` and a `time.Duration` (nanoseconds) are signed integers; a list of errors is what
-- `errors.Join` is given, and the empty list is the nil error.
use skawld_maintenance.Prelude.{String, Bool, Option, List}
use skawld_maintenance.Prelude.Int.{ℤ}

abbrev pub Role : Type 0
Role = String

abbrev pub role_api : Role
role_api = "api"

abbrev pub role_worker : Role
role_worker = "worker"

pub record Http : Type 0 where
  pub address : String

pub record Database : Type 0 where
  pub url : String
  pub api_max_conns : ℤ
  pub worker_max_conns : ℤ
  pub max_budget : ℤ
  pub statement_timeout : ℤ
  pub lock_timeout : ℤ

pub record Auth : Type 0 where
  pub issuer_url : String
  pub client_id : String
  pub client_secret : String
  pub audience : String
  pub redirect_url : String
  pub cookie_name : String
  pub cookie_secure : Bool
  pub session_ttl : ℤ
  pub bootstrap_subjects : Option (List String)

pub record Jobs : Type 0 where
  pub embedding_concurrency : ℤ
  pub report_concurrency : ℤ
  pub vision_concurrency : ℤ
  pub transcription_concurrency : ℤ

pub record Config : Type 0 where
  pub environment : String
  pub role : Role
  pub http : Http
  pub database : Database
  pub auth : Auth
  pub jobs : Jobs

pub record Url : Type 0 where
  pub scheme : String
  pub host : String

-- `os.LookupEnv`, `strconv.Atoi`, `strconv.ParseBool`, `time.ParseDuration` and `url.Parse`, where
-- `none` is an error, and the order in which `range` visits a map of four entries.
pub record Os : Type 0 where
  pub lookup_env : String → Option String
  pub atoi : String → Option ℤ
  pub parse_bool : String → Option Bool
  pub parse_duration : String → Option ℤ
  pub parse_url : String → Option Url
  pub range : List (String × ℤ) → List (String × ℤ)

pub data ConfigError : Type 0 where
  unsupported_role : String → ConfigError
  message : String → ConfigError
  pools_exceed : ℤ → ℤ → ConfigError
  not_positive : String → ConfigError
  malformed : String → ConfigError
