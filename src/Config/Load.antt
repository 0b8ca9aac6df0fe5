-- ===== src/Config/Load.antt =====
-- internal/platform/config/config.go: `Load`, and how it reads the environment.
use skawld_maintenance.Prelude.{
  ℕ, ◌*◌, String, true, not, Option, none, some, List, [], ◌∷◌, ◌++◌, ◌==◌, if◌then◌else◌,
}
use skawld_maintenance.Prelude.Text.{trim_space, split}
use skawld_maintenance.Prelude.Int.{ℤ, pos, int32}
use skawld_maintenance.Config.Settings.{Role, Config, Os, ConfigError, malformed}
use skawld_maintenance.Config.Checks.{validate}

-- The loop of `envCSV`.
unfoldable pub trimmed_items : List String → List String
trimmed_items [] = []
trimmed_items (item ∷ rest) =
    let items = trimmed_items rest in
    if not (trim_space item == "") then trim_space item ∷ items else items

abbrev pub int_names : List String
int_names =
    "DATABASE_API_MAX_CONNS" ∷ "DATABASE_WORKER_MAX_CONNS" ∷ "DATABASE_MAX_CONNECTION_BUDGET"
    ∷ "JOB_CONCURRENCY_EMBEDDING" ∷ "JOB_CONCURRENCY_REPORT" ∷ "JOB_CONCURRENCY_VISION"
    ∷ "JOB_CONCURRENCY_TRANSCRIPTION" ∷ []

abbrev pub duration_names : List String
duration_names = "DATABASE_STATEMENT_TIMEOUT" ∷ "DATABASE_LOCK_TIMEOUT" ∷ "SESSION_TTL" ∷ []

abbrev seconds : ℕ → ℤ
seconds n = pos (n * 1000000000)

module _ {A : Type 0} where
  abbrev pub parse_error : String → Option A → List ConfigError
  parse_error name none = malformed name ∷ []
  parse_error name (some value) = []

  abbrev pub text_error : (String → Option A) → String → Option String → List ConfigError
  text_error parse name none = []
  text_error parse name (some raw) = parse_error name (parse raw)

module _ (os : Os) where
  unfoldable pub env : String → String → String
  env name fallback = elim (os.lookup_env name) [ none ↦ fallback | some value ↦ value ]

  -- `envInt`, `envBool` and `envDuration`: what is missing or does not parse is the fallback.
  module _ {A : Type 0} (parse : String → Option A) where
    unfoldable pub env_parsed : String → A → A
    env_parsed name fallback = elim (os.lookup_env name) [
      | none ↦ fallback
      | some raw ↦ elim (parse raw) [ none ↦ fallback | some value ↦ value ]
    ]

    -- A step of `validateEnvironmentValues`: what is set parses.
    abbrev pub check_parses : String → List ConfigError
    check_parses name = text_error parse name (os.lookup_env name)

    unfoldable pub check_all_parse : List String → List ConfigError
    check_all_parse [] = []
    check_all_parse (name ∷ rest) = check_parses name ++ check_all_parse rest

  -- `os.Getenv`
  abbrev pub getenv : String → String
  getenv name = elim (os.lookup_env name) [ none ↦ "" | some value ↦ value ]

  unfoldable pub env_csv : String → Option (List String)
  unfolding trimmed_items
  env_csv name =
      if trim_space (getenv name) == ""
      then none
      else some (trimmed_items (split b',' (trim_space (getenv name))))

  unfoldable pub validate_environment_values : List ConfigError
  unfolding check_all_parse
  validate_environment_values =
      check_all_parse os.atoi int_names
      ++ check_all_parse os.parse_duration duration_names
      ++ check_parses os.parse_bool "SESSION_COOKIE_SECURE"

  -- The configuration that `Load` builds.
  unfoldable pub loaded : Role → Config
  unfolding env env_parsed env_csv
  loaded role = record {
    environment = env "APP_ENV" "development";
    role = role;
    http = record { address = env "HTTP_ADDRESS" ":8080" };
    database = record {
      url = env "DATABASE_URL" "";
      api_max_conns = int32 (env_parsed os.atoi "DATABASE_API_MAX_CONNS" (pos 10));
      worker_max_conns = int32 (env_parsed os.atoi "DATABASE_WORKER_MAX_CONNS" (pos 10));
      max_budget = int32 (env_parsed os.atoi "DATABASE_MAX_CONNECTION_BUDGET" (pos 25));
      statement_timeout = env_parsed os.parse_duration "DATABASE_STATEMENT_TIMEOUT" (seconds 15);
      lock_timeout = env_parsed os.parse_duration "DATABASE_LOCK_TIMEOUT" (seconds 3);
    };
    auth = record {
      issuer_url = env "OIDC_ISSUER_URL" "";
      client_id = env "OIDC_CLIENT_ID" "";
      client_secret = env "OIDC_CLIENT_SECRET" "";
      audience = env "OIDC_AUDIENCE" "skawld-api";
      redirect_url = env "OIDC_REDIRECT_URL" "http://localhost:8080/auth/callback";
      cookie_name = env "SESSION_COOKIE_NAME" "skawld_session";
      cookie_secure = env_parsed os.parse_bool "SESSION_COOKIE_SECURE" true;
      session_ttl = env_parsed os.parse_duration "SESSION_TTL" (seconds 28800);
      bootstrap_subjects = env_csv "BOOTSTRAP_OIDC_SUBJECTS";
    };
    jobs = record {
      embedding_concurrency = env_parsed os.atoi "JOB_CONCURRENCY_EMBEDDING" (pos 5);
      report_concurrency = env_parsed os.atoi "JOB_CONCURRENCY_REPORT" (pos 10);
      vision_concurrency = env_parsed os.atoi "JOB_CONCURRENCY_VISION" (pos 3);
      transcription_concurrency = env_parsed os.atoi "JOB_CONCURRENCY_TRANSCRIPTION" (pos 3);
    };
  }

  -- `Load`: the configuration, and the errors of both checks.
  unfoldable pub load : Role → Config × List ConfigError
  unfolding loaded validate validate_environment_values
  load role = (loaded role, validate os (loaded role) ++ validate_environment_values)
