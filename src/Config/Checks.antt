-- ===== src/Config/Checks.antt =====
-- internal/platform/config/config.go: `Config.Validate`.
use skawld_maintenance.Prelude.{
  String, Bool, true, ◌&&◌, ◌||◌, not, Option, none, some, List, [], ◌∷◌, ◌++◌, ◌==◌, map,
  if◌then◌else◌,
}
use skawld_maintenance.Prelude.Text.{trim_space}
use skawld_maintenance.Prelude.Int.{ℤ, ltb_ℤ, is_pos, add32}
use skawld_maintenance.Config.Settings.{
  role_api, role_worker, Database, Auth, Jobs, Config, Url, Os, ConfigError, unsupported_role,
  message, pools_exceed, not_positive,
}

-- The steps `if bad { errs = append(errs, e) }`, in their order.
unfoldable pub errors_of : List (Bool × ConfigError) → List ConfigError
errors_of [] = []
errors_of ((bad, e) ∷ rest) = let errs = errors_of rest in if bad then e ∷ errs else errs

-- The test of the redirect URL: it does not parse, or it has no scheme or no host.
abbrev pub is_relative : Option Url → Bool
is_relative none = true
is_relative (some redirect) = redirect.scheme == "" || redirect.host == ""

abbrev pub job_settings : Jobs → List (String × ℤ)
job_settings jobs =
    ("embedding", jobs.embedding_concurrency)
    ∷ ("report", jobs.report_concurrency)
    ∷ ("vision", jobs.vision_concurrency)
    ∷ ("transcription", jobs.transcription_concurrency)
    ∷ []

-- The step of the loop over the job settings.
abbrev pub job_check : String × ℤ → Bool × ConfigError
job_check (name, value) = (not (is_pos value), not_positive name)

-- The block that `Validate` runs for the API role.
abbrev pub auth_checks : Option Url → String → Auth → List (Bool × ConfigError)
auth_checks redirect environment auth =
    (trim_space auth.issuer_url == "", message "OIDC_ISSUER_URL is required for API role")
    ∷ (trim_space auth.client_id == "", message "OIDC_CLIENT_ID is required for API role")
    ∷ (trim_space auth.client_secret == "", message "OIDC_CLIENT_SECRET is required for API role")
    ∷ (trim_space auth.audience == "", message "OIDC_AUDIENCE is required for API role")
    ∷ (is_relative redirect, message "OIDC_REDIRECT_URL must be an absolute URL")
    ∷ (trim_space auth.cookie_name == "", message "SESSION_COOKIE_NAME is required")
    ∷ (
      not (environment == "development") && not (environment == "test") && not auth.cookie_secure,
      message "SESSION_COOKIE_SECURE must be true outside development/test",
    )
    ∷ []

-- The tests that `Validate` makes of the database settings.
abbrev pub database_checks : Database → List (Bool × ConfigError)
database_checks db =
    (trim_space db.url == "", message "DATABASE_URL is required")
    ∷ (
      not (is_pos db.api_max_conns) || not (is_pos db.worker_max_conns),
      message "database pool sizes must be positive",
    )
    ∷ (not (is_pos db.max_budget), message "database connection budget must be positive")
    ∷ (
      not (is_pos db.statement_timeout) || not (is_pos db.lock_timeout),
      message "database statement and lock timeouts must be positive",
    )
    ∷ (
      ltb_ℤ db.max_budget (add32 db.api_max_conns db.worker_max_conns),
      pools_exceed (add32 db.api_max_conns db.worker_max_conns) db.max_budget,
    )
    ∷ []

module _ (os : Os) where
  -- `Config.Validate`
  unfoldable pub validate : Config → List ConfigError
  validate c =
      errors_of
        ((not (c.role == role_api) && not (c.role == role_worker), unsupported_role c.role) ∷ [])
      ++ errors_of (database_checks c.database)
      ++ (if c.role == role_api
          then errors_of (auth_checks (os.parse_url c.auth.redirect_url) c.environment c.auth)
          else [])
      ++ errors_of ((not (is_pos c.auth.session_ttl), message "SESSION_TTL must be positive") ∷ [])
      ++ errors_of (map job_check (os.range (job_settings c.jobs)))
