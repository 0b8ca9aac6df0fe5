-- ===== src/Database/Pool.antt =====
-- internal/platform/database/database.go: `Open`. pgx's parser of URLs, the texts of durations and
-- the server are parameters.
use skawld_maintenance.Prelude.{
  ℕ, ◌*◌, String, ◌<>◌, ◌==◌, ◌≡◌, sym, ap, ◌∙◌, inl, inr, Bool, true, not, Option, none, some,
  List, ◌∷◌, Bool-cases, Option-cases, if◌then◌else◌,
}
use skawld_maintenance.Prelude.Int.{ℤ, pos}
use skawld_maintenance.Errors.{Result, ok, err, text, wrapped, driver}
use skawld_maintenance.Config.Settings.{Role, role_api, role_worker, Database}

-- What `Open` sets of a pool's configuration; of the parameters under one name the first counts.
pub record PoolConfig : Type 0 where
  pub max_conns : ℤ
  pub min_conns : ℤ
  pub max_conn_lifetime : ℕ
  pub max_conn_idle_time : ℕ
  pub health_check_period : ℕ
  pub runtime_params : List (String × String)

pub record Postgres : Type 0 where
  pub parse_config : String → Option PoolConfig
  pub duration_text : ℤ → String
  pub new_pool : PoolConfig → Bool
  pub ping : PoolConfig → Bool

abbrev pub set_param : String → String → PoolConfig → PoolConfig
set_param name value p = record p { runtime_params = (name, value) ∷ p.runtime_params }

abbrev pub minutes : ℕ → ℕ
minutes n = n * 60 * 1000000000

-- What is set for every role, after the sizes.
abbrev pub with_periods : PoolConfig → PoolConfig
with_periods p = record p {
  min_conns = pos 1;
  max_conn_lifetime = minutes 30;
  max_conn_idle_time = minutes 5;
  health_check_period = 30 * 1000000000;
}

module _ (postgres : Postgres) where
  abbrev pub with_timeouts : Database → PoolConfig → PoolConfig
  with_timeouts cfg p =
      set_param "lock_timeout" (postgres.duration_text cfg.lock_timeout)
        (set_param "statement_timeout" (postgres.duration_text cfg.statement_timeout) p)

  -- The end of `Open`: the pool is made, and the server answers.
  abbrev pub connect : PoolConfig → Result PoolConfig
  connect p =
      if not (postgres.new_pool p)
      then err (wrapped "open database pool" driver)
      else if not (postgres.ping p)
      then err (wrapped "ping database" driver)
      else ok p

  abbrev pub open_parsed : Database → Role → Option PoolConfig → Result PoolConfig
  open_parsed cfg role none = err (wrapped "parse database configuration" driver)
  open_parsed cfg role (some p) =
      if role == role_api
      then connect (with_periods (record (with_timeouts cfg p) { max_conns = cfg.api_max_conns }))
      else if role == role_worker
      then connect (
          with_periods (
            set_param "search_path" "river,public"
              (record (with_timeouts cfg p) { max_conns = cfg.worker_max_conns })))
      else err (text ("unsupported database pool role " <> role))

  -- `Open`
  unfoldable pub open_pool : Database → Role → Result PoolConfig
  open_pool cfg role = open_parsed cfg role (postgres.parse_config cfg.url)

  -- The worker's pool: its size, its path of schemas, and its timeouts.
  pub record IsWorkerPool (cfg : Database) (p : PoolConfig) : Type 0 where
    pub parsed : PoolConfig
    pub from : postgres.parse_config cfg.url ≡ some parsed
    pub size : p.max_conns ≡ cfg.worker_max_conns
    pub params :
        p.runtime_params
        ≡ ("search_path", "river,public")
          ∷ ("lock_timeout", postgres.duration_text cfg.lock_timeout)
          ∷ ("statement_timeout", postgres.duration_text cfg.statement_timeout)
          ∷ parsed.runtime_params
    pub answers : postgres.ping p ≡ true

  connect_lem : (p q : PoolConfig) → connect p ≡ ok q → (p ≡ q) × (postgres.ping p ≡ true)
  connect_lem p q h = elim (Bool-cases (postgres.new_pool p)) [
    | inr refused ↦ cc (rw refused at h)
    | inl made ↦ elim (Bool-cases (postgres.ping p)) [
      | inr silent ↦ cc (rw (made, silent) at h)
      | inl up ↦ let same : ok p ≡ ok q = rw (made, up) at h in (cc same, up)
    ]
  ]

  pub worker_pool_lem :
      (cfg : Database) (p : PoolConfig) → open_pool cfg role_worker ≡ ok p → IsWorkerPool cfg p
  unfolding open_pool
  worker_pool_lem cfg p h = elim (Option-cases (postgres.parse_config cfg.url)) [
    | inl bad ↦ cc (ap (open_parsed cfg role_worker) (sym bad) ∙ h)
    | inr (parsed, from) ↦
        let (same, up) = connect_lem _ p (ap (open_parsed cfg role_worker) (sym from) ∙ h) in
        record {
          parsed = parsed;
          from = from;
          size = ap (λ (q : PoolConfig). q.max_conns) (sym same);
          params = ap (λ (q : PoolConfig). q.runtime_params) (sym same);
          answers = ap postgres.ping (sym same) ∙ up;
        }
  ]
