-- ===== src/Processes.antt =====
-- cmd/api/main.go, cmd/worker/main.go, cmd/migrate/main.go: what the processes do, in order, and the
-- code that they exit with. Signals and logs are left out: a process that runs is told to stop.
pub mod Worker
use skawld_maintenance.Prelude.{
  ℕ, ◌*◌, String, ◌<>◌, ◌==◌, Bool, true, false, not, Option, none, some, List, [], ◌∷◌, ◌++◌,
  if◌then◌else◌,
}
use skawld_maintenance.Errors.{Failure, Result, ok, err}
use skawld_maintenance.Config.Settings.{Config, ConfigError, Os, role_api, role_worker}
use skawld_maintenance.Config.Load.{load}
use skawld_maintenance.Database.Pool.{PoolConfig, Postgres, open_pool}
use skawld_maintenance.Database.Migrations.{Migrator, migrate, migrate_river}
use skawld_maintenance.Jobs.{ClientConfig, River, new_client}
use skawld_maintenance.Auth.Oidc.{Service}
use skawld_maintenance.Auth.Oidc

-- `http.Server`, but for the handler; times are nanoseconds.
pub record Server : Type 0 where
  pub address : String
  pub read_header_timeout : ℕ
  pub read_timeout : ℕ
  pub write_timeout : ℕ
  pub idle_timeout : ℕ

-- What a process does, successful or not.
pub data Event : Type 0 where
  opened closed : PoolConfig → Event
  started stopped : ClientConfig → Event
  served shut_down : Server → Event

-- The exit code, and what was done.
abbrev pub Exit : Type 0
Exit = ℕ × List Event

abbrev pub seconds : ℕ → ℕ
seconds n = n * 1000000000

abbrev pub server_of : Config → Server
server_of cfg = record {
  address = cfg.http.address;
  read_header_timeout = seconds 5;
  read_timeout = seconds 15;
  write_timeout = seconds 30;
  idle_timeout = seconds 60;
}

module _ (os : Os) (postgres : Postgres) where
  module _ (river : River) where
    -- The worker from the start of its client on.
    abbrev pub run_client : PoolConfig → ClientConfig → Exit
    run_client pool client =
        if not (river.start client)
        then (1, opened pool ∷ started client ∷ [])
        else if not (river.stop client)
        then (1, opened pool ∷ started client ∷ stopped client ∷ [])
        else (0, opened pool ∷ started client ∷ stopped client ∷ closed pool ∷ [])

    abbrev pub worker_client : PoolConfig → Result ClientConfig → Exit
    worker_client pool (err e) = (1, opened pool ∷ [])
    worker_client pool (ok client) = run_client pool client

    abbrev pub worker_pool : Config → Result PoolConfig → Exit
    worker_pool cfg (err e) = (1, [])
    worker_pool cfg (ok pool) = worker_client pool (new_client river cfg.jobs)

    abbrev pub worker_loaded : Config → List ConfigError → Exit
    worker_loaded cfg [] = worker_pool cfg (open_pool postgres cfg.database role_worker)
    worker_loaded cfg (e ∷ rest) = (2, [])

    -- `main` of cmd/worker
    unfoldable pub worker : Exit
    unfolding load open_pool new_client
    worker = let (cfg, errors) = load os role_worker in worker_loaded cfg errors

  -- Whether the OIDC provider is discovered, and whether the server shuts down in time. The server may
  -- stop listening by an error or by a signal: the process goes on in the same way.
  module _ (discovered shuts_down : Bool) where
    abbrev pub api_server : PoolConfig → Config → Exit
    api_server pool cfg =
        if not shuts_down
        then (1, opened pool ∷ served (server_of cfg) ∷ shut_down (server_of cfg) ∷ [])
        else (
          0,
          opened pool ∷ served (server_of cfg) ∷ shut_down (server_of cfg) ∷ closed pool ∷ [],
        )

    abbrev pub api_auth : PoolConfig → Config → Result Service → Exit
    api_auth pool cfg (err e) = (1, opened pool ∷ [])
    api_auth pool cfg (ok service) = api_server pool cfg

    abbrev pub api_pool : Config → Result PoolConfig → Exit
    api_pool cfg (err e) = (1, [])
    api_pool cfg (ok pool) = api_auth pool cfg (Oidc.new discovered cfg.auth)

    abbrev pub api_loaded : Config → List ConfigError → Exit
    api_loaded cfg [] = api_pool cfg (open_pool postgres cfg.database role_api)
    api_loaded cfg (e ∷ rest) = (2, [])

    -- `main` of cmd/api
    unfoldable pub api : Exit
    unfolding load open_pool Oidc.new
    api = let (cfg, errors) = load os role_api in api_loaded cfg errors

module _ (lookup : String → String) (m : Migrator) where
  abbrev pub exit_of : Result (Unit {0}) → ℕ
  exit_of (err e) = 1
  exit_of (ok tt) = 0

  abbrev pub after_migrate : String → String → Result (Unit {0}) → ℕ
  after_migrate url command (err e) = 1
  after_migrate url command (ok tt) = if command == "up" then exit_of (migrate_river m url) else 0

  -- `main` of cmd/migrate, at its arguments and os.Getenv: the exit code
  unfoldable pub migrate_main : List String → ℕ
  unfolding migrate migrate_river
  migrate_main [] = 2
  migrate_main (command ∷ []) =
      let url = lookup "MIGRATION_DATABASE_URL" in
      if url == "" then 2 else after_migrate url command (migrate m url command)
  migrate_main (command ∷ (next ∷ rest)) = 2
