-- ===== src/Database/Migrations.antt =====
-- internal/platform/database/migrate.go and migrate_river.go. The libraries goose and rivermigrate
-- are parameters.
use skawld_maintenance.Prelude.{String, ◌<>◌, ◌==◌, Bool, not, Option, none, some, if◌then◌else◌}
use skawld_maintenance.Errors.{Result, ok, err, text, wrapped, driver}
use skawld_maintenance.Database.Pool.{PoolConfig, set_param}

-- Whether each call of the libraries succeeds.
pub record Migrator : Type 0 where
  pub open_database : String → Bool
  pub set_dialect : Bool
  pub up : String → Bool
  pub status : String → Bool
  pub parse_config : String → Option PoolConfig
  pub new_pool : PoolConfig → Bool
  pub new_migrator : PoolConfig → String → Bool
  pub migrate_up : PoolConfig → String → Bool

module _ (m : Migrator) where
  abbrev pub migrated : String → Bool → Result (Unit {0})
  migrated command done = if done then ok tt else err (wrapped ("migration " <> command) driver)

  -- `Migrate`
  unfoldable pub migrate : String → String → Result (Unit {0})
  migrate url command =
      if not (m.open_database url)
      then err (wrapped "open migration database" driver)
      else if not m.set_dialect
      then err (wrapped "set migration dialect" driver)
      else if command == "up"
      then migrated command (m.up url)
      else if command == "status"
      then migrated command (m.status url)
      else err (text ("unsupported migration command " <> command))

  abbrev pub river_pool : PoolConfig → Result (Unit {0})
  river_pool p =
      if not (m.new_pool p)
      then err (wrapped "open River migration database" driver)
      else if not (m.new_migrator p "river")
      then err (wrapped "create River migrator" driver)
      else if not (m.migrate_up p "river")
      then err (wrapped "migrate River schema" driver)
      else ok tt

  abbrev pub river_parsed : Option PoolConfig → Result (Unit {0})
  river_parsed none = err (wrapped "parse River migration database configuration" driver)
  river_parsed (some p) = river_pool (set_param "search_path" "river,public" p)

  -- `MigrateRiver`
  unfoldable pub migrate_river : String → Result (Unit {0})
  migrate_river url = river_parsed (m.parse_config url)
