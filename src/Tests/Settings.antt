-- ===== src/Tests/Settings.antt =====
-- An environment with a few variables, and the worker's configuration.
use skawld_maintenance.Prelude.{
  String, ◌==◌, ◌≡◌, refl, ◌↔◌, ◌≢◌, Option, none, some, [], ◌∷◌, Memᴰ, if◌then◌else◌, arith,
}
use skawld_maintenance.Prelude.Text.{IsTrimmed, trim_space, split}
use skawld_maintenance.Prelude.Int.{add32}
use skawld_maintenance.Config.Settings.{Config, Os}
use skawld_maintenance.Config.Checks.{validate, errors_of}
use skawld_maintenance.Config.Load.{load, loaded, env_csv, env, env_parsed}
use skawld_maintenance.Config.Accepted.{
  IsValid, Visits, config_validate_iff, pools_overflow, with_pools,
}
use skawld_maintenance.Config.Loaded.{IsWellFormed, load_iff, env_csv_lem}

abbrev lookup_env : String → Option String
lookup_env name =
    if name == "DATABASE_URL"
    then some "postgres://db"
    else if name == "BOOTSTRAP_OIDC_SUBJECTS"
    then some " ann,, bob "
    else none

abbrev pub os : Os
os = record {
  lookup_env = lookup_env;
  atoi = λ s. none;
  parse_bool = λ s. none;
  parse_duration = λ s. none;
  parse_url = λ s. none;
  range = λ xs. xs;
}

pub visits : Visits os.range
visits p xs = refl

abbrev worker : Config
unfolding loaded
worker = loaded os "worker"

worker_valid : validate os worker ≡ []
unfolding worker loaded validate errors_of trim_space add32 env env_parsed env_csv
worker_valid = refl

config_validate_iff_example : (validate os worker ≡ []) ↔ IsValid os worker
config_validate_iff_example = config_validate_iff os visits worker

pools_overflow_example : validate os (with_pools os worker 1500000000 1500000000) ≡ []
pools_overflow_example =
    pools_overflow os visits worker worker_valid 1500000000 1500000000 (omega arith) (omega arith)
      (omega arith)

load_iff_example : ((load os "worker").1 ≡ []) ↔ (IsValid os (load os "worker").0 × IsWellFormed os)
load_iff_example = load_iff os "worker" visits

subjects : env_csv os "BOOTSTRAP_OIDC_SUBJECTS" ≡ some ("ann" ∷ "bob" ∷ [])
unfolding env_csv trim_space split
subjects = refl

abbrev second : String
second = "bob"

second_given : IsTrimmed second × (second ≢ "")
second_given =
    env_csv_lem os "BOOTSTRAP_OIDC_SUBJECTS" ("ann" ∷ "bob" ∷ []) subjects second
      (Memᴰ.tail (Memᴰ.head refl))
