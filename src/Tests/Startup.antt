-- ===== src/Tests/Startup.antt =====
-- A worker that starts on the settings of the environment.
use skawld_maintenance.Prelude.{refl, [], Memᴰ, none, some, true, arith}
use skawld_maintenance.Prelude.Text.{trim_space}
use skawld_maintenance.Prelude.Int.{pos, add32}
use skawld_maintenance.Config.Checks.{validate, errors_of}
use skawld_maintenance.Config.Load.{
  load, loaded, env_csv, env, env_parsed, validate_environment_values, check_all_parse,
}
use skawld_maintenance.Config.Settings.{role_worker}
use skawld_maintenance.Database.Pool.{Postgres, open_pool}
use skawld_maintenance.Jobs.{ClientConfig, River, client_config, new_client}
use skawld_maintenance.Processes.{started, worker}
use skawld_maintenance.Processes.Worker.{IsReady, worker_safe}
use skawld_maintenance.Tests.Settings.{os, visits}

abbrev postgres : Postgres
postgres = record {
  parse_config = λ url. some record {
    max_conns = pos 4;
    min_conns = pos 0;
    max_conn_lifetime = 0;
    max_conn_idle_time = 0;
    health_check_period = 0;
    runtime_params = [];
  };
  duration_text = λ d. "15s";
  new_pool = λ p. true;
  ping = λ p. true;
}

abbrev river : River
river = record {
  add_worker = true;
  new_client = λ c. true;
  start = λ c. true;
  stop = λ c. true;
  insert = λ args opts. none;
}

abbrev client : ClientConfig
client = client_config (load os role_worker).0.jobs

starts : Memᴰ (started client) (worker os postgres river).1
unfolding worker load loaded validate errors_of trim_space add32 env env_parsed env_csv open_pool
    new_client validate_environment_values check_all_parse
starts = Memᴰ.tail (Memᴰ.head refl)

worker_safe_example : IsReady os postgres river client
unfolding load loaded env_parsed add32
worker_safe_example = worker_safe os postgres river visits (omega arith) client starts
