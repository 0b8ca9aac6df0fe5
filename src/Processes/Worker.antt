-- ===== src/Processes/Worker.antt =====
-- When the worker starts its client.
use skawld_maintenance.Prelude.{
  String, ◌≡◌, refl, sym, ap, ◌∙◌, inl, inr, List, [], ◌∷◌, Memᴰ, Bool-cases,
}
use mathlib.Core.Path.{subst}
use skawld_maintenance.Prelude.{arith, ◌+◌, ◌<◌, ◌≤◌, ◌^◌}
use skawld_maintenance.Prelude.Int.{ℤ, pos_part}
use skawld_maintenance.Errors.{Result, ok, err}
use skawld_maintenance.Config.Settings.{Config, ConfigError, Os, Jobs, role_worker}
use skawld_maintenance.Config.Valid.{IsPositive}
use skawld_maintenance.Config.Load.{load}
use skawld_maintenance.Config.Accepted.{
  IsValid, IsValidJobs, Visits, config_validate_iff, pools_within_budget,
}
use skawld_maintenance.Config.Loaded.{IsWellFormed, load_iff}
use skawld_maintenance.Database.Pool.{
  PoolConfig, Postgres, open_pool, IsWorkerPool, worker_pool_lem,
}
use skawld_maintenance.Jobs.{ClientConfig, River, client_config, new_client, river_schema}
use skawld_maintenance.Processes.{
  started, run_client, worker_client, worker_pool, worker_loaded, worker,
}

module _ (os : Os) (postgres : Postgres) (river : River) where
  -- What the worker has when it starts a client: a configuration that is valid and well-formed, a
  -- pool for it, and a client with a positive number of workers for each queue.
  pub record IsReady (client : ClientConfig) : Type 0 where
    pub valid : IsValid os (load os role_worker).0
    pub formed : IsWellFormed os
    pub pool : PoolConfig
    pub connected : IsWorkerPool postgres (load os role_worker).0.database pool
    pub within :
        pos_part (load os role_worker).0.database.api_max_conns + pos_part pool.max_conns
        ≤ pos_part (load os role_worker).0.database.max_budget
    pub schema : client.schema ≡ river_schema
    pub queues : (name : String) (n : ℤ) → Memᴰ (name, n) client.queues → IsPositive n

  client_lem :
      (jobs : Jobs) (client : ClientConfig)
      → new_client river jobs ≡ ok client
      → client_config jobs ≡ client
  unfolding new_client
  client_lem jobs client h = elim (Bool-cases river.add_worker) [
    | inr bad ↦ cc (rw (bad, new_client) at h)
    | inl added ↦ elim (Bool-cases (river.new_client (client_config jobs))) [
      | inr bad ↦ cc (rw (added, bad, new_client) at h)
      | inl made ↦
          let same : ok (client_config jobs) ≡ ok client = rw (added, made, new_client) at h in
          cc same
    ]
  ]

  queues_lem :
      (jobs : Jobs)
      → IsValidJobs jobs
      → (name : String) (n : ℤ) → Memᴰ (name, n) (client_config jobs).queues
      → IsPositive n
  queues_lem jobs v name n m = elim m [
    | Memᴰ.head e ↦ subst IsPositive (sym (ap (λ (q : String × ℤ). q.1) e)) (omega arith)
    | Memᴰ.tail (Memᴰ.head e) ↦ subst IsPositive (sym (ap (λ (q : String × ℤ). q.1) e)) v.embedding
    | Memᴰ.tail (Memᴰ.tail (Memᴰ.head e)) ↦
        subst IsPositive (sym (ap (λ (q : String × ℤ). q.1) e)) v.report
    | Memᴰ.tail (Memᴰ.tail (Memᴰ.tail (Memᴰ.head e))) ↦
        subst IsPositive (sym (ap (λ (q : String × ℤ). q.1) e)) v.vision
    | Memᴰ.tail (Memᴰ.tail (Memᴰ.tail (Memᴰ.tail (Memᴰ.head e)))) ↦
        subst IsPositive (sym (ap (λ (q : String × ℤ). q.1) e)) v.transcription
    | Memᴰ.tail (Memᴰ.tail (Memᴰ.tail (Memᴰ.tail (Memᴰ.tail n)))) ↦ elim n [ ]
  ]

  -- The one client that is started.
  started_lem :
      (pool : PoolConfig) (c client : ClientConfig)
      → Memᴰ (started client) (run_client os postgres river pool c).1
      → c ≡ client
  started_lem pool c client m = elim (Bool-cases (river.start c)) [
    | inr bad ↦ elim (rw bad at m) [
      | Memᴰ.head e ↦ cc e
      | Memᴰ.tail (Memᴰ.head e) ↦ cc e
      | Memᴰ.tail (Memᴰ.tail n) ↦ elim n [ ]
    ]
    | inl good ↦ elim (Bool-cases (river.stop c)) [
      | inr bad ↦ elim (rw (good, bad) at m) [
        | Memᴰ.head e ↦ cc e
        | Memᴰ.tail (Memᴰ.head e) ↦ cc e
        | Memᴰ.tail (Memᴰ.tail (Memᴰ.head e)) ↦ cc e
        | Memᴰ.tail (Memᴰ.tail (Memᴰ.tail n)) ↦ elim n [ ]
      ]
      | inl well ↦ elim (rw (good, well) at m) [
        | Memᴰ.head e ↦ cc e
        | Memᴰ.tail (Memᴰ.head e) ↦ cc e
        | Memᴰ.tail (Memᴰ.tail (Memᴰ.head e)) ↦ cc e
        | Memᴰ.tail (Memᴰ.tail (Memᴰ.tail (Memᴰ.head e))) ↦ cc e
        | Memᴰ.tail (Memᴰ.tail (Memᴰ.tail (Memᴰ.tail n))) ↦ elim n [ ]
      ]
    ]
  ]

  abbrev cfg : Config
  cfg = (load os role_worker).0

  -- The two pools of the configuration are within the budget.
  abbrev Fits : Type 0
  Fits =
      pos_part cfg.database.api_max_conns + pos_part cfg.database.worker_max_conns
      ≤ pos_part cfg.database.max_budget

  client-IsReady :
      (pool : PoolConfig) (r : Result ClientConfig) (client : ClientConfig)
      → IsValid os cfg
      → IsWellFormed os
      → Fits
      → open_pool postgres cfg.database role_worker ≡ ok pool
      → new_client river cfg.jobs ≡ r
      → Memᴰ (started client) (worker_client os postgres river pool r).1
      → IsReady client
  client-IsReady pool (err e) client v f b o h (Memᴰ.head q) = cc q
  client-IsReady pool (err e) client v f b o h (Memᴰ.tail m) = elim m [ ]
  client-IsReady pool (ok c) client v f b o h m =
      let same = client_lem cfg.jobs c h ∙ started_lem pool c client m in
      let is = worker_pool_lem postgres cfg.database pool o in
      record {
        valid = v;
        formed = f;
        pool = pool;
        connected = is;
        within =
            subst
              (λ x.
                pos_part cfg.database.api_max_conns + pos_part x ≤ pos_part cfg.database.max_budget)
              (sym is.size) b;
        schema = ap (λ (c : ClientConfig). c.schema) (sym same);
        queues =
            subst
              (λ (c : ClientConfig).
                (name : String) (n : ℤ) → Memᴰ (name, n) c.queues → IsPositive n)
              same (queues_lem cfg.jobs v.jobs);
      }

  pool-IsReady :
      (r : Result PoolConfig) (client : ClientConfig)
      → IsValid os cfg
      → IsWellFormed os
      → Fits
      → open_pool postgres cfg.database role_worker ≡ r
      → Memᴰ (started client) (worker_pool os postgres river cfg r).1
      → IsReady client
  pool-IsReady (err e) client v f b o m = elim m [ ]
  pool-IsReady (ok pool) client v f b o m =
      client-IsReady pool (new_client river cfg.jobs) client v f b o refl m

  loaded-IsReady :
      (errors : List ConfigError) (client : ClientConfig)
      → Visits os.range
      → pos_part (load os role_worker).0.database.api_max_conns
          + pos_part (load os role_worker).0.database.worker_max_conns
        < 2 ^ 31
      → (load os role_worker).1 ≡ errors
      → Memᴰ (started client) (worker_loaded os postgres river cfg errors).1
      → IsReady client
  loaded-IsReady (e ∷ rest) client visits small h m = elim m [ ]
  loaded-IsReady [] client visits small h m =
      let (valid, formed) = (load_iff os role_worker visits).0 h in
      let accepted = (config_validate_iff os visits cfg).1 valid in
      let fits = pools_within_budget os visits cfg accepted small in
      pool-IsReady (open_pool postgres cfg.database role_worker) client valid formed fits refl m

  -- Where `range` visits the entries of a map and the two pool sizes that are read are together below
  -- 2^31, a worker that starts a client, with success or not, has loaded a configuration that is valid
  -- and whose variables parse, and has opened the worker's pool for it, of its size and with river's
  -- schema first; with the API's pool it is within the connection budget, and the client has a positive
  -- number of workers for each of its queues.
  pub worker_safe :
      Visits os.range
      → pos_part (load os role_worker).0.database.api_max_conns
          + pos_part (load os role_worker).0.database.worker_max_conns
        < 2 ^ 31
      → (client : ClientConfig) → Memᴰ (started client) (worker os postgres river).1
      → IsReady client
  unfolding worker
  worker_safe visits small client m =
      loaded-IsReady (load os role_worker).1 client visits small refl m
