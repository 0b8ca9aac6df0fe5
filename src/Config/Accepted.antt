-- ===== src/Config/Accepted.antt =====
-- `Validate` as a whole: what it accepts, and what its budget test is worth.
use skawld_maintenance.Prelude.{
  ℕ, ◌+◌, ◌<◌, ◌≤◌, ◌^◌, String, ◌≡◌, refl, sym, ◌∙◌, ◌↔◌, ◌⊎◌, inl, inr, Bool, false, ◌&&◌, not,
  List, [], ◌∷◌, ◌++◌, ◌==◌, arith, eq_iff, Bool-cases, if◌then◌else◌, any, map,
}
use skawld_maintenance.Prelude.Int.{
  ℤ, pos, negsuc, is_pos, pos_part, add32, add32_exact, add32_wraps,
}
use skawld_maintenance.Config.Settings.{
  Config, ConfigError, unsupported_role, message, Jobs, Os, role_api, role_worker,
}
use skawld_maintenance.Config.Checks.{
  errors_of, validate, job_settings, job_check, auth_checks, database_checks,
}
use skawld_maintenance.Config.Valid.{
  IsValidDatabase, IsValidAuth, IsPositive, errors_of_iff, append-nil_iff, database_iff, auth_iff,
  positive_iff,
}

pub record IsValidJobs (jobs : Jobs) : Type 0 where
  pub embedding : IsPositive jobs.embedding_concurrency
  pub report : IsPositive jobs.report_concurrency
  pub vision : IsPositive jobs.vision_concurrency
  pub transcription : IsPositive jobs.transcription_concurrency

-- Visiting a map visits its entries: a test passes on some entry in the order visited when it passes
-- on some entry.
abbrev pub Visits : (List (String × ℤ) → List (String × ℤ)) → Type 0
Visits range = (p : String × ℤ → Bool) (xs : List (String × ℤ)) → any p (range xs) ≡ any p xs

abbrev is_bad : String × ℤ → Bool
is_bad (name, value) = not (is_pos value)

jobs_any : (xs : List (String × ℤ)) → (errors_of (map job_check xs) ≡ []) ↔ (any is_bad xs ≡ false)
unfolding errors_of
jobs_any [] = (λ h. refl, λ h. refl)
jobs_any ((name, value) ∷ xs) = elim (Bool-cases (not (is_pos value))) [
  | inl bad ↦ rw bad (λ h. cc h, λ h. cc h)
  | inr good ↦ rw good (jobs_any xs)
]

none_bad : {jobs : Jobs} → IsValidJobs jobs → any is_bad (job_settings jobs) ≡ false
none_bad {jobs = jobs} v =
    rw
      (
        (positive_iff jobs.embedding_concurrency).1 v.embedding,
        (positive_iff jobs.report_concurrency).1 v.report,
        (positive_iff jobs.vision_concurrency).1 v.vision,
        (positive_iff jobs.transcription_concurrency).1 v.transcription,
      )
      refl

append_five_iff :
    {A : Type 0} (a b c d e : List A)
    → ((a ++ b ++ c ++ d ++ e) ≡ []) ↔ ((a ≡ []) × ((b ≡ []) × ((c ≡ []) × ((d ≡ []) × (e ≡ [])))))
append_five_iff a b c d e =
    let f = append-nil_iff (a ++ b ++ c ++ d) e in
    let g = append-nil_iff (a ++ b ++ c) d in
    let h = append-nil_iff (a ++ b) c in
    let k = append-nil_iff a b in
    (
      λ x.
          let (y1, x5) = f.0 x in
          let (y2, x4) = g.0 y1 in
          let (y3, x3) = h.0 y2 in let (x1, x2) = k.0 y3 in (x1, (x2, (x3, (x4, x5)))),
      λ (x1, (x2, (x3, (x4, x5)))). f.1 (g.1 (h.1 (k.1 (x1, x2), x3), x4), x5),
    )

when_iff :
    {A P : Type 0} (role : String) (xs : List A)
    → (xs ≡ []) ↔ P
    → ((if role == role_api then xs else []) ≡ []) ↔ (role ≡ role_api → P)
when_iff role xs f = elim (Bool-cases (role == role_api)) [
  | inl e ↦ rw e (λ h _. f.0 h, λ h. f.1 (h ((eq_iff role role_api).0 e)))
  | inr e ↦ rw e (λ _ r. absurd (ground (arith, eq_iff role role_api)), λ _. refl)
]

role_iff :
    (role : String) (e : ConfigError)
    → (errors_of ((not (role == role_api) && not (role == role_worker), e) ∷ []) ≡ [])
      ↔ ((role ≡ role_api) ⊎ (role ≡ role_worker))
role_iff role e =
    let f = errors_of_iff ((not (role == role_api) && not (role == role_worker), e) ∷ []) in
    (
      λ h. let (b, _) = f.0 h in ground (arith, eq_iff role role_api, eq_iff role role_worker),
      λ h. f.1 (ground (arith, eq_iff role role_api, eq_iff role role_worker), tt),
    )

session_iff : (a : ℤ) (e : ConfigError) → (errors_of ((not (is_pos a), e) ∷ []) ≡ []) ↔ IsPositive a
session_iff a e =
    let f = errors_of_iff ((not (is_pos a), e) ∷ []) in
    (λ h. (positive_iff a).0 (f.0 h).0, λ h. f.1 ((positive_iff a).1 h, tt))

jobs_iff :
    (range : List (String × ℤ) → List (String × ℤ)) (jobs : Jobs)
    → Visits range
    → (errors_of (map job_check (range (job_settings jobs))) ≡ []) ↔ IsValidJobs jobs
jobs_iff range jobs visits =
    let same = visits is_bad (job_settings jobs) in
    let f = jobs_any (range (job_settings jobs)) in
    (
      λ e.
          let h : any is_bad (job_settings jobs) ≡ false = sym same ∙ f.0 e in
          record {
            embedding = ground arith;
            report = ground arith;
            vision = ground arith;
            transcription = ground arith;
          },
      λ v. f.1 (same ∙ none_bad v),
    )

exact_sum :
    (a b : ℤ) (max : ℕ)
    → IsPositive a
    → IsPositive b
    → pos_part a + pos_part b < 2 ^ 31
    → pos_part (add32 a b) ≤ max
    → pos_part a + pos_part b ≤ max
exact_sum (pos m) (pos n) max ha hb small h = rw (add32_exact m n small) at h
exact_sum (pos m) (negsuc n) max ha hb small h = absurd (omega arith)
exact_sum (negsuc m) b max ha hb small h = absurd (omega arith)

module _ (os : Os) where
  pub record IsValid (c : Config) : Type 0 where
    pub role : (c.role ≡ role_api) ⊎ (c.role ≡ role_worker)
    pub database : IsValidDatabase c.database
    pub auth :
        c.role ≡ role_api → IsValidAuth (os.parse_url c.auth.redirect_url) c.environment c.auth
    pub session : IsPositive c.auth.session_ttl
    pub jobs : IsValidJobs c.jobs

  -- Where `range` visits the entries of a map, `Validate` reports no error when the role is one of the two, the database settings are given and
  -- positive, with the pools' sum, which wraps around as an int32, at most the budget, the API's settings are complete and its redirect URL absolute,
  -- and the session and the job settings are positive; and only then.
  pub config_validate_iff : Visits os.range → (c : Config) → (validate os c ≡ []) ↔ IsValid c
  unfolding validate
  config_validate_iff visits c =
      let f =
        append_five_iff
          (errors_of (
            (not (c.role == role_api) && not (c.role == role_worker), unsupported_role c.role)
            ∷ []))
          (errors_of (database_checks c.database))
          (if c.role == role_api
            then errors_of (auth_checks (os.parse_url c.auth.redirect_url) c.environment c.auth)
            else [])
          (errors_of
            ((not (is_pos c.auth.session_ttl), message "SESSION_TTL must be positive") ∷ []))
          (errors_of (map job_check (os.range (job_settings c.jobs)))) in
      let role = role_iff c.role (unsupported_role c.role) in
      let auth =
        when_iff c.role
          (errors_of (auth_checks (os.parse_url c.auth.redirect_url) c.environment c.auth))
          (auth_iff (os.parse_url c.auth.redirect_url) c.environment c.auth) in
      let session = session_iff c.auth.session_ttl (message "SESSION_TTL must be positive") in
      let jobs = jobs_iff os.range c.jobs visits in
      let database = database_iff c.database in
      (
        λ h.
            let (r, (d, (a, (s, j)))) = f.0 h in
            record {
              role = role.0 r;
              database = database.0 d;
              auth = auth.0 a;
              session = session.0 s;
              jobs = jobs.0 j;
            },
        λ v. f.1 (
          role.1 v.role,
          (database.1 v.database, (auth.1 v.auth, (session.1 v.session, jobs.1 v.jobs))),
        ),
      )

  -- Where `range` visits the entries of a map, a configuration that `Validate` accepts, whose two pools are together below 2^31, keeps them
  -- within the connection budget.
  pub pools_within_budget :
      Visits os.range
      → (c : Config) → validate os c ≡ []
      → pos_part c.database.api_max_conns + pos_part c.database.worker_max_conns < 2 ^ 31
      → pos_part c.database.api_max_conns + pos_part c.database.worker_max_conns
        ≤ pos_part c.database.max_budget
  pools_within_budget visits c h small =
      let v = ((config_validate_iff visits c).0 h).database in
      exact_sum c.database.api_max_conns c.database.worker_max_conns
        (pos_part c.database.max_budget) v.api v.worker small v.budget

  abbrev pub with_pools : Config → ℕ → ℕ → Config
  with_pools c m n = record c {
    database = record c.database { api_max_conns = pos m; worker_max_conns = pos n };
  }

  -- The sum of the pools wraps around: where `range` visits the entries of a map, two pools of type int32 that add up to 2^31 or more are
  -- accepted whatever the budget, in a configuration that is accepted with other pools.
  pub pools_overflow :
      Visits os.range
      → (c : Config) → validate os c ≡ []
      → (m n : ℕ) → m < 2 ^ 31
      → n < 2 ^ 31
      → 2 ^ 31 ≤ m + n
      → validate os (with_pools c m n) ≡ []
  pools_overflow visits c h m n hm hn sum =
      let v = (config_validate_iff visits c).0 h in
      (config_validate_iff visits (with_pools c m n)).1 record {
        role = v.role;
        database = record {
          url = v.database.url;
          api = omega arith;
          worker = omega arith;
          max = v.database.max;
          statement = v.database.statement;
          lock = v.database.lock;
          budget = rw (add32_wraps m n hm hn sum) (omega arith);
        };
        auth = v.auth;
        session = v.session;
        jobs = v.jobs;
      }
