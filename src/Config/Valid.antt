-- ===== src/Config/Valid.antt =====
-- Which configurations `Validate` accepts.
use skawld_maintenance.Prelude.{
  ◌<◌, ◌≤◌, String, ◌≡◌, refl, ◌≢◌, ◌↔◌, ◌⊎◌, Bool, true, false, ◌&&◌, ◌||◌, not, Option, none,
  some, List, [], ◌∷◌, ◌++◌, ◌==◌, arith, eq_iff,
}
use skawld_maintenance.Prelude.Text.{trim_space}
use skawld_maintenance.Prelude.Int.{ℤ, pos, negsuc, ltb_ℤ, is_pos, pos_part, add32}
use skawld_maintenance.Config.Settings.{ConfigError, Database, Auth, Url}
use skawld_maintenance.Config.Checks.{errors_of, auth_checks, database_checks, is_relative}

-- A text that is more than white space.
abbrev pub IsGiven : String → Type 0
IsGiven s = trim_space s ≢ ""

abbrev pub IsPositive : ℤ → Type 0
IsPositive a = 0 < pos_part a

pub record IsValidDatabase (db : Database) : Type 0 where
  pub url : IsGiven db.url
  pub api : IsPositive db.api_max_conns
  pub worker : IsPositive db.worker_max_conns
  pub max : IsPositive db.max_budget
  pub statement : IsPositive db.statement_timeout
  pub lock : IsPositive db.lock_timeout
  -- the wrapped sum of the pools, as the code adds them
  pub budget : pos_part (add32 db.api_max_conns db.worker_max_conns) ≤ pos_part db.max_budget

abbrev pub IsAbsolute : Option Url → Type 0
IsAbsolute u = (v : Url) × (u ≡ some v) × (v.scheme ≢ "") × (v.host ≢ "")

pub record IsValidAuth (target : Option Url) (environment : String) (auth : Auth) : Type 0 where
  pub issuer : IsGiven auth.issuer_url
  pub client : IsGiven auth.client_id
  pub secret : IsGiven auth.client_secret
  pub audience : IsGiven auth.audience
  pub redirect : IsAbsolute target
  pub cookie : IsGiven auth.cookie_name
  pub secure :
      (environment ≡ "development") ⊎ ((environment ≡ "test") ⊎ (auth.cookie_secure ≡ true))

abbrev Passes : List (Bool × ConfigError) → Type 0
Passes [] = Unit
Passes ((bad, e) ∷ rest) = (bad ≡ false) × Passes rest

-- No error is collected when no test fails.
pub errors_of_iff : (rows : List (Bool × ConfigError)) → (errors_of rows ≡ []) ↔ Passes rows
unfolding errors_of
errors_of_iff [] = (λ h. tt, λ h. refl)
errors_of_iff ((true, e) ∷ rest) = (λ h. cc h, λ h. cc h.0)
errors_of_iff ((false, e) ∷ rest) =
    (λ h. (refl, (errors_of_iff rest).0 h), λ h. (errors_of_iff rest).1 h.1)

pub append-nil_iff : {A : Type 0} (xs ys : List A) → ((xs ++ ys) ≡ []) ↔ ((xs ≡ []) × (ys ≡ []))
append-nil_iff [] ys = (λ e. (refl, e), λ h. h.1)
append-nil_iff (x ∷ xs) ys = (λ e. cc e, λ h. cc h.0)

IsGiven-iff : (s : String) → ((trim_space s == "") ≡ false) ↔ IsGiven s
IsGiven-iff s =
    (λ h e. ground (arith, eq_iff (trim_space s) ""), λ h. ground (arith, eq_iff (trim_space s) ""))

pub positive_iff : (a : ℤ) → (not (is_pos a) ≡ false) ↔ IsPositive a
positive_iff a = ground arith

both_positive_iff :
    (a b : ℤ) → ((not (is_pos a) || not (is_pos b)) ≡ false) ↔ (IsPositive a × IsPositive b)
both_positive_iff a b = ground arith

-- What the last test says when the budget is positive.
budget_iff :
    (max sum : ℤ) → IsPositive max → (ltb_ℤ max sum ≡ false) ↔ (pos_part sum ≤ pos_part max)
budget_iff (negsuc n) sum h = absurd (omega arith)
budget_iff (pos m) (pos n) h = ground arith
budget_iff (pos m) (negsuc n) h = ground arith

pub database_iff : (db : Database) → (errors_of (database_checks db) ≡ []) ↔ IsValidDatabase db
database_iff db =
    let f = errors_of_iff (database_checks db) in
    let pools = both_positive_iff db.api_max_conns db.worker_max_conns in
    let timeouts = both_positive_iff db.statement_timeout db.lock_timeout in
    let positive = positive_iff db.max_budget in
    (
      λ e.
          let (url, (p, (max, (t, (rest, _))))) = f.0 e in
          record {
            url = (IsGiven-iff db.url).0 url;
            api = (pools.0 p).0;
            worker = (pools.0 p).1;
            max = positive.0 max;
            statement = (timeouts.0 t).0;
            lock = (timeouts.0 t).1;
            budget = (budget_iff db.max_budget _ (positive.0 max)).0 rest;
          },
      λ v. f.1 (
        (IsGiven-iff db.url).1 v.url,
        (
          pools.1 (v.api, v.worker),
          (
            positive.1 v.max,
            (timeouts.1 (v.statement, v.lock), ((budget_iff db.max_budget _ v.max).1 v.budget, tt)),
          ),
        ),
      ),
    )

IsAbsolute-iff : (u : Option Url) → (is_relative u ≡ false) ↔ IsAbsolute u
IsAbsolute-iff none = (λ h. cc h, λ (v, e, scheme, host). cc e)
IsAbsolute-iff (some v) = (
  λ h. (v, refl, λ e. ground (arith, eq_iff v.scheme ""), λ e. ground (arith, eq_iff v.host "")),
  λ (v', e, scheme, host). ground (arith, eq_iff v.scheme "", eq_iff v.host ""),
)

secure_iff :
    (environment : String) (secure : Bool)
    → ((not (environment == "development") && not (environment == "test") && not secure) ≡ false)
      ↔ ((environment ≡ "development") ⊎ ((environment ≡ "test") ⊎ (secure ≡ true)))
secure_iff environment secure =
    ground (arith, eq_iff environment "development", eq_iff environment "test")

pub auth_iff :
    (redirect : Option Url) (environment : String) (auth : Auth)
    → (errors_of (auth_checks redirect environment auth) ≡ [])
      ↔ IsValidAuth redirect environment auth
auth_iff redirect environment auth =
    let f = errors_of_iff (auth_checks redirect environment auth) in
    let secure = secure_iff environment auth.cookie_secure in
    (
      λ e.
          let (issuer, (client, (secret, (audience, (target, (cookie, (safe, _))))))) = f.0 e in
          record {
            issuer = (IsGiven-iff auth.issuer_url).0 issuer;
            client = (IsGiven-iff auth.client_id).0 client;
            secret = (IsGiven-iff auth.client_secret).0 secret;
            audience = (IsGiven-iff auth.audience).0 audience;
            redirect = (IsAbsolute-iff redirect).0 target;
            cookie = (IsGiven-iff auth.cookie_name).0 cookie;
            secure = secure.0 safe;
          },
      λ v. f.1 (
        (IsGiven-iff auth.issuer_url).1 v.issuer,
        (
          (IsGiven-iff auth.client_id).1 v.client,
          (
            (IsGiven-iff auth.client_secret).1 v.secret,
            (
              (IsGiven-iff auth.audience).1 v.audience,
              (
                (IsAbsolute-iff redirect).1 v.redirect,
                ((IsGiven-iff auth.cookie_name).1 v.cookie, (secure.1 v.secure, tt)),
              ),
            ),
          ),
        ),
      ),
    )
