-- ===== src/Auth/Bearer.antt =====
-- internal/platform/auth/oidc.go: who a request comes from. The verifier of tokens and the decoder
-- of their claims are parameters, in which `none` is an error.
pub mod Known
use skawld_maintenance.Prelude.{
  ℕ, String, Bool, Option, none, some, List, ◌==◌, ◌||◌, not, if◌then◌else◌,
}
use skawld_maintenance.Prelude.Text.{trim_space, after_prefix}
use skawld_maintenance.Errors.{Failure, Result, ok, err, text, wrapped, driver}
use skawld_maintenance.Database.{Env, Exec, fail}
use skawld_maintenance.Identity.Authorization.{Principal}
use skawld_maintenance.Auth.Principals.{IdentityClaims, resolve_principal}
use skawld_maintenance.Auth.Sessions.{principal_for_session}

-- The value of the cookie under the configured name, and the Authorization header ("" if it is
-- missing).
pub record Request : Type 0 where
  pub cookie : Option String
  pub authorization : String

-- The struct that `claimsFromToken` decodes into.
pub record RawClaims : Type 0 where
  pub subject : String
  pub name : String
  pub preferred_username : String
  pub email : String
  pub nonce : String

pub record TokenClaims : Type 0 where
  pub identity : IdentityClaims
  pub nonce : String

abbrev pub display_name_of : RawClaims → String
display_name_of raw =
    if trim_space raw.name == "" then trim_space raw.preferred_username else trim_space raw.name

abbrev pub token_claims : RawClaims → TokenClaims
token_claims raw = record {
  identity = record {
    subject = raw.subject;
    display_name = display_name_of raw;
    email = raw.email;
  };
  nonce = raw.nonce;
}

-- `claimsFromToken`
unfoldable pub claims_from_token : Option RawClaims → Result TokenClaims
claims_from_token none = err (wrapped "decode identity claims" driver)
claims_from_token (some raw) =
    if raw.subject == "" || display_name_of raw == ""
    then err (text "required identity claims missing")
    else ok (token_claims raw)

module _ (env : Env) (sort : List String → List String) (bootstrap_subjects : List String)
    {Token : Type 0} (verify : String → Option Token) (decode : Token → Option RawClaims) where
  -- The end of `authenticate`.
  abbrev pub resolve_claims : Result TokenClaims → Exec Principal
  resolve_claims (err e) = fail e
  resolve_claims (ok claims) = resolve_principal env sort bootstrap_subjects claims.identity

  abbrev pub resolve_token : Option Token → Exec Principal
  resolve_token none = fail (wrapped "verify bearer token" driver)
  resolve_token (some token) = resolve_claims (claims_from_token (decode token))

  abbrev pub resolve_header : Option String → Exec Principal
  resolve_header none = fail (text "authentication required")
  resolve_header (some rest) = resolve_token (verify (trim_space rest))

  abbrev pub resolve_cookie : Option String → String → Exec Principal
  resolve_cookie none authorization = resolve_header (after_prefix "Bearer " authorization)
  resolve_cookie (some value) authorization =
      if not (value == "")
      then principal_for_session env sort bootstrap_subjects value
      else resolve_header (after_prefix "Bearer " authorization)

  -- `authenticate`
  unfoldable pub authenticate : Request → Exec Principal
  authenticate r = resolve_cookie r.cookie r.authorization
