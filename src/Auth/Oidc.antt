-- ===== src/Auth/Oidc.antt =====
-- internal/platform/auth/oidc.go: the service and what it takes from its libraries. The repository and
-- the clock are the program's own; the log is left out.
use skawld_maintenance.Prelude.{
  ℕ, String, ◌==◌, Bool, not, Option, none, some, List, [], ◌∷◌, if◌then◌else◌,
}
use skawld_maintenance.Prelude.Int.{ℤ}
use skawld_maintenance.Errors.{Result, ok, err, wrapped, driver}
use skawld_maintenance.Identity.Authorization.{Time}
use skawld_maintenance.Config.Settings.{Auth}
use skawld_maintenance.Auth.Principals.{put}
use skawld_maintenance.Auth.Bearer.{RawClaims}
use skawld_maintenance.Auth.Return.{ParsedUrl}

-- What the program asks of the identity provider and of its libraries: `randomToken` and
-- `oauth2.GenerateVerifier` by the number of the call, url.Parse, the URL that a login starts at (of a
-- state, a nonce and a PKCE verifier), the exchange of a code (`none`: an error; `some none`: no
-- identity token), the verifier of tokens for a client, the decoder of claims, the seconds until an
-- instant by the machine's clock, and the Location that http.Redirect makes of a target for a
-- request to a path: it cleans and escapes a target without a scheme.
pub record Provider (Token : Type 0) : Type 0 where
  pub random : ℕ → Option String
  pub generate_verifier : ℕ → String
  pub parse_url : String → Option ParsedUrl
  pub auth_code_url : String → String → String → String
  pub exchange : String → String → Option (Option String)
  pub verify : String → String → Option Token
  pub decode : Token → Option RawClaims
  pub seconds_until : ℕ → Time → ℤ
  pub location : String → String → String

-- `oauth2.Config`, but for the endpoint, which is the provider's.
pub record Oauth : Type 0 where
  pub client_id : String
  pub client_secret : String
  pub redirect_url : String
  pub scopes : List String

-- `Service`; a verifier is known by its client.
pub record Service : Type 0 where
  pub config : Auth
  pub oauth : Oauth
  pub web_verifier : String
  pub bearer_verifier : String
  pub bootstrap_subjects : List String

-- The loop of `New` over the subjects.
unfoldable pub add_subjects : List String → List String → List String
add_subjects [] bootstrap = bootstrap
add_subjects (subject ∷ rest) bootstrap = add_subjects rest (put subject bootstrap)

abbrev pub subjects_of : Option (List String) → List String
subjects_of none = []
subjects_of (some subjects) = subjects

-- `New`, when the discovery of the provider succeeds or fails.
unfoldable pub new : Bool → Auth → Result Service
unfolding add_subjects
new discovered cfg =
    if not discovered
    then err (wrapped "discover OIDC provider" driver)
    else ok record {
      config = cfg;
      oauth = record {
        client_id = cfg.client_id;
        client_secret = cfg.client_secret;
        redirect_url = cfg.redirect_url;
        scopes = "openid" ∷ "profile" ∷ "email" ∷ [];
      };
      web_verifier = cfg.client_id;
      bearer_verifier = if cfg.audience == "" then cfg.client_id else cfg.audience;
      bootstrap_subjects = add_subjects (subjects_of cfg.bootstrap_subjects) [];
    }
