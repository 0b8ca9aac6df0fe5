-- ===== src/Auth/Login.antt =====
-- internal/platform/auth/oidc.go: the handlers for login, callback and logout.
pub mod Redirects
pub mod Opening
pub mod Sessions
pub mod Leaving
pub mod Visits
use skawld_maintenance.Prelude.{
  ℕ, ◌+◌, ◌-◌, ◌*◌, String, ◌<>◌, ◌==◌, Bool, true, false, ◌||◌, not, Option, none, some, List, [],
  ◌∷◌, ◌++◌, if◌then◌else◌,
}
use skawld_maintenance.Prelude.Int.{ℤ, pos, negsuc, pos_part, neg_part}
use skawld_maintenance.Errors.{Result, ok, err, Failure, wrapped, driver}
use skawld_maintenance.Identity.Authorization.{Time, Principal}
use skawld_maintenance.Database.{Env, World, Exec, tick, read_clock}
use skawld_maintenance.Config.Settings.{Auth}
use skawld_maintenance.Http.{
  Request, Response, Cookie, Reply, reply, attempt, http_error, redirect, empty,
}
use skawld_maintenance.Auth.Oidc.{Provider, Oauth, Service}
use skawld_maintenance.Auth.Flows.{Flow, save_flow, consume_flow}
use skawld_maintenance.Auth.Principals.{IdentityClaims, put, resolve_principal}
use skawld_maintenance.Auth.Sessions.{create_session, revoke_session}
use skawld_maintenance.Auth.Bearer.{RawClaims, TokenClaims, claims_from_token, authenticate}
use skawld_maintenance.Auth.Bearer
use skawld_maintenance.Auth.Return.{ParsedUrl, safe_return_to}

-- `Time.Add`
abbrev pub add_duration : Time → ℤ → Time
add_duration t (pos n) = t + n
add_duration t (negsuc n) = t - (n + 1)

-- The path of the one route that leads to `Callback`.
abbrev pub callback_path : String
callback_path = "/auth/callback"

module _ (s : Service) where
  abbrev pub state_name : String
  state_name = s.config.cookie_name <> "_oidc_state"

  -- The cookie that carries the state, and, with "" and -1, the one that removes it.
  abbrev pub state_cookie : String → ℤ → Cookie
  state_cookie value max_age = record {
    name = state_name;
    value = value;
    path = "/auth/callback";
    http_only = true;
    secure = s.config.cookie_secure;
    max_age = max_age;
    expires = none;
  }

  abbrev pub session_cookie : String → ℤ → Option Time → Cookie
  session_cookie value max_age expires = record {
    name = s.config.cookie_name;
    value = value;
    path = "/";
    http_only = true;
    secure = s.config.cookie_secure;
    max_age = max_age;
    expires = expires;
  }

  abbrev pub expired_state : List Cookie
  expired_state = state_cookie "" (negsuc 0) ∷ []

-- The cookie is there and carries the state.
abbrev pub same_state : Option String → String → Bool
same_state none state = false
same_state (some value) state = value == state

module _ (env : Env) (sort : List String → List String) {Token : Type 0} (provider : Provider Token)
    (s : Service) where
  abbrev pub or_driver : Option String → Result String
  or_driver none = err driver
  or_driver (some token) = ok token

  -- `randomToken`
  unfoldable pub random_token : Exec String
  random_token w = (or_driver (provider.random w.calls), tick w)

  -- `oauth2.GenerateVerifier`
  unfoldable pub generate_verifier : Exec String
  generate_verifier w = (ok (provider.generate_verifier w.calls), tick w)

  abbrev pub cannot_start : Failure → Reply
  cannot_start e = reply (http_error [] "cannot start authentication" 500)

  abbrev pub ten_minutes : ℕ
  ten_minutes = 600 * 1000000000

  abbrev pub new_flow : String → String → String → Time → Flow
  new_flow nonce verifier return_to now = record {
    nonce = nonce;
    pkce_verifier = verifier;
    return_to = return_to;
    expires_at = now + ten_minutes;
  }

  -- The end of `Begin`.
  abbrev pub start_login : Request → String → String → String → Reply
  start_login r state nonce verifier = attempt (read_clock env) cannot_start λ now.
      attempt
        (save_flow env state
          (new_flow nonce verifier (safe_return_to provider.parse_url (r.query "return_to")) now))
        cannot_start
        λ _. reply (
          redirect (state_cookie s state (pos 600) ∷ [])
            (provider.location r.path (provider.auth_code_url state nonce verifier)) 302)

  -- `Service.Begin`
  unfoldable pub begin : Request → Reply
  begin r = attempt random_token cannot_start λ state.
      attempt random_token cannot_start λ nonce.
        attempt generate_verifier cannot_start λ verifier. start_login r state nonce verifier

  -- An answer of `Callback` after the state cookie was removed.
  abbrev pub refuse : String → ℕ → Reply
  refuse message status = reply (http_error (expired_state s) message status)

  abbrev pub failed : Failure → Reply
  failed e = refuse "authentication failed" 500

  -- The end of `Callback`: the principal is there, and a session is opened for it.
  unfoldable pub open_session : Flow → Principal → Reply
  open_session flow principal = attempt random_token failed λ token.
      attempt (read_clock env) failed λ now.
        let expires_at = add_duration now s.config.session_ttl in
        attempt (create_session env token principal.id expires_at) failed λ _ w.
          reply
            (redirect
              (expired_state s
                ++ (session_cookie s token (provider.seconds_until w.calls expires_at)
                      (some expires_at)
                    ∷ []))
              (provider.location callback_path flow.return_to) 303)
            w

  abbrev pub after_claims : Flow → Result TokenClaims → Reply
  after_claims flow (err e) = refuse "identity token claims invalid" 401
  after_claims flow (ok claims) =
      if not (claims.nonce == flow.nonce)
      then refuse "identity token claims invalid" 401
      else attempt (resolve_principal env sort s.bootstrap_subjects claims.identity) failed
          λ principal. open_session flow principal

  abbrev pub after_verify : Flow → Option Token → Reply
  after_verify flow none = refuse "identity token invalid" 401
  after_verify flow (some token) = after_claims flow (claims_from_token (provider.decode token))

  abbrev pub after_exchange : Flow → Option (Option String) → Reply
  after_exchange flow none = refuse "authentication failed" 401
  after_exchange flow (some none) = refuse "identity token missing" 401
  after_exchange flow (some (some raw)) = after_verify flow (provider.verify s.web_verifier raw)

  -- `Service.Callback`
  unfoldable pub callback : Request → Reply
  callback r =
      if not (r.query "error" == "")
      then reply (http_error [] "identity provider rejected authentication" 401)
      else if not (same_state (r.cookie (state_name s)) (r.query "state"))
      then reply (http_error [] "invalid authentication browser state" 401)
      else attempt (consume_flow env (r.query "state"))
          (λ _. refuse "invalid or expired authentication flow" 401)
          λ flow. after_exchange flow (provider.exchange (r.query "code") flow.pkce_verifier)

  abbrev pub logged_out : Response
  logged_out = record {
    status = 204;
    headers = [];
    cookies = session_cookie s "" (negsuc 0) none ∷ [];
    body = empty;
  }

  abbrev pub revoke_cookie : Option String → Reply
  revoke_cookie none = reply logged_out
  revoke_cookie (some value) =
      attempt (revoke_session env value) (λ _. reply logged_out) (λ _. reply logged_out)

  -- `Service.Logout`; an error of the revocation is ignored.
  unfoldable pub logout : Request → Reply
  logout r = revoke_cookie (r.cookie s.config.cookie_name)

  -- `Service.authenticate`, at the cookie and the header of a request
  unfoldable pub authenticated : Request → Exec Principal
  unfolding authenticate
  authenticated r =
      authenticate env sort s.bootstrap_subjects (provider.verify s.bearer_verifier) provider.decode
        record { cookie = r.cookie s.config.cookie_name; authorization = r.header "Authorization" }
