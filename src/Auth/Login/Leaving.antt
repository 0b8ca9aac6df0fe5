-- ===== src/Auth/Login/Leaving.antt =====
-- What a logout leaves behind.
use skawld_maintenance.Prelude.{◌+◌, String, ◌≡◌, refl, ◌∙◌, some, List}
use skawld_maintenance.Identity.Authorization.{Principal}
use skawld_maintenance.Database.{Env, World, answered, refused, read_clock, execute, wrap, ◌>>=◌}
use skawld_maintenance.Database.Runs.{Ran}
use skawld_maintenance.Http.{Request, attempt}
use skawld_maintenance.Auth.Sessions.{update_revoked, revoke_session, principal_for_session}
use skawld_maintenance.Auth.Sessions.Live.{revoke_session_final}
use skawld_maintenance.Auth.Oidc.{Provider, Service}
use skawld_maintenance.Auth.Login.{logged_out, logout}

module _ (env : Env) (sort : List String → List String) {Token : Type 0} (provider : Provider Token)
    (s : Service) (r : Request) (token : String) (w : World) where
  module _ (named : r.cookie s.config.cookie_name ≡ some token) where
    -- If the server answers the statement of a logout, no session under the token of its cookie
    -- authenticates afterwards, from whatever state in which the sessions are as the logout left them.
    pub logout_final :
        env.fate (w.calls + 1) ≡ answered
        → (v : World) → v.db.web_sessions ≡ (logout env sort provider s r w).1.db.web_sessions
        → (p : Principal) (v' : World)
        → ¬ (Ran (principal_for_session env sort s.bootstrap_subjects token) v p v')
    unfolding logout attempt revoke_session update_revoked read_clock execute wrap ◌>>=◌
    logout_final fate v same p v' =
        revoke_session_final env token sort s.bootstrap_subjects w (revoke_session env token w).1
          (rw fate refl) v (same ∙ rw (named, fate) refl) p v'

    -- If the server refuses the statement of a logout, the answer is the one of a logout that was
    -- carried out: the status is 204, the cookie is removed, and the tables are as they were.
    pub logout_silent :
        env.fate (w.calls + 1) ≡ refused
        → ((logout env sort provider s r w).0 ≡ logged_out env sort provider s)
          × ((logout env sort provider s r w).1.db ≡ w.db)
    unfolding logout attempt revoke_session update_revoked read_clock execute wrap ◌>>=◌
    logout_silent fate = (rw (named, fate) refl, rw (named, fate) refl)
