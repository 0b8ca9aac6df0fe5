-- ===== src/Auth/Login/Opening.antt =====
-- The end of a callback, which opens the session.
use skawld_maintenance.Prelude.{◌++◌, String, ◌≡◌, refl, sym, ap, ◌∙◌, some, List, [], ◌∷◌, arith}
use mathlib.Core.Path.{subst}
use skawld_maintenance.Identity.Authorization.{Principal, Time}
use skawld_maintenance.Database.{Env, World, read_clock}
use skawld_maintenance.Database.Runs.{Ran}
use skawld_maintenance.Http.{Response, attempt_status}
use skawld_maintenance.Auth.Flows.{Flow}
use skawld_maintenance.Auth.Sessions.{create_session}
use skawld_maintenance.Auth.Oidc.{Provider, Service}
use skawld_maintenance.Auth.Login.{
  random_token, add_duration, expired_state, session_cookie, open_session, callback_path,
}

pub status_of : {x y : Response × World} → x ≡ y → y.0.status ≡ 303 → x.0.status ≡ 303
status_of e h = ap (λ (x : Response × World). x.0.status) e ∙ h

module _ (env : Env) (sort : List String → List String) {Token : Type 0} (provider : Provider Token)
    (s : Service) where
  -- A session was opened for a principal, under a token that was drawn and is handed out.
  pub record IsOpened (flow : Flow) (principal : Principal) (w : World) (x : Response × World)
      : Type 0 where
    pub token : String
    pub v1 : World
    pub drawn : Ran (random_token env sort provider s) w token v1
    pub now : Time
    pub v2 : World
    pub read : Ran (read_clock env) v1 now v2
    pub stored :
        Ran
          (create_session env token principal.id (add_duration now s.config.session_ttl))
          v2
          tt
          x.1
    pub cookies :
        x.0.cookies
        ≡ expired_state s
          ++ (session_cookie s token
                (provider.seconds_until x.1.calls (add_duration now s.config.session_ttl))
                (some (add_duration now s.config.session_ttl))
              ∷ [])
    pub target : x.0.headers ≡ (("Location", provider.location callback_path flow.return_to) ∷ [])

  pub open_session_lem :
      (flow : Flow) (principal : Principal) (w : World)
      → (open_session env sort provider s flow principal w).0.status ≡ 303
      → IsOpened flow principal w (open_session env sort provider s flow principal w)
  unfolding open_session
  open_session_lem flow principal w h =
      let (token, v1, drawn, a1) = attempt_status _ _ _ w 303 (λ e v. omega arith) h in
      let (now, v2, r2, a2) =
        attempt_status _ _ _ v1 303 (λ e v. omega arith) (status_of (sym a1) h) in
      let (_, v3, stored, a3) =
        attempt_status _ _ _ v2 303 (λ e v. omega arith) (status_of (sym (a1 ∙ a2)) h) in
      subst (IsOpened flow principal w) (sym (a1 ∙ a2 ∙ a3)) record {
        token = token;
        v1 = v1;
        drawn = drawn;
        now = now;
        v2 = v2;
        read = r2;
        stored = stored;
        cookies = refl;
        target = refl;
      }
