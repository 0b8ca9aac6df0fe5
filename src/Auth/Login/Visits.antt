-- ===== src/Auth/Login/Visits.antt =====
-- Sequences of calls of the login handlers, and where a login ends in them.
use skawld_maintenance.Prelude.{String, ◌≡◌, sym, ap, List, [], ◌∷◌}
use mathlib.Core.Path.{subst}
use skawld_maintenance.Database.{Env, World}
use skawld_maintenance.Http.{Request, Reply}
use skawld_maintenance.Auth.Return.{IsLocal}
use skawld_maintenance.Auth.Oidc.{Provider, Service}
use skawld_maintenance.Auth.Login.{begin, callback, logout, callback_path}
use skawld_maintenance.Auth.Login.Sessions.{callback_safe}
use skawld_maintenance.Auth.Login.Redirects.{
  FlowsLocal, begin-Keeps, callback-Keeps, revoke_cookie-Keeps,
}

-- One request to the handlers.
pub data Visit : Type 0 where
  login back leave : Request → Visit

module _ (env : Env) (sort : List String → List String) {Token : Type 0} (provider : Provider Token)
    (s : Service) where
  abbrev pub serve : Visit → Reply
  serve (login r) = begin env sort provider s r
  serve (back r) = callback env sort provider s r
  serve (leave r) = logout env sort provider s r

  -- The world after some requests.
  unfoldable pub after : List Visit → World → World
  after [] w = w
  after (v ∷ visits) w = after visits (serve v w).1

  serve_keeps :
      (v : Visit) (w : World)
      → FlowsLocal env sort provider s w.db
      → FlowsLocal env sort provider s (serve v w).1.db
  unfolding logout
  serve_keeps (login r) = (begin-Keeps env sort provider s r).at
  serve_keeps (back r) = (callback-Keeps env sort provider s r).at
  serve_keeps (leave r) =
      (revoke_cookie-Keeps env sort provider s (r.cookie s.config.cookie_name)).at

  after_keeps :
      (visits : List Visit) (w : World)
      → FlowsLocal env sort provider s w.db
      → FlowsLocal env sort provider s (after visits w).db
  unfolding after
  after_keeps [] w h = h
  after_keeps (v ∷ visits) w h = after_keeps visits (serve v w).1 (serve_keeps v w h)

  -- If the saved flows return to local targets, as they do when there are none, then after any
  -- requests to the login, callback and logout handlers a callback that answers 303 has given
  -- http.Redirect a local target: the root, or the request URI of a URL with no scheme and no host,
  -- whose path starts with one slash. Its one header is the Location that http.Redirect makes of
  -- that target for the callback's path.
  pub callback-IsLocal :
      (visits : List Visit) (w : World)
      → FlowsLocal env sort provider s w.db
      → (r : Request)
      → let (x, w') = callback env sort provider s r (after visits w) in
        x.status ≡ 303
        → (target : String) × IsLocal provider.parse_url target
          × (x.headers ≡ (("Location", provider.location callback_path target) ∷ []))
  callback-IsLocal visits w h r e =
      let l = callback_safe env sort provider s r (after visits w) e in
      (
        l.flow.return_to,
        subst (IsLocal provider.parse_url) (sym (ap (λ f. f.return_to) l.consumed.result))
            (after_keeps visits w h l.consumed.row l.consumed.mem),
        l.opened.target,
      )
