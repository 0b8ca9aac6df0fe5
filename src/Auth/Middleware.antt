-- ===== src/Auth/Middleware.antt =====
-- internal/platform/auth/oidc.go: the service as the authenticator of the HTTP server.
use skawld_maintenance.Prelude.{String, List, [], ◌∷◌}
use skawld_maintenance.Database.{Env}
use skawld_maintenance.Http.{Response, reply, problem, attempt}
use skawld_maintenance.HttpServer.{Handler, Authenticator, with_principal}
use skawld_maintenance.Auth.Oidc.{Provider, Service}
use skawld_maintenance.Auth.Login.{begin, callback, logout, authenticated}

abbrev pub unauthorized : Response
unauthorized = record {
  status = 401;
  headers = ("Content-Type", "application/problem+json") ∷ [];
  cookies = [];
  body = problem record { kind = "about:blank"; title = "Unauthorized"; status = 401; detail = "" };
}

module _ (env : Env) (sort : List String → List String) {Token : Type 0} (provider : Provider Token)
    (s : Service) where
  -- `Service.Middleware`
  unfoldable pub middleware : Handler → Handler
  unfolding attempt authenticated with_principal
  middleware next c r =
      attempt (authenticated env sort provider s r) (λ _. reply unauthorized)
        λ principal. next (with_principal c principal) r

  abbrev pub authenticator : Authenticator
  authenticator = record {
    begin = begin env sort provider s;
    callback = callback env sort provider s;
    logout = logout env sort provider s;
    middleware = middleware;
  }
