-- ===== src/HttpServer/Routes.antt =====
-- internal/platform/httpserver/router.go: `New`. The matching of paths is chi's.
use skawld_maintenance.Prelude.{String, Bool, Option, none, some, List, [], ◌∷◌}
use skawld_maintenance.Database.{Env}
use skawld_maintenance.Http.{Request, Response, Info, Reply, reply, live}
use skawld_maintenance.HttpServer.{
  Handler, Dependencies, Decoder, write_json, readiness, current_principal, create_organization,
  get_site, security_headers,
}

-- What a route leads to; `api` is the router that is mounted under /api/v1.
pub data Route : Type 0 where
  live_check ready_check login callback logout api : Route

pub data ApiRoute : Type 0 where
  current create site : ApiRoute

-- The routes as they are registered: method, pattern and handler.
abbrev pub routes : List (String × String × Route)
routes =
    ("GET", "/health/live", live_check)
    ∷ ("GET", "/health/ready", ready_check)
    ∷ ("GET", "/auth/login", login)
    ∷ ("GET", "/auth/callback", callback)
    ∷ ("POST", "/auth/logout", logout)
    ∷ ("*", "/api/v1", api)
    ∷ []

abbrev pub api_routes : List (String × String × ApiRoute)
api_routes =
    ("GET", "/me", current)
    ∷ ("POST", "/organizations", create)
    ∷ ("GET", "/sites/{siteID}", site)
    ∷ []

-- chi: the route of a table that a request takes, with the parameters of its path, at the top and
-- under a mount, and the answer to a request that takes none.
pub record Router : Type 0 where
  pub find : List (String × String × Route) → Request → Option Route
  pub find_mounted :
      List (String × String × ApiRoute) → Request → Option (ApiRoute × (String → String))
  pub unmatched : Request → Response

-- What the server takes from outside: the router, the build's variables, uuid.Parse, the decoder of
-- JSON, the text of a driver's error and sort.Strings.
pub record Libraries : Type 0 where
  pub router : Router
  pub current_build : Info
  pub is_uuid : String → Bool
  pub decoder : Decoder
  pub drivers : String
  pub sort : List String → List String

module _ (env : Env) (l : Libraries) (d : Dependencies) where
  abbrev pub handle_api : ApiRoute → Handler
  handle_api current = current_principal l.sort
  handle_api create = create_organization l.decoder l.drivers d.organizations
  handle_api site = get_site l.is_uuid d.sites

  abbrev pub serve_mounted : Option (ApiRoute × (String → String)) → Handler
  serve_mounted none c r = reply (l.router.unmatched r)
  serve_mounted (some (route, params)) c r = handle_api route record c { url_param = params } r

  -- The function given to `router.Route`.
  unfoldable pub serve_api : Handler
  serve_api = d.auth.middleware λ c r. serve_mounted (l.router.find_mounted api_routes r) c r

  abbrev pub handle : Route → Handler
  handle live_check c r = reply (write_json 200 (live l.current_build))
  handle ready_check c r = readiness env d.database c r
  handle login c r = d.auth.begin r
  handle callback c r = d.auth.callback r
  handle logout c r = d.auth.logout r
  handle api c r = serve_api c r

  abbrev pub serve_found : Option Route → Handler
  serve_found none c r = reply (l.router.unmatched r)
  serve_found (some route) c r = handle route c r

  -- `New`, at a request
  unfoldable pub new : Request → Reply
  unfolding serve_api security_headers
  new r =
      security_headers (λ c r. serve_found (l.router.find routes r) c r)
        record { principal = none; url_param = λ s. "" } r
