-- ===== src/Tests/Api.antt =====
-- A technician with a session asks the server for a site.
use skawld_maintenance.Prelude.{◌==◌, ◌≡◌, refl, true, none, some, [], ◌∷◌, if◌then◌else◌}
use skawld_maintenance.Identity.Service
use skawld_maintenance.Identity.Authorization.{can_access_site, lists_site}
use skawld_maintenance.Identity.SiteReader.{get, cast_all}
use skawld_maintenance.Auth.Principals.{put, resolve_principal}
use skawld_maintenance.Auth.Sessions.{new_session, principal_for_session}
use skawld_maintenance.Auth.Bearer.{authenticate}
use skawld_maintenance.Auth.Login.{authenticated}
use skawld_maintenance.Auth.Middleware.{middleware, authenticator}
use skawld_maintenance.Idempotency.Bytes.{equal_bytes}
use skawld_maintenance.Database.{World, execute, query_row, ◌>>=◌, read_clock, draw_id}
use skawld_maintenance.Http.{Request, attempt, empty}
use skawld_maintenance.HttpServer.{Dependencies, get_site, write_json, principal_from_context}
use skawld_maintenance.HttpServer.Routes.{Router, Libraries, api, new, ApiRoute}
use skawld_maintenance.HttpServer.Access.{IsSiteAnswer, site_visible}
use skawld_maintenance.Tests.{quiet, start_db, codes}
use skawld_maintenance.Tests.Access.{site}
use skawld_maintenance.Tests.Login.{senior}
use skawld_maintenance.Tests.Web.{provider, service, same_order}

abbrev at_plant : World
at_plant = record {
  db = record start_db {
    memberships = record senior { site_id = some "north" } ∷ [];
    web_sessions = new_session (codes "token") "ann" 2000 900 ∷ [];
    sites = site "north" "plant" ∷ [];
  };
  calls = 0;
}

-- chi, at a request for a site.
abbrev router : Router
router = record {
  find = λ table r. some api;
  find_mounted = λ table r. some (ApiRoute.site, λ name. "north");
  unmatched = λ r. record { status = 404; headers = []; cookies = []; body = empty };
}

abbrev libraries : Libraries
libraries = record {
  router = router;
  current_build = record { version = "dev"; commit = "unknown"; built_at = "unknown" };
  is_uuid = λ s. true;
  decoder = record { command = λ limit body. none; at_end = λ limit body. true };
  drivers = "";
  sort = same_order;
}

abbrev dependencies : Dependencies
dependencies = record {
  database = true;
  auth = authenticator quiet same_order provider service;
  organizations = none;
  sites = some (get quiet);
}

abbrev for_site : Request
for_site = record {
  method = "GET";
  path = "/api/v1/sites/north";
  query = λ name. "";
  cookie = λ name. if name == "s" then some "token" else none;
  header = λ name. "";
  body = "";
}

site_status : (new quiet libraries dependencies for_site at_plant).0.status ≡ 200
unfolding new middleware authenticated authenticate principal_for_session resolve_principal attempt
    execute query_row ◌>>=◌ read_clock draw_id equal_bytes put get_site get Service.get_site
    principal_from_context can_access_site lists_site write_json cast_all
site_status = refl

site_visible_example :
    IsSiteAnswer quiet same_order provider service libraries dependencies refl for_site refl
      at_plant refl
      (λ name. "north")
      refl
      (new quiet libraries dependencies for_site at_plant)
site_visible_example =
    site_visible quiet same_order provider service libraries dependencies refl for_site refl
      at_plant refl (λ name. "north") refl site_status
