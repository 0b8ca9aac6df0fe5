-- ===== src/Tests/Web.antt =====
-- A login through the handlers, and a logout.
use skawld_maintenance.Prelude.{
  String, ◌==◌, ◌≡◌, refl, true, false, none, some, List, [], ◌∷◌, if◌then◌else◌,
}
use skawld_maintenance.Prelude.Int.{pos}
use skawld_maintenance.Config.Settings.{Auth}
use skawld_maintenance.Identity.Authorization.{Principal}
use skawld_maintenance.Database.{World, execute, query_row, ◌>>=◌, read_clock, draw_id}
use skawld_maintenance.Database.Runs.{Ran}
use skawld_maintenance.Idempotency.Bytes.{equal_bytes}
use skawld_maintenance.Http.{Request, Response, attempt}
use skawld_maintenance.Auth.Flows.{save_flow, consume_flow}
use skawld_maintenance.Auth.Principals.{put, resolve_principal}
use skawld_maintenance.Auth.Sessions.{create_session, principal_for_session}
use skawld_maintenance.Auth.Bearer.{RawClaims, claims_from_token}
use skawld_maintenance.Prelude.Text.{trim_space, has_prefix}
use skawld_maintenance.Auth.Return.{IsLocal, safe_return_to}
use skawld_maintenance.Auth.Oidc.{Provider, Service}
use skawld_maintenance.Auth.Login.{
  begin, callback, logout, random_token, generate_verifier, open_session, callback_path,
}
use skawld_maintenance.Auth.Login.Visits.{login, after, callback-IsLocal}
use skawld_maintenance.Auth.Login.Leaving.{logout_final}
use skawld_maintenance.Tests.{quiet, start, name_of}

abbrev pub ann_identity : RawClaims
ann_identity = record {
  subject = "oidc-ann";
  name = "Ann";
  preferred_username = "";
  email = "";
  nonce = "un";
}

-- A provider that knows Ann, and under which every URL is the same local one.
abbrev pub provider : Provider (Unit {0})
provider = record {
  random = λ n. some (name_of n);
  generate_verifier = λ n. "v";
  parse_url = λ s. some record { is_abs = false; host = ""; path = "/home"; request_uri = "/home" };
  auth_code_url = λ state nonce verifier. "https://login";
  exchange = λ code verifier. some (some "raw");
  verify = λ client raw. some tt;
  decode = λ t. some ann_identity;
  seconds_until = λ n t. pos 0;
  location = λ path target. target;
}

abbrev pub settings : Auth
settings = record {
  issuer_url = "https://login";
  client_id = "web";
  client_secret = "secret";
  audience = "";
  redirect_url = "https://app/auth/callback";
  cookie_name = "s";
  cookie_secure = true;
  session_ttl = pos 1000000;
  bootstrap_subjects = none;
}

abbrev pub service : Service
service = record {
  config = settings;
  oauth = record {
    client_id = "web";
    client_secret = "secret";
    redirect_url = "https://app/auth/callback";
    scopes = "openid" ∷ [];
  };
  web_verifier = "web";
  bearer_verifier = "web";
  bootstrap_subjects = [];
}

abbrev pub same_order : List String → List String
same_order xs = xs

abbrev to_login : Request
to_login = record {
  method = "GET";
  path = "/auth/login";
  query = λ name. if name == "return_to" then "/home" else "";
  cookie = λ name. none;
  header = λ name. "";
  body = "";
}

abbrev coming_back : Request
coming_back = record {
  method = "GET";
  path = "/auth/callback";
  query = λ name. if name == "state" then "n" else "";
  cookie = λ name. if name == "s_oidc_state" then some "n" else none;
  header = λ name. "";
  body = "";
}

abbrev began : World
began = (begin quiet same_order provider service to_login start).1

abbrev entered : Response × World
entered = callback quiet same_order provider service coming_back began

visits_status :
    (callback quiet same_order provider service coming_back
      (after quiet same_order provider service (login to_login ∷ []) start)).0.status
    ≡ 303
unfolding after attempt begin callback random_token generate_verifier open_session save_flow
    consume_flow resolve_principal create_session execute query_row ◌>>=◌ read_clock draw_id
    equal_bytes put claims_from_token trim_space safe_return_to has_prefix
visits_status = refl

callback-IsLocal_example :
    (target : String) × IsLocal provider.parse_url target
    × ((callback quiet same_order provider service coming_back
          (after quiet same_order provider service (login to_login ∷ []) start)).0.headers
        ≡ (("Location", provider.location callback_path target) ∷ []))
callback-IsLocal_example =
    callback-IsLocal quiet same_order provider service (login to_login ∷ []) start
      (λ row m. elim m [ ]) coming_back visits_status

abbrev leaving : Request
leaving = record {
  method = "POST";
  path = "/auth/logout";
  query = λ name. "";
  cookie = λ name. if name == "s" then some "token" else none;
  header = λ name. "";
  body = "";
}

abbrev left : World
left = (logout quiet same_order provider service leaving start).1

abbrev nobody : Principal
nobody = record {
  id = "ann";
  external_subject = "";
  display_name = "";
  organization_id = "";
  site_ids = none;
  permissions = [];
}

logout_final_example : ¬ (Ran (principal_for_session quiet same_order [] "token") left nobody left)
logout_final_example =
    logout_final quiet same_order provider service leaving "token" start refl refl left refl nobody
      left
