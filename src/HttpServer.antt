-- ===== src/HttpServer.antt =====
-- internal/platform/httpserver: the routes, the handlers of the API and what stands around them.
-- What net/http, chi, encoding/json and uuid do is a parameter. The access log and the request id are
-- not modelled. A response has the headers that the program sets.
pub mod Routes
pub mod Access
pub mod Failures
pub mod Creating
use skawld_maintenance.Prelude.{
  ℕ, ◌*◌, ◌++◌, String, ◌<>◌, ◌==◌, Bool, true, false, ◌||◌, not, Option, none, some, List, [], ◌∷◌,
  if◌then◌else◌,
}
use skawld_maintenance.Prelude.Text.{trim_space}
use skawld_maintenance.Errors.{
  Failure, Sentinel, sentinel, no_rows, text, wrapped, driver, permission_denied, idempotency_key,
  invalid_organization, site_not_found, key_conflict, in_progress, errors_is,
}
use skawld_maintenance.Identity.Authorization.{Principal}
use skawld_maintenance.Identity.Service.{
  CreateOrganization, CreateOrganizationResult, Created, AtomicOrganizationStore, Site, SiteReader,
}
use skawld_maintenance.Identity.Service
use skawld_maintenance.Database.{Env, World, Exec, execute}
use skawld_maintenance.Http.{
  Request, Response, Problem, Body, problem, organization, site, me, live, ready, Info, Me, Reply,
  reply, attempt,
}

-- Context values: the principal, and chi's parameters of the path.
pub record Context : Type 0 where
  pub principal : Option Principal
  pub url_param : String → String

abbrev pub Handler : Type 0
Handler = Context → Request → Reply

-- `Authenticator`
pub record Authenticator : Type 0 where
  pub begin : Request → Reply
  pub callback : Request → Reply
  pub logout : Request → Reply
  pub middleware : Handler → Handler

-- `Dependencies`: whether there is a pool, and the services by their one field.
pub record Dependencies : Type 0 where
  pub database : Bool
  pub auth : Authenticator
  pub organizations : Option AtomicOrganizationStore
  pub sites : Option SiteReader

-- `writeProblem`
unfoldable pub write_problem : ℕ → String → String → Response
write_problem status title detail = record {
  status = status;
  headers = ("Content-Type", "application/problem+json") ∷ [];
  cookies = [];
  body = problem record { kind = "about:blank"; title = title; status = status; detail = detail };
}

-- `writeJSON`
unfoldable pub write_json : ℕ → Body → Response
write_json status value = record {
  status = status;
  headers = ("Content-Type", "application/json") ∷ [];
  cookies = [];
  body = value;
}

-- `w.Header().Set`, at a name that is not set twice.
abbrev pub set_header : String → String → Response → Response
set_header name value r = record r { headers = (name, value) ∷ r.headers }

-- `WithPrincipal`
unfoldable pub with_principal : Context → Principal → Context
with_principal c principal = record c { principal = some principal }

abbrev pub given : Option Principal → Option Principal
given none = none
given (some principal) = if principal.id == "" then none else some principal

-- `PrincipalFromContext`
unfoldable pub principal_from_context : Context → Option Principal
principal_from_context c = given c.principal

-- `principal, ok := …; if !ok { … }`
abbrev pub with_given : Option Principal → (Principal → Reply) → Reply
with_given none next = reply (write_problem 401 "Unauthorized" "principal is missing")
with_given (some principal) next = next principal

abbrev pub sentinel_text : Sentinel → String
sentinel_text permission_denied = "permission denied"
sentinel_text idempotency_key = "idempotency key must contain 8 to 200 characters"
sentinel_text invalid_organization = "organization name is required"
sentinel_text site_not_found = "site not found"
sentinel_text key_conflict = "idempotency key was already used with a different request"
sentinel_text in_progress = "idempotent operation is still processing"

-- `err.Error()`, where a driver's error has the given text.
unfoldable pub error_text : String → Failure → String
error_text drivers (sentinel s) = sentinel_text s
error_text drivers no_rows = "no rows in result set"
error_text drivers (text m) = m
error_text drivers (wrapped m e) = m <> ": " <> error_text drivers e
error_text drivers driver = drivers

abbrev pub could_not_complete : Response
could_not_complete = write_problem 500 "Internal Server Error" "request could not be completed"

-- The error of `service.Get`.
unfoldable pub site_failed : Failure → Response
unfolding write_problem errors_is
site_failed e =
    if errors_is e site_not_found
    then write_problem 404 "Not Found" "site was not found"
    else could_not_complete

-- `getSite`, where uuid.Parse accepts some texts.
unfoldable pub get_site : (String → Bool) → Option SiteReader → Handler
unfolding principal_from_context write_problem write_json attempt site_failed Service.get_site
get_site is_uuid service c r = with_given (principal_from_context c) λ principal.
    if not (is_uuid (c.url_param "siteID"))
    then reply (write_problem 400 "Invalid Request" "site ID must be a UUID")
    else attempt (Service.get_site service principal (c.url_param "siteID"))
        (λ e. reply (site_failed e)) λ found. reply (write_json 200 (site found))

-- `readiness`: the ping is a statement that does nothing.
unfoldable pub readiness : Env → Bool → Handler
unfolding write_problem write_json attempt execute
readiness env pool c r =
    if not pool
    then reply (write_problem 503 "Not Ready" "database is unavailable")
    else attempt (execute env λ db. some (tt, db))
        (λ _. reply (write_problem 503 "Not Ready" "database is unavailable"))
        λ _. reply (write_json 200 ready)

-- `currentPrincipal`
unfoldable pub current_principal : (List String → List String) → Handler
unfolding principal_from_context write_problem write_json
current_principal sort c r = with_given (principal_from_context c) λ principal. reply (
    write_json 200 (
      me record {
        id = principal.id;
        external_subject = principal.external_subject;
        display_name = principal.display_name;
        organization_id = principal.organization_id;
        site_ids = principal.site_ids;
        permissions = sort principal.permissions;
      }))

-- encoding/json over http.MaxBytesReader: the command in the first value of a body of at most so many
-- bytes (`none`: an error, also for an unknown field), and whether the second `Decode` gives io.EOF.
pub record Decoder : Type 0 where
  pub command : ℕ → String → Option CreateOrganization
  pub at_end : ℕ → String → Bool

abbrev pub maximum_bytes : ℕ
maximum_bytes = 64 * 1024

-- The answer to what `service.Create` returned.
unfoldable pub created : Created → Response
unfolding write_json
created (result, replay) =
    if replay
    then set_header "Idempotent-Replayed" "true" (write_json 200 (organization result))
    else write_json 201 (organization result)

unfoldable pub creation_failed : String → Failure → Response
unfolding write_problem errors_is error_text
creation_failed drivers e =
    if errors_is e permission_denied
    then write_problem 403 "Forbidden" "permission denied"
    else if errors_is e idempotency_key || errors_is e invalid_organization
    then write_problem 400 "Invalid Request" (error_text drivers e)
    else if errors_is e key_conflict
    then write_problem 409 "Idempotency Conflict" (error_text drivers e)
    else could_not_complete

module _ (decoder : Decoder) (drivers : String) (service : Option AtomicOrganizationStore) where
  abbrev pub create_decoded : Principal → Request → Option CreateOrganization → Reply
  create_decoded principal r none =
      reply (write_problem 400 "Invalid Request" "request body must match the schema")
  create_decoded principal r (some command) =
      if not (decoder.at_end maximum_bytes r.body)
      then reply (write_problem 400 "Invalid Request" "request body must contain one JSON object")
      else attempt
          (Service.create service principal (trim_space (r.header "Idempotency-Key")) command)
          (λ e. reply (creation_failed drivers e)) λ result. reply (created result)

  -- `createOrganization`
  unfoldable pub create_organization : Handler
  unfolding principal_from_context write_problem attempt creation_failed created Service.create
      trim_space
  create_organization c r =
      with_given (principal_from_context c)
        λ principal. create_decoded principal r (decoder.command maximum_bytes r.body)

-- `securityHeaders`
unfoldable pub security_headers : Handler → Handler
security_headers next c r w =
    let (answer, w') = next c r w in
    (
      set_header "X-Content-Type-Options" "nosniff" (
          set_header "X-Frame-Options" "DENY" (
            set_header "Referrer-Policy" "no-referrer" (
              set_header "Content-Security-Policy" "default-src 'none'; frame-ancestors 'none'"
                answer))),
      w',
    )
