-- ===== src/Tests/Login.antt =====
-- A login flow, and a web session that is opened, used and revoked.
use skawld_maintenance.Prelude.{
  String, ◌≡◌, refl, ◌↔◌, ◌⊎◌, true, none, List, [], ◌∷◌, Memᴰ, if◌then◌else◌, ltb,
}
use skawld_maintenance.Errors.{ok, err, text}
use skawld_maintenance.Database.{World, execute, query_row, ◌>>=◌, read_clock, draw_id}
use skawld_maintenance.Database.Runs.{Ran}
use skawld_maintenance.Database.Schema.{MembershipRow, PrincipalRow}
use skawld_maintenance.Idempotency.Bytes.{equal_bytes}
use skawld_maintenance.Identity.Authorization.{Principal, has, permission_workflow_review}
use skawld_maintenance.Auth.Flows.{Flow, save_flow, consume_flow}
use skawld_maintenance.Auth.Flows.Once.{consume_flow_once, consume-save, as_kept}
use skawld_maintenance.Auth.Principals.{IdentityClaims, put, resolve_principal}
use skawld_maintenance.Auth.Principals.Granted.{Grants}
use skawld_maintenance.Auth.Principals.Resolved.{Bootstrapped, resolve_principal-has_iff}
use skawld_maintenance.Auth.Sessions.{
  to_claims, create_session, principal_for_session, revoke_session,
}
use skawld_maintenance.Prelude.{Option, some}
use skawld_maintenance.Prelude.Text.{after_prefix, trim_space}
use skawld_maintenance.Auth.Bearer.{Request, RawClaims, claims_from_token, authenticate}
use skawld_maintenance.Auth.Bearer.Known.{HasSession, IsBearer, authenticate_safe}
use skawld_maintenance.Auth.Sessions.Live.{IsLive, principal_for_session_safe, revoke_session_final}
use skawld_maintenance.Tests.{quiet, start, start_db, ann_row, codes}

abbrev flow : Flow
flow = record { nonce = "n"; pkce_verifier = "v"; return_to = "/"; expires_at = 2000 }

-- A flow with an expiry that a column does not keep whole.
abbrev fine_flow : Flow
fine_flow = record flow { expires_at = 2500 }

abbrev saved : World
unfolding save_flow
saved = (save_flow quiet "state" flow start).1

abbrev used : World
unfolding consume_flow
used = (consume_flow quiet "state" saved).1

consume_run : Ran (consume_flow quiet "state") saved flow used
unfolding saved used save_flow consume_flow execute query_row ◌>>=◌ read_clock equal_bytes
consume_run = refl

consume_flow_once_example : ¬ (Ran (consume_flow quiet "state") used flow used)
consume_flow_once_example =
    consume_flow_once quiet "state" saved flow used consume_run used refl flow used

consume-save_example : consume_flow quiet "state" (save_flow quiet "state" fine_flow start).1 ≡ (
  if ltb 1003 2000 then ok (as_kept quiet "state" fine_flow) else err (text "OIDC flow expired"),
  record start { calls = 4 },
)
consume-save_example = consume-save quiet "state" fine_flow start refl refl refl

abbrev pub senior : MembershipRow
senior = record {
  id = "m";
  principal_id = "ann";
  organization_id = "plant";
  site_id = none;
  role = "Senior Technician";
  created_at = 3;
}

abbrev plant_start : World
plant_start = record start { db = record start_db { memberships = senior ∷ [] } }

abbrev same_order : List String → List String
same_order xs = xs

abbrev opened : World
unfolding create_session
opened = (create_session quiet "token" "ann" 2000 plant_start).1

abbrev ann_resolved : Principal
ann_resolved = record {
  id = "ann";
  external_subject = "oidc-ann";
  display_name = "Ann";
  organization_id = "plant";
  site_ids = none;
  permissions = "workflow:review" ∷ [];
}

abbrev visited : World
unfolding principal_for_session
visited = (principal_for_session quiet same_order [] "token" opened).1

visit_run : Ran (principal_for_session quiet same_order [] "token") opened ann_resolved visited
unfolding opened visited create_session principal_for_session execute query_row ◌>>=◌ read_clock
    draw_id equal_bytes put
visit_run = refl

principal_for_session_safe_example :
    (row : PrincipalRow) × (v : World) × IsLive
      (codes "token")
      (quiet.clock opened.calls)
      opened.db
      row
    × Ran (resolve_principal quiet same_order [] (to_claims row)) v ann_resolved visited
    × (v.db ≡ opened.db)
principal_for_session_safe_example =
    principal_for_session_safe quiet "token" same_order [] opened ann_resolved visited visit_run

abbrev closed : World
unfolding revoke_session
closed = (revoke_session quiet "token" opened).1

close_run : Ran (revoke_session quiet "token") opened tt closed
unfolding opened closed create_session revoke_session execute ◌>>=◌ read_clock equal_bytes
close_run = refl

revoke_session_final_example :
    ¬ (Ran (principal_for_session quiet same_order [] "token") closed ann_resolved closed)
revoke_session_final_example =
    revoke_session_final quiet "token" same_order [] opened closed close_run closed refl
      ann_resolved closed

abbrev ann_claims : IdentityClaims
ann_claims = to_claims ann_row

abbrev resolved : World
unfolding resolve_principal
resolved = (resolve_principal quiet same_order [] ann_claims plant_start).1

resolve_run :
    Ran (resolve_principal quiet same_order [] ann_claims) plant_start ann_resolved resolved
unfolding resolved resolve_principal execute query_row ◌>>=◌ read_clock draw_id put
resolve_run = refl

resolve_principal-has_iff_example : (has ann_resolved permission_workflow_review ≡ true) ↔ (
    ((m : MembershipRow) × Memᴰ m resolved.db.memberships
      × (m.principal_id ≡ "ann")
      × Grants m.role permission_workflow_review)
    ⊎ Bootstrapped quiet same_order [] "oidc-ann" permission_workflow_review)
resolve_principal-has_iff_example =
    resolve_principal-has_iff quiet same_order [] ann_claims plant_start ann_resolved resolved
      resolve_run "ann" refl permission_workflow_review

abbrev with_cookie : Request
with_cookie = record { cookie = some "token"; authorization = "" }

abbrev no_token : String → Option (Unit {0})
no_token s = none

abbrev no_claims : Unit {0} → Option RawClaims
no_claims t = none

cookie_run :
    Ran
      (authenticate quiet same_order [] no_token no_claims with_cookie)
      opened
      ann_resolved
      visited
unfolding authenticate opened visited create_session principal_for_session execute query_row ◌>>=◌
    read_clock draw_id equal_bytes put
cookie_run = refl

authenticate_safe_example :
    HasSession quiet same_order [] no_token no_claims (some "token") opened
    ⊎ IsBearer quiet same_order [] no_token no_claims "" opened ann_resolved visited
authenticate_safe_example =
    authenticate_safe quiet same_order [] no_token no_claims with_cookie opened ann_resolved visited
      cookie_run

-- The row of a principal that was suspended.
abbrev suspended : World
suspended = record plant_start {
  db = record plant_start.db { principals = record ann_row { status = "SUSPENDED" } ∷ [] };
}

abbrev with_bearer : Request
with_bearer = record { cookie = none; authorization = "Bearer t" }

abbrev any_token : String → Option (Unit {0})
any_token s = some tt

abbrev ann_raw : RawClaims
ann_raw = record {
  subject = "oidc-ann";
  name = "Ann";
  preferred_username = "";
  email = "";
  nonce = "";
}

abbrev claims_of : Unit {0} → Option RawClaims
claims_of t = some ann_raw

-- The bearer path gives the principal, although its status is not ACTIVE.
suspended_bearer :
    (authenticate quiet same_order [] any_token claims_of with_bearer suspended).0 ≡ ok ann_resolved
unfolding authenticate claims_from_token after_prefix trim_space resolve_principal execute query_row
    ◌>>=◌ read_clock draw_id put
suspended_bearer = refl
