-- ===== src/Database/Schema.antt =====
-- The tables of migrations/00001_foundation.sql, with the columns that the program reads or writes.
-- A uuid column holds the canonical text of the uuid; a nullable column is an Option.
use skawld_maintenance.Prelude.{ℕ, String, Option, List, []}
use skawld_maintenance.Json.{Json}
use skawld_maintenance.Identity.Authorization.{Time}

pub record OrganizationRow : Type 0 where
  pub id : String
  pub name : String
  pub source_of_truth : String
  pub version : ℕ
  pub created_at : Time
  pub updated_at : Time

pub record SiteRow : Type 0 where
  pub id : String
  pub organization_id : String
  pub code : String
  pub name : String
  pub timezone : String
  pub status : String

pub record PrincipalRow : Type 0 where
  pub id : String
  pub external_subject : String
  pub display_name : String
  pub email : Option String
  pub status : String
  pub created_at : Time
  pub updated_at : Time

pub record MembershipRow : Type 0 where
  pub id : String
  pub principal_id : String
  pub organization_id : String
  pub site_id : Option String
  pub role : String
  pub created_at : Time

pub record FlowRow : Type 0 where
  pub state_hash : List ℕ
  pub nonce : String
  pub pkce_verifier : String
  pub return_to : String
  pub expires_at : Time
  pub created_at : Time

pub record SessionRow : Type 0 where
  pub token_hash : List ℕ
  pub principal_id : String
  pub expires_at : Time
  pub created_at : Time
  pub last_seen_at : Time
  pub revoked_at : Option Time

pub record KeyRow : Type 0 where
  pub principal_id : String
  pub scope : String
  pub idempotency_key : String
  pub request_hash : List ℕ
  pub status : String
  pub response_status : Option ℕ
  pub response_body : Option Json
  pub created_at : Time
  pub completed_at : Option Time

pub record AuditRow : Type 0 where
  pub id : String
  pub organization_id : Option String
  pub site_id : Option String
  pub actor_id : Option String
  pub action : String
  pub entity_kind : String
  pub entity_id : String
  pub reason : Option String
  pub request_id : Option String
  pub execution_id : Option String
  pub workflow_id : Option String
  pub approval_id : Option String
  pub ai_involvement : Json
  pub before_value : Json
  pub after_value : Json
  pub attributes : Json
  pub occurred_at : Time

pub record Db : Type 0 where
  pub organizations : List OrganizationRow
  pub sites : List SiteRow
  pub principals : List PrincipalRow
  pub memberships : List MembershipRow
  pub auth_flows : List FlowRow
  pub web_sessions : List SessionRow
  pub idempotency_keys : List KeyRow
  pub audit_events : List AuditRow

abbrev pub empty_db : Db
empty_db = record {
  organizations = [];
  sites = [];
  principals = [];
  memberships = [];
  auth_flows = [];
  web_sessions = [];
  idempotency_keys = [];
  audit_events = [];
}
