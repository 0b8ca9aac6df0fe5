-- ===== src/Audit.antt =====
-- internal/platform/audit/audit.go: the append-only log of what was done.
use skawld_maintenance.Prelude.{String, Option, none, some, [], ◌∷◌, ◌++◌, ◌==◌, any, if◌then◌else◌}
use skawld_maintenance.Json.{Json, null, Fields, obj}
use skawld_maintenance.Identity.Authorization.{Time}
use skawld_maintenance.Database.{Env, Exec, Statement, with_uuid, wrap, execute}
use skawld_maintenance.Database.Schema.{AuditRow}

-- The `any` fields hold what `json.Marshal` makes of them; nil is `none`.
pub record Event : Type 0 where
  pub id : String
  pub organization_id : String
  pub site_id : String
  pub actor_id : String
  pub action : String
  pub entity_kind : String
  pub entity_id : String
  pub reason : String
  pub request_id : String
  pub execution_id : String
  pub workflow_id : String
  pub approval_id : String
  pub ai_involvement : Option Json
  pub before : Option Json
  pub after : Option Json
  pub attributes : Option Fields
  pub occurred_at : Time

-- `jsonOrNull`
abbrev pub json_or_null : Option Json → Json
json_or_null none = null
json_or_null (some value) = value

-- json.Marshal of a map: nil gives null.
abbrev pub marshal_map : Option Fields → Json
marshal_map none = null
marshal_map (some fields) = obj fields

-- SQL's nullif(text, '')
abbrev pub nullif_empty : String → Option String
nullif_empty s = if s == "" then none else some s

-- nullif(text, '')::uuid; the outer `none` is a syntax error.
abbrev pub cast_nullable : Env → String → Option (Option String)
cast_nullable env s =
    if s == "" then some none else with_uuid (env.cast_uuid s) (λ u. some (some u))

abbrev pub audit_row : Event → String → Option String → Option String → Option String → AuditRow
audit_row event id organization_id site_id actor_id = record {
  id = id;
  organization_id = organization_id;
  site_id = site_id;
  actor_id = actor_id;
  action = event.action;
  entity_kind = event.entity_kind;
  entity_id = event.entity_id;
  reason = nullif_empty event.reason;
  request_id = nullif_empty event.request_id;
  execution_id = nullif_empty event.execution_id;
  workflow_id = nullif_empty event.workflow_id;
  approval_id = nullif_empty event.approval_id;
  ai_involvement = json_or_null event.ai_involvement;
  before_value = json_or_null event.before;
  after_value = json_or_null event.after;
  attributes = marshal_map event.attributes;
  occurred_at = event.occurred_at;
}

-- INSERT INTO audit_events; the primary key refuses a second row with the id.
unfoldable pub insert_event : Env → Event → Statement Unit
insert_event env event db = with_uuid (env.cast_uuid event.id) λ id.
    with_uuid (cast_nullable env event.organization_id) λ organization_id.
      with_uuid (cast_nullable env event.site_id) λ site_id.
        with_uuid (cast_nullable env event.actor_id) λ actor_id.
          if any (λ (row : AuditRow). row.id == id) db.audit_events
          then none
          else some (
            tt,
            record db {
              audit_events =
                  db.audit_events ++ audit_row event id organization_id site_id actor_id ∷ [];
            },
          )

-- `Sink.Append`
unfoldable pub append : Env → Event → Exec Unit
unfolding insert_event
append env event = wrap "append audit event" (execute env (insert_event env event))
