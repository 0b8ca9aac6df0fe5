-- ===== src/Identity/OrganizationStore.antt =====
-- internal/identity/adapter/postgres/organization_store.go: an organization, its first membership,
-- the audit event and the stored response are written in one transaction.
pub mod Written
pub mod Writes
pub mod Once
pub mod Sound
pub mod Response
pub mod Replay
use Prim.Native.Char.{code}
use skawld_maintenance.Prelude.{
  ℕ, String, Bool, true, false, not, ◌||◌, ◌&&◌, Option, none, some, List, [], ◌∷◌, ◌++◌, ◌==◌,
  nat_eq, any, ltb, if◌then◌else◌,
}
use skawld_maintenance.Json.{Json}
use skawld_maintenance.Errors.{text, wrapped, driver, Failure}
use skawld_maintenance.Integration.{owned_by_skawld}
use skawld_maintenance.Database.{
  Env, Exec, Statement, with_uuid, pure, fail, wrap, ◌>>=◌, ◌>>◌, read_clock, draw_id, execute,
  in_tx,
}
use skawld_maintenance.Database.Schema.{Db, OrganizationRow, MembershipRow, PrincipalRow}
use skawld_maintenance.Idempotency
use skawld_maintenance.Idempotency.{Record, hash_request}
use skawld_maintenance.Audit
use skawld_maintenance.Audit.{Event}
use skawld_maintenance.Identity.Authorization.{Principal, Time}
use skawld_maintenance.Identity.Organization.{
  Organization, OrganizationError, id_required, name_required, NewResult, created, failed,
  new_organization,
}
use skawld_maintenance.Identity.Service.{
  CreateOrganization, CreateOrganizationResult, Created, encode_command, encode_result,
  decode_result,
}

abbrev pub create_organization_scope : String
create_organization_scope = "identity.organization.create.v1"

-- Whether the store's pool, generator and clock are there.
pub record OrganizationStore : Type 0 where
  pub pool : Bool
  pub ids : Bool
  pub clock : Bool

-- SQL's btrim(name) = '': nothing but spaces
abbrev pub only_spaces : String → Bool
only_spaces String.[] = true
only_spaces (String.◌∷◌ c s) = nat_eq (code c) b' ' && only_spaces s

-- whether a text has U+0000
abbrev pub has_zero : String → Bool
has_zero String.[] = false
has_zero (String.◌∷◌ c s) = nat_eq (code c) 0 || has_zero s

abbrev pub organization_row : String → Organization → OrganizationRow
organization_row id o = record {
  id = id;
  name = o.name;
  source_of_truth = o.source_of_truth;
  version = o.version;
  created_at = o.created_at;
  updated_at = o.updated_at;
}

module _ (env : Env) where
  -- INSERT INTO organizations: the primary key, the checks of the name and of the version, no
  -- U+0000, which a text cannot hold, and the check that a row with no external columns is owned by this system.
  unfoldable pub insert_organization : Organization → Statement Unit
  insert_organization o db = with_uuid (env.cast_uuid o.id) λ id.
      if any (λ (row : OrganizationRow). row.id == id) db.organizations
        || only_spaces o.name
        || has_zero o.name
        || not (o.source_of_truth == owned_by_skawld)
        || not (ltb 0 o.version)
      then none
      else some (tt, record db { organizations = db.organizations ++ organization_row id o ∷ [] })

  abbrev pub administrator_row : String → String → String → Time → MembershipRow
  administrator_row id principal_id organization_id now = record {
    id = id;
    principal_id = principal_id;
    organization_id = organization_id;
    site_id = none;
    role = "Administrator";
    created_at = now;
  }

  -- INSERT INTO memberships … ON CONFLICT DO NOTHING. The unique key over (principal_id,
  -- organization_id, site_id, role) never meets a NULL site, so that only the id can conflict; the
  -- foreign keys want the principal and the organization.
  unfoldable pub insert_administrator : String → String → String → Time → Statement Unit
  insert_administrator id' principal_id' organization_id' now db =
      with_uuid (env.cast_uuid id') λ id. with_uuid (env.cast_uuid principal_id') λ principal_id.
        with_uuid (env.cast_uuid organization_id') λ organization_id.
          if any (λ (row : MembershipRow). row.id == id) db.memberships
          then some (tt, db)
          else if not (any (λ (row : PrincipalRow). row.id == principal_id) db.principals)
              || not (any (λ (row : OrganizationRow). row.id == organization_id) db.organizations)
          then none
          else some (
            tt,
            record db {
              memberships =
                  db.memberships ++ administrator_row id principal_id organization_id now ∷ [];
            },
          )

  -- The event of a new organization.
  abbrev pub created_event : String → String → Organization → Json → Time → Event
  created_event id actor_id organization after now = record {
    id = id;
    organization_id = organization.id;
    site_id = "";
    actor_id = actor_id;
    action = "organization.created";
    entity_kind = "organization";
    entity_id = organization.id;
    reason = "";
    request_id = "";
    execution_id = "";
    workflow_id = "";
    approval_id = "";
    ai_involvement = none;
    before = none;
    after = some after;
    attributes = none;
    occurred_at = now;
  }

  abbrev pub to_result : Organization → CreateOrganizationResult
  to_result o = record {
    id = o.id;
    name = o.name;
    source_of_truth = o.source_of_truth;
    version = o.version;
  }

  abbrev pub organization_error : OrganizationError → Failure
  organization_error id_required = text "organization ID is required"
  organization_error name_required = text "organization name is required"

  abbrev pub checked : NewResult → Exec Organization
  checked (created o) = pure o
  checked (failed e) = fail (organization_error e)

  -- The response to a request that was done before.
  abbrev pub replayed : Option CreateOrganizationResult → Exec Created
  replayed none = fail (wrapped "decode idempotent response" driver)
  replayed (some result) = pure (result, true)

  -- The rest of the transaction, once the organization is there.
  unfoldable pub write : String → String → Organization → Time → Exec Created
  write principal_id key organization now = do
    wrap "insert organization" (execute env (insert_organization organization))
    membership_id ← draw_id env
    wrap "insert bootstrap administrator membership"
        (execute env (insert_administrator membership_id principal_id organization.id now))
    event_id ← draw_id env
    Audit.append env (
        created_event event_id principal_id organization (encode_result (to_result organization))
          now)
    Idempotency.complete env principal_id create_organization_scope key 201
        (encode_result (to_result organization)) now
    pure (to_result organization, false)

  -- The body of the transaction after `Begin`.
  unfoldable pub resume : Principal → String → CreateOrganization → Time → Record → Exec Created
  unfolding write
  resume principal key command now stored =
      if stored.replay then replayed (decode_result stored.response_body) else do
        id ← draw_id env
        organization ← checked (new_organization id command.name now)
        write principal.id key organization now

  -- The body of the transaction.
  unfoldable pub create_in_tx : Principal → String → CreateOrganization → Exec Created
  unfolding resume
  create_in_tx principal key command = do
    now ← read_clock env
    stored ←
        Idempotency.begin env principal.id create_organization_scope key
          (hash_request env (encode_command command)) now
    resume principal key command now stored

  -- `OrganizationStore.Create`
  unfoldable pub create : OrganizationStore → Principal → String → CreateOrganization → Exec Created
  unfolding create_in_tx
  create store principal key command =
      if not store.pool || not store.ids || not store.clock
      then fail (text "organization store dependencies are required")
      else in_tx env (create_in_tx principal key command)
