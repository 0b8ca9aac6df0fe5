-- ===== src/Auth/Principals.antt =====
-- internal/platform/auth/repository.go: the principal that stands behind an OIDC subject. A map with
-- keys and no values is the list of its keys.
pub mod Granted
pub mod Resolved
use skawld_maintenance.Prelude.{
  ℕ, String, Bool, true, false, ◌&&◌, ◌||◌, not, Option, none, some, List, [], ◌∷◌, ◌++◌, ◌==◌, any,
  find, select, update, leb, ltb, is_empty, if◌then◌else◌,
}
use skawld_maintenance.Errors.{text}
use skawld_maintenance.Audit.{nullif_empty}
use skawld_maintenance.Idempotency.Bytes.{equal_bytes}
use skawld_maintenance.Identity.Authorization.{
  Time, Principal, Permission, is_nil, permission_organization_create, permission_workflow_review,
  permission_workflow_publish, permission_report_approve,
}
use skawld_maintenance.Database.{
  Env, Exec, Statement, with_uuid, pure, fail, wrap, ◌>>=◌, execute, query_row, read_clock, draw_id,
}
use skawld_maintenance.Database.Schema.{Db, FlowRow, PrincipalRow, MembershipRow, SessionRow}

pub record IdentityClaims : Type 0 where
  pub subject : String
  pub display_name : String
  pub email : String

abbrev pub has_subject : String → PrincipalRow → Bool
has_subject subject row = row.external_subject == subject

abbrev pub new_principal : String → IdentityClaims → Time → PrincipalRow
new_principal id claims now = record {
  id = id;
  external_subject = claims.subject;
  display_name = claims.display_name;
  email = nullif_empty claims.email;
  status = "ACTIVE";
  created_at = now;
  updated_at = now;
}

abbrev pub refreshed : IdentityClaims → Time → PrincipalRow → PrincipalRow
refreshed claims now row = record row {
  display_name = claims.display_name;
  email = nullif_empty claims.email;
  updated_at = now;
}

abbrev pub principal_id : PrincipalRow → String
principal_id row = row.id

-- INSERT INTO principals … ON CONFLICT (external_subject) DO UPDATE … RETURNING id; the primary key
-- refuses a new row with the id of another one.
unfoldable pub upsert_principal : Env → String → IdentityClaims → Time → Statement (Option String)
upsert_principal env id claims now db = with_uuid (env.cast_uuid id) λ uuid.
    elim (find (has_subject claims.subject) db.principals) [
      | some row ↦ some (
        some row.id,
        record db {
          principals = update (has_subject claims.subject) (refreshed claims now) db.principals;
        },
      )
      | none ↦
          if any (λ (row : PrincipalRow). row.id == uuid) db.principals
          then none
          else some (
            some uuid,
            record db { principals = db.principals ++ (new_principal uuid claims now ∷ []) },
          )
    ]

-- ORDER BY created_at; rows of one instant keep the order of the table.
unfoldable pub insert_by_time : MembershipRow → List MembershipRow → List MembershipRow
insert_by_time row [] = row ∷ []
insert_by_time row (m ∷ rest) =
    let later = insert_by_time row rest in
    if leb row.created_at m.created_at then row ∷ m ∷ rest else m ∷ later

unfoldable pub order_by_time : List MembershipRow → List MembershipRow
unfolding insert_by_time
order_by_time [] = []
order_by_time (m ∷ rest) = insert_by_time m (order_by_time rest)

unfoldable pub select_memberships : Env → String → Statement (List MembershipRow)
unfolding order_by_time
select_memberships env principal db = with_uuid (env.cast_uuid principal) λ uuid.
    some (
      order_by_time (select (λ (row : MembershipRow). row.principal_id == uuid) db.memberships),
      db,
    )

-- Assignment to a key of a map to `struct{}`.
unfoldable pub put : String → List String → List String
put key keys = if any (λ q. q == key) keys then keys else key ∷ keys

unfoldable pub add_role_permissions : List Permission → String → List Permission
add_role_permissions target role =
    if role == "Administrator"
    then put permission_report_approve (
        put permission_workflow_publish
          (put permission_workflow_review (put permission_organization_create target)))
    else if role == "Maintenance Supervisor"
    then put permission_report_approve (put permission_workflow_review target)
    else if role == "Senior Technician"
    then put permission_workflow_review target
    else target

-- What the loop over the memberships has gathered.
pub record Gathered : Type 0 where
  pub organization_id : String
  pub site_set : List String
  pub permissions : List Permission

-- coalesce(site_id::text, '')
abbrev pub coalesce_empty : Option String → String
coalesce_empty none = ""
coalesce_empty (some s) = s

-- A step of the loop.
unfoldable pub gather : Gathered → MembershipRow → Gathered
unfolding add_role_permissions
gather g row = record {
  organization_id = if g.organization_id == "" then row.organization_id else g.organization_id;
  site_set =
      if not (coalesce_empty row.site_id == "")
      then put (coalesce_empty row.site_id) g.site_set
      else g.site_set;
  permissions = add_role_permissions g.permissions row.role;
}

unfoldable pub gather_all : Gathered → List MembershipRow → Gathered
unfolding gather
gather_all g [] = g
gather_all g (row ∷ rest) = gather_all (gather g row) rest

-- The nil slice, to which the keys of the set are appended, sorted.
abbrev pub append_sorted : (List String → List String) → List String → Option (List String)
append_sorted sort keys = if is_empty keys then none else some (sort keys)

-- Bootstrap subjects get one permission more.
abbrev pub with_bootstrap : List String → String → List Permission → List Permission
with_bootstrap bootstrap_subjects subject permissions =
    if any (λ q. q == subject) bootstrap_subjects
    then put permission_organization_create permissions
    else permissions

unfoldable pub principal_of :
    (List String → List String) → List String → String → IdentityClaims → Gathered → Principal
principal_of sort bootstrap_subjects id claims g = record {
  id = id;
  external_subject = claims.subject;
  display_name = claims.display_name;
  organization_id = g.organization_id;
  site_ids = append_sorted sort g.site_set;
  permissions = with_bootstrap bootstrap_subjects claims.subject g.permissions;
}

module _ (env : Env) where
  -- `sort.Strings`, over the keys of a map in the order in which they were appended.
  module _ (sort : List String → List String) (bootstrap_subjects : List String) where
    -- `ResolvePrincipal`
    unfoldable pub resolve_principal : IdentityClaims → Exec Principal
    unfolding upsert_principal select_memberships gather_all principal_of
    resolve_principal claims =
        if claims.subject == ""
        then fail (text "OIDC subject is required")
        else (read_clock env >>= λ now. draw_id env >>= λ drawn.
            wrap "resolve principal" (query_row env (upsert_principal env drawn claims now))
            >>= λ id.
                wrap "load principal memberships" (execute env (select_memberships env id))
                >>= λ rows. pure (
                    principal_of sort bootstrap_subjects id claims (
                      gather_all (record { organization_id = ""; site_set = []; permissions = [] })
                        rows)))
