-- ===== src/Auth/Sessions.antt =====
-- internal/platform/auth/repository.go: web sessions.
pub mod Live
use skawld_maintenance.Prelude.{
  ℕ, String, Bool, true, false, ◌&&◌, ◌||◌, not, Option, none, some, List, [], ◌∷◌, ◌++◌, ◌==◌, any,
  find, select, update, leb, ltb, is_empty, if◌then◌else◌,
}
use skawld_maintenance.Errors.{text}
use skawld_maintenance.Audit.{nullif_empty}
use skawld_maintenance.Idempotency.Bytes.{equal_bytes}
use skawld_maintenance.Identity.Authorization.{
  Time, Principal, Permission, is_nil, permission_organization_create, permission_workflow_review,
  permission_workflow_publish, permission_report_approve,
}
use skawld_maintenance.Database.{
  Env, Exec, Statement, with_uuid, pure, fail, wrap, ◌>>=◌, execute, query_row, read_clock, draw_id,
}
use skawld_maintenance.Database.Schema.{Db, FlowRow, PrincipalRow, MembershipRow, SessionRow}
use skawld_maintenance.Auth.Principals.{IdentityClaims, coalesce_empty, resolve_principal}

abbrev pub has_token : List ℕ → SessionRow → Bool
has_token hash row = equal_bytes row.token_hash hash

abbrev pub new_session : List ℕ → String → Time → Time → SessionRow
new_session hash principal expires_at now = record {
  token_hash = hash;
  principal_id = principal;
  expires_at = expires_at;
  created_at = now;
  last_seen_at = now;
  revoked_at = none;
}

-- INSERT INTO web_sessions; the primary key and the foreign key may refuse it. The columns keep what
-- a timestamptz keeps of the two times. A statement that compares a kept time with the present one
-- takes that whole, since dropping what is less than a microsecond of it does not change the outcome.
unfoldable pub insert_session : Env → List ℕ → String → Time → Time → Statement Unit
insert_session env hash principal expires_at now db = with_uuid (env.cast_uuid principal) λ uuid.
    if any (has_token hash) db.web_sessions
      || not (any (λ (row : PrincipalRow). row.id == uuid) db.principals)
    then none
    else some (
      tt,
      record db {
        web_sessions =
            db.web_sessions
            ++ (new_session hash uuid (env.timestamptz expires_at) (env.timestamptz now) ∷ []);
      },
    )

-- The conditions on the session, and on the principal that it is joined with.
abbrev pub is_live : List ℕ → Time → SessionRow → Bool
is_live hash now row = has_token hash row && (is_nil row.revoked_at && ltb now row.expires_at)

abbrev pub is_active : SessionRow → PrincipalRow → Bool
is_active session row = row.id == session.principal_id && row.status == "ACTIVE"

abbrev pub to_claims : PrincipalRow → IdentityClaims
to_claims row = record {
  subject = row.external_subject;
  display_name = row.display_name;
  email = coalesce_empty row.email;
}

-- The join of the live sessions with the active principals: its first row.
unfoldable pub join_session :
    List PrincipalRow → List ℕ → Time → List SessionRow → Option PrincipalRow
join_session principals hash now [] = none
join_session principals hash now (session ∷ rest) =
    let later = join_session principals hash now rest in
    if is_live hash now session
    then elim (find (is_active session) principals) [ none ↦ later | some row ↦ some row ]
    else later

unfoldable pub select_session : List ℕ → Time → Statement (Option PrincipalRow)
unfolding join_session
select_session hash now db = some (join_session db.principals hash now db.web_sessions, db)

unfoldable pub update_revoked : List ℕ → Time → Statement Unit
update_revoked hash now db = some (
  tt,
  record db {
    web_sessions =
        update (λ row. has_token hash row && is_nil row.revoked_at)
          (λ (row : SessionRow). record row { revoked_at = some now }) db.web_sessions;
  },
)

module _ (env : Env) where
  module _ (sort : List String → List String) (bootstrap_subjects : List String) where
    -- `PrincipalForSession`
    unfoldable pub principal_for_session : String → Exec Principal
    unfolding select_session resolve_principal
    principal_for_session token = read_clock env >>= λ now.
        wrap "load web session" (query_row env (select_session (env.sha256 token) now)) >>= λ row.
        resolve_principal env sort bootstrap_subjects (to_claims row)

  -- `CreateSession`
  unfoldable pub create_session : String → String → Time → Exec Unit
  unfolding insert_session
  create_session token principal expires_at = read_clock env >>= λ now.
      wrap "create web session"
        (execute env (insert_session env (env.sha256 token) principal expires_at now))

  -- `RevokeSession`
  unfoldable pub revoke_session : String → Exec Unit
  unfolding update_revoked
  revoke_session token = read_clock env >>= λ now.
      wrap "revoke web session" (execute env (update_revoked (env.sha256 token) now))
