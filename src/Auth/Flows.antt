-- ===== src/Auth/Flows.antt =====
-- internal/platform/auth/repository.go: login flows, of which each is consumed once.
pub mod Once
use skawld_maintenance.Prelude.{
  ℕ, String, Bool, true, false, ◌&&◌, ◌||◌, not, Option, none, some, List, [], ◌∷◌, ◌++◌, ◌==◌, any,
  find, select, update, leb, ltb, is_empty, if◌then◌else◌,
}
use skawld_maintenance.Errors.{text}
use skawld_maintenance.Audit.{nullif_empty}
use skawld_maintenance.Idempotency.Bytes.{equal_bytes}
use skawld_maintenance.Identity.Authorization.{
  Time, Principal, Permission, is_nil, permission_organization_create, permission_workflow_review,
  permission_workflow_publish, permission_report_approve,
}
use skawld_maintenance.Database.{
  Env, Exec, Statement, with_uuid, pure, fail, wrap, ◌>>=◌, execute, query_row, read_clock, draw_id,
}
use skawld_maintenance.Database.Schema.{Db, FlowRow, PrincipalRow, MembershipRow, SessionRow}

pub record Flow : Type 0 where
  pub nonce : String
  pub pkce_verifier : String
  pub return_to : String
  pub expires_at : Time

abbrev pub has_state : List ℕ → FlowRow → Bool
has_state hash row = equal_bytes row.state_hash hash

-- The columns keep what a timestamptz keeps of the two times.
abbrev pub to_flow_row : Env → List ℕ → Flow → Time → FlowRow
to_flow_row env hash flow now = record {
  state_hash = hash;
  nonce = flow.nonce;
  pkce_verifier = flow.pkce_verifier;
  return_to = flow.return_to;
  expires_at = env.timestamptz flow.expires_at;
  created_at = env.timestamptz now;
}

abbrev pub to_flow : FlowRow → Flow
to_flow row = record {
  nonce = row.nonce;
  pkce_verifier = row.pkce_verifier;
  return_to = row.return_to;
  expires_at = row.expires_at;
}

-- INSERT INTO auth_flows; the primary key refuses a second row with the hash.
unfoldable pub insert_flow : Env → List ℕ → Flow → Time → Statement Unit
insert_flow env hash flow now db =
    if any (has_state hash) db.auth_flows
    then none
    else some (tt, record db { auth_flows = db.auth_flows ++ (to_flow_row env hash flow now ∷ []) })

-- DELETE FROM auth_flows … RETURNING
unfoldable pub delete_flow : List ℕ → Statement (Option FlowRow)
delete_flow hash db = some (
  find (has_state hash) db.auth_flows,
  record db { auth_flows = select (λ row. not (has_state hash row)) db.auth_flows },
)

module _ (env : Env) where
  -- `SaveFlow`; the arguments of the statement are computed before it is sent.
  unfoldable pub save_flow : String → Flow → Exec Unit
  unfolding insert_flow
  save_flow state flow = read_clock env >>= λ now.
      wrap "save OIDC flow" (execute env (insert_flow env (env.sha256 state) flow now))

  abbrev pub check_flow : FlowRow → Time → Exec Flow
  check_flow row now =
      if not (ltb now row.expires_at) then fail (text "OIDC flow expired") else pure (to_flow row)

  -- `ConsumeFlow`
  unfoldable pub consume_flow : String → Exec Flow
  unfolding delete_flow
  consume_flow state =
      wrap "consume OIDC flow" (query_row env (delete_flow (env.sha256 state))) >>= λ row.
      read_clock env >>= λ now. check_flow row now
