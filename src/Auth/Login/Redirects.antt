-- ===== src/Auth/Login/Redirects.antt =====
-- A login never sends the browser to another site.
use skawld_maintenance.Prelude.{
  ℕ, String, sym, inl, inr, Option, none, some, List, [], ◌∷◌, Memᴰ, any, not, ◌||◌, ◌==◌,
  mem_select_iff, mem-append_cases, Option-cases, find, Bool-cases,
}
use mathlib.Core.Path.{subst}
use skawld_maintenance.Errors.{Result, ok, err}
use skawld_maintenance.Identity.Authorization.{Time, Principal}
use skawld_maintenance.Database.{Env}
use skawld_maintenance.Database.Schema.{Db, FlowRow, PrincipalRow}
use skawld_maintenance.Database.Keeps.{
  Keeps, Preserves, Leaves-some, Leaves-none, Leaves-if, Leaves-with_uuid, Keeps-read_clock,
  keeps_rules,
}
use skawld_maintenance.Http.{Request}
use skawld_maintenance.Http.Keeps.{KeepsReply, KeepsReply-reply, KeepsReply-attempt}
use skawld_maintenance.Auth.Flows.{
  Flow, to_flow_row, has_state, insert_flow, save_flow, delete_flow, consume_flow,
}
use skawld_maintenance.Auth.Principals.{
  IdentityClaims, has_subject, upsert_principal, select_memberships, resolve_principal,
}
use skawld_maintenance.Auth.Sessions.{
  has_token, insert_session, create_session, update_revoked, revoke_session,
}
use skawld_maintenance.Auth.Return.{IsLocal, safe_return_to-IsLocal}
use skawld_maintenance.Auth.Oidc.{Provider, Service}
use skawld_maintenance.Auth.Login.{
  random_token, generate_verifier, start_login, begin, callback, state_name, same_state,
  open_session, after_claims, after_verify, after_exchange, revoke_cookie,
}
use skawld_maintenance.Auth.Bearer.{TokenClaims, claims_from_token}

module _ (env : Env) (sort : List String → List String) {Token : Type 0} (provider : Provider Token)
    (s : Service) where
  -- Every saved flow returns to a local target.
  abbrev pub FlowsLocal : Db → Type 0
  FlowsLocal db =
      (row : FlowRow) → Memᴰ row db.auth_flows → IsLocal provider.parse_url row.return_to

  insert_flow-Preserves :
      (hash : List ℕ) (flow : Flow) (now : Time)
      → IsLocal provider.parse_url flow.return_to
      → Preserves FlowsLocal (insert_flow env hash flow now)
  unfolding insert_flow
  insert_flow-Preserves hash flow now local = record {
    after = λ db kept.
        Leaves-if FlowsLocal (any (has_state hash) db.auth_flows) _ _ (λ _. Leaves-none FlowsLocal)
          (λ _. Leaves-some FlowsLocal _ _ (λ row m.
            elim (mem-append_cases db.auth_flows (to_flow_row env hash flow now ∷ []) m) [
              | inl old ↦ kept row old
              | inr (Memᴰ.head new) ↦
                  subst (λ (x : FlowRow). IsLocal provider.parse_url x.return_to) (sym new) local
              | inr (Memᴰ.tail m) ↦ elim m [ ]
            ]));
  }

  save_flow-Keeps :
      (state : String) (flow : Flow)
      → IsLocal provider.parse_url flow.return_to
      → Keeps FlowsLocal (save_flow env state flow)
  unfolding save_flow
  save_flow-Keeps state flow local = search (keeps_rules, insert_flow-Preserves, local) depth 9

  delete_flow-Preserves : (hash : List ℕ) → Preserves FlowsLocal (delete_flow hash)
  unfolding delete_flow
  delete_flow-Preserves hash = record {
    after = λ db kept. Leaves-some FlowsLocal _ _ (λ row m.
        kept row ((mem_select_iff (λ x. not (has_state hash x)) db.auth_flows row).0 m).0);
  }

  upsert_principal-Preserves :
      (id : String) (claims : IdentityClaims) (now : Time)
      → Preserves FlowsLocal (upsert_principal env id claims now)
  unfolding upsert_principal
  upsert_principal-Preserves id claims now = record {
    after = λ db kept. Leaves-with_uuid FlowsLocal (env.cast_uuid id) _ (λ u.
        elim (Option-cases (find (has_subject claims.subject) db.principals)) [
          | inr (row, e) ↦ rw e (Leaves-some FlowsLocal _ _ kept)
          | inl e ↦ rw e (
              Leaves-if FlowsLocal (any (λ (row : PrincipalRow). row.id == u) db.principals) _ _
                (λ _. Leaves-none FlowsLocal) (λ _. Leaves-some FlowsLocal _ _ kept))
        ]);
  }

  select_memberships-Preserves : (id : String) → Preserves FlowsLocal (select_memberships env id)
  unfolding select_memberships
  select_memberships-Preserves id = record {
    after = λ db kept.
        Leaves-with_uuid FlowsLocal (env.cast_uuid id) _ (λ u. Leaves-some FlowsLocal _ _ kept);
  }

  insert_session-Preserves :
      (hash : List ℕ) (principal : String) (expires_at now : Time)
      → Preserves FlowsLocal (insert_session env hash principal expires_at now)
  unfolding insert_session
  insert_session-Preserves hash principal expires_at now = record {
    after = λ db kept. Leaves-with_uuid FlowsLocal (env.cast_uuid principal) _ (λ u.
        Leaves-if FlowsLocal
          (any (has_token hash) db.web_sessions
            || not (any (λ (row : PrincipalRow). row.id == u) db.principals))
          _ _ (λ _. Leaves-none FlowsLocal) (λ _. Leaves-some FlowsLocal _ _ kept));
  }

  update_revoked-Preserves :
      (hash : List ℕ) (now : Time) → Preserves FlowsLocal (update_revoked hash now)
  unfolding update_revoked
  update_revoked-Preserves hash now = record { after = λ db kept. Leaves-some FlowsLocal _ _ kept }

  consume_flow-Keeps : (state : String) → Keeps FlowsLocal (consume_flow env state)
  unfolding consume_flow
  consume_flow-Keeps state = search (keeps_rules, delete_flow-Preserves) depth 9

  resolve_principal-Keeps :
      (claims : IdentityClaims)
      → Keeps FlowsLocal (resolve_principal env sort s.bootstrap_subjects claims)
  unfolding resolve_principal
  resolve_principal-Keeps claims =
      search (keeps_rules, upsert_principal-Preserves, select_memberships-Preserves) depth 9

  create_session-Keeps :
      (token principal : String) (expires_at : Time)
      → Keeps FlowsLocal (create_session env token principal expires_at)
  unfolding create_session
  create_session-Keeps token principal expires_at =
      search (keeps_rules, insert_session-Preserves) depth 9

  revoke_session-Keeps : (token : String) → Keeps FlowsLocal (revoke_session env token)
  unfolding revoke_session
  revoke_session-Keeps token = search (keeps_rules, update_revoked-Preserves) depth 9

  random_token-Keeps : Keeps FlowsLocal (random_token env sort provider s)
  unfolding random_token
  random_token-Keeps = record { at = λ w h. h }

  generate_verifier-Keeps : Keeps FlowsLocal (generate_verifier env sort provider s)
  unfolding generate_verifier
  generate_verifier-Keeps = record { at = λ w h. h }

  start_login-Keeps :
      (r : Request) (state nonce verifier : String)
      → KeepsReply FlowsLocal (start_login env sort provider s r state nonce verifier)
  start_login-Keeps r state nonce verifier =
      KeepsReply-attempt FlowsLocal _ _ _ (Keeps-read_clock FlowsLocal env)
        (λ e. KeepsReply-reply FlowsLocal _)
        λ now.
          KeepsReply-attempt FlowsLocal _ _ _
            (save_flow-Keeps state _
              (safe_return_to-IsLocal provider.parse_url (r.query "return_to")))
            (λ e. KeepsReply-reply FlowsLocal _) (λ _. KeepsReply-reply FlowsLocal _)

  pub begin-Keeps : (r : Request) → KeepsReply FlowsLocal (begin env sort provider s r)
  unfolding begin
  begin-Keeps r =
      KeepsReply-attempt FlowsLocal _ _ _ random_token-Keeps (λ e. KeepsReply-reply FlowsLocal _)
        λ state.
          KeepsReply-attempt FlowsLocal _ _ _ random_token-Keeps
            (λ e. KeepsReply-reply FlowsLocal _)
            λ nonce.
              KeepsReply-attempt FlowsLocal _ _ _ generate_verifier-Keeps
                (λ e. KeepsReply-reply FlowsLocal _) (start_login-Keeps r state nonce)

  open_session-Keeps :
      (flow : Flow) (principal : Principal)
      → KeepsReply FlowsLocal (open_session env sort provider s flow principal)
  unfolding open_session
  open_session-Keeps flow principal =
      KeepsReply-attempt FlowsLocal _ _ _ random_token-Keeps (λ e. KeepsReply-reply FlowsLocal _)
        λ token.
          KeepsReply-attempt FlowsLocal _ _ _ (Keeps-read_clock FlowsLocal env)
            (λ e. KeepsReply-reply FlowsLocal _)
            λ now.
              KeepsReply-attempt FlowsLocal _ _ _ (create_session-Keeps token principal.id _)
                (λ e. KeepsReply-reply FlowsLocal _) (λ _. record { at = λ w h. h })

  after_claims-Keeps :
      (flow : Flow) (o : Result TokenClaims)
      → KeepsReply FlowsLocal (after_claims env sort provider s flow o)
  after_claims-Keeps flow (err e) = KeepsReply-reply FlowsLocal _
  after_claims-Keeps flow (ok claims) = elim (Bool-cases (claims.nonce == flow.nonce)) [
    | inr other ↦ rw other (KeepsReply-reply FlowsLocal _)
    | inl same ↦ rw same (
        KeepsReply-attempt FlowsLocal _ _ _ (resolve_principal-Keeps claims.identity)
          (λ e. KeepsReply-reply FlowsLocal _) (open_session-Keeps flow))
  ]

  after_verify-Keeps :
      (flow : Flow) (o : Option Token)
      → KeepsReply FlowsLocal (after_verify env sort provider s flow o)
  after_verify-Keeps flow none = KeepsReply-reply FlowsLocal _
  after_verify-Keeps flow (some token) =
      after_claims-Keeps flow (claims_from_token (provider.decode token))

  after_exchange-Keeps :
      (flow : Flow) (o : Option (Option String))
      → KeepsReply FlowsLocal (after_exchange env sort provider s flow o)
  after_exchange-Keeps flow none = KeepsReply-reply FlowsLocal _
  after_exchange-Keeps flow (some none) = KeepsReply-reply FlowsLocal _
  after_exchange-Keeps flow (some (some raw)) =
      after_verify-Keeps flow (provider.verify s.web_verifier raw)

  pub callback-Keeps : (r : Request) → KeepsReply FlowsLocal (callback env sort provider s r)
  unfolding callback
  callback-Keeps r = elim (Bool-cases (r.query "error" == "")) [
    | inr bad ↦ rw bad (KeepsReply-reply FlowsLocal _)
    | inl fine ↦ elim (Bool-cases (same_state (r.cookie (state_name s)) (r.query "state"))) [
      | inr bad ↦ rw (fine, bad) (KeepsReply-reply FlowsLocal _)
      | inl same ↦
          rw (fine, same)
            (KeepsReply-attempt FlowsLocal _ _ _ (consume_flow-Keeps (r.query "state"))
              (λ e. KeepsReply-reply FlowsLocal _)
              (λ flow.
                after_exchange-Keeps flow (provider.exchange (r.query "code") flow.pkce_verifier)))
    ]
  ]

  pub revoke_cookie-Keeps :
      (o : Option String) → KeepsReply FlowsLocal (revoke_cookie env sort provider s o)
  revoke_cookie-Keeps none = KeepsReply-reply FlowsLocal _
  revoke_cookie-Keeps (some value) =
      KeepsReply-attempt FlowsLocal _ _ _ (revoke_session-Keeps value)
        (λ e. KeepsReply-reply FlowsLocal _) (λ _. KeepsReply-reply FlowsLocal _)
