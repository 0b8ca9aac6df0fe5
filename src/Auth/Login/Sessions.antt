-- ===== src/Auth/Login/Sessions.antt =====
-- What a callback that opens a session has checked.
use skawld_maintenance.Prelude.{
  ℕ, String, true, ◌≡◌, ◌≢◌, refl, sym, ap, ◌∙◌, inl, inr, Option, none, some, List, ◌==◌, arith,
  eq_iff, Bool-cases,
}
use mathlib.Core.Path.{subst}
use skawld_maintenance.Errors.{Result, ok, err}
use skawld_maintenance.Identity.Authorization.{Principal}
use skawld_maintenance.Database.{Env, World}
use skawld_maintenance.Database.Runs.{Ran}
use skawld_maintenance.Http.{Request, Response, Reply, attempt, attempt_status}
use skawld_maintenance.Auth.Flows.{Flow, consume_flow}
use skawld_maintenance.Auth.Flows.Once.{IsConsumed, consume_flow_safe}
use skawld_maintenance.Auth.Principals.{resolve_principal}
use skawld_maintenance.Auth.Bearer.{TokenClaims, claims_from_token}
use skawld_maintenance.Auth.Oidc.{Provider, Service}
use skawld_maintenance.Auth.Login.{
  state_name, same_state, refuse, failed, open_session, after_claims, after_verify, after_exchange,
  callback,
}
use skawld_maintenance.Auth.Login.Opening.{IsOpened, status_of, open_session_lem}

module _ (env : Env) (sort : List String → List String) {Token : Type 0} (provider : Provider Token)
    (s : Service) where
  -- The identity token that came for the flow's code was accepted for this client, and carries the
  -- nonce of the flow.
  pub record IsIdentified (r : Request) (flow : Flow) (claims : TokenClaims) : Type 0 where
    pub raw : String
    pub exchanged : provider.exchange (r.query "code") flow.pkce_verifier ≡ some (some raw)
    pub token : Token
    pub verified : provider.verify s.web_verifier raw ≡ some token
    pub decoded : claims_from_token (provider.decode token) ≡ ok claims
    pub nonce : claims.nonce ≡ flow.nonce

  -- What a login that ends in a session has been through.
  pub record IsLogin (r : Request) (w : World) (x : Response × World) : Type 0 where
    pub no_error : r.query "error" ≡ ""
    pub cookie : r.cookie (state_name s) ≡ some (r.query "state")
    pub flow : Flow
    pub v1 : World
    pub consumed : IsConsumed env (r.query "state") w.db v1.db flow
    pub claims : TokenClaims
    pub identified : IsIdentified r flow claims
    pub principal : Principal
    pub v2 : World
    pub resolved :
        Ran (resolve_principal env sort s.bootstrap_subjects claims.identity) v1 principal v2
    pub opened : IsOpened env sort provider s flow principal v2 x

  refused_status : ◌≢◌ {A = ℕ} 401 303
  refused_status = omega arith

  after_claims_lem :
      (r : Request) (flow : Flow) (o : Result TokenClaims) (w : World)
      → (after_claims env sort provider s flow o w).0.status ≡ 303
      → (claims : TokenClaims) × (o ≡ ok claims)
        × (claims.nonce ≡ flow.nonce)
        × (principal : Principal) × (v : World) × Ran
            (resolve_principal env sort s.bootstrap_subjects claims.identity)
            w
            principal
            v
        × IsOpened env sort provider s flow principal v (after_claims env sort provider s flow o w)
  after_claims_lem r flow (err e) w h = absurd (omega arith)
  after_claims_lem r flow (ok claims) w h = elim (Bool-cases (claims.nonce == flow.nonce)) [
    | inr other ↦ absurd (refused_status (rw (other, after_claims) at h))
    | inl same ↦
        let resolving : Reply =
          attempt (resolve_principal env sort s.bootstrap_subjects claims.identity)
            (failed env sort provider s) (open_session env sort provider s flow) in
        let a : after_claims env sort provider s flow (ok claims) w ≡ resolving w =
          rw (same, after_claims) refl in
        let (principal, v, resolved, b) =
          attempt_status _ _ _ w 303 (λ e v. omega arith) (status_of (sym a) h) in
        (
          claims,
          refl,
          (eq_iff claims.nonce flow.nonce).0 same,
          principal,
          v,
          resolved,
          subst (IsOpened env sort provider s flow principal v) (sym (a ∙ b))
              (open_session_lem env sort provider s flow principal v (status_of (sym (a ∙ b)) h)),
        )
  ]

  after_exchange_lem :
      (r : Request) (flow : Flow) (w : World)
      → (after_exchange env sort provider s flow
          (provider.exchange (r.query "code") flow.pkce_verifier)
          w).0.status
        ≡ 303
      → (claims : TokenClaims) × IsIdentified r flow claims
        × (principal : Principal) × (v : World) × Ran
            (resolve_principal env sort s.bootstrap_subjects claims.identity)
            w
            principal
            v
        × IsOpened env sort provider s flow principal v (
            after_exchange env sort provider s flow
              (provider.exchange (r.query "code") flow.pkce_verifier)
              w)
  after_exchange_lem r flow w h = go (provider.exchange (r.query "code") flow.pkce_verifier) refl h
    where
      verified :
          (raw : String)
          → provider.exchange (r.query "code") flow.pkce_verifier ≡ some (some raw)
          → (o : Option Token) → provider.verify s.web_verifier raw ≡ o
          → (after_verify env sort provider s flow o w).0.status ≡ 303
          → (claims : TokenClaims) × IsIdentified r flow claims
            × (principal : Principal) × (v : World) × Ran
                (resolve_principal env sort s.bootstrap_subjects claims.identity)
                w
                principal
                v
            × IsOpened env sort provider s flow principal v
                (after_verify env sort provider s flow o w)
      verified raw e none f h = absurd (omega arith)
      verified raw e (some token) f h =
          let (claims, decoded, nonce, principal, v, resolved, opened) =
            after_claims_lem r flow (claims_from_token (provider.decode token)) w h in
          (
            claims,
            record {
              raw = raw;
              exchanged = e;
              token = token;
              verified = f;
              decoded = decoded;
              nonce = nonce;
            },
            principal,
            v,
            resolved,
            opened,
          )

      go :
          (o : Option (Option String))
          → provider.exchange (r.query "code") flow.pkce_verifier ≡ o
          → (after_exchange env sort provider s flow o w).0.status ≡ 303
          → (claims : TokenClaims) × IsIdentified r flow claims
            × (principal : Principal) × (v : World) × Ran
                (resolve_principal env sort s.bootstrap_subjects claims.identity)
                w
                principal
                v
            × IsOpened env sort provider s flow principal v
                (after_exchange env sort provider s flow o w)
      go none e h = absurd (omega arith)
      go (some none) e h = absurd (omega arith)
      go (some (some raw)) e h = verified raw e (provider.verify s.web_verifier raw) refl h

  same_state_lem : (o : Option String) (state : String) → same_state o state ≡ true → o ≡ some state
  same_state_lem none state h = cc h
  same_state_lem (some value) state h = ap some ((eq_iff value state).0 h)

  pub callback_safe :
      (r : Request) (w : World)
      → (callback env sort provider s r w).0.status ≡ 303
      → IsLogin r w (callback env sort provider s r w)
  unfolding callback
  callback_safe r w h = elim (Bool-cases (r.query "error" == "")) [
    | inr bad ↦ absurd (refused_status (rw (bad, callback) at h))
    | inl fine ↦ elim (Bool-cases (same_state (r.cookie (state_name s)) (r.query "state"))) [
      | inr bad ↦ absurd (refused_status (rw (fine, bad, callback) at h))
      | inl same ↦
          let consuming : Reply =
            attempt (consume_flow env (r.query "state"))
              (λ _. refuse env sort provider s "invalid or expired authentication flow" 401)
              λ flow.
                after_exchange env sort provider s flow
                  (provider.exchange (r.query "code") flow.pkce_verifier) in
          let a : callback env sort provider s r w ≡ consuming w = rw (fine, same, callback) refl in
          let (flow, v1, consumed, b) =
            attempt_status _ _ _ w 303 (λ e v. omega arith) (status_of (sym a) h) in
          let (claims, identified, principal, v2, resolved, opened) =
            after_exchange_lem r flow v1 (status_of (sym (a ∙ b)) h) in
          record {
            no_error = (eq_iff (r.query "error") "").0 fine;
            cookie = same_state_lem (r.cookie (state_name s)) (r.query "state") same;
            flow = flow;
            v1 = v1;
            consumed = consume_flow_safe env (r.query "state") w flow v1 consumed;
            claims = claims;
            identified = identified;
            principal = principal;
            v2 = v2;
            resolved = resolved;
            opened = subst (IsOpened env sort provider s flow principal v2) (sym (a ∙ b)) opened;
          }
    ]
  ]
