-- ===== src/Auth/Bearer/Known.antt =====
-- A request is authenticated by a live session or by a token that the verifier accepts.
use skawld_maintenance.Prelude.{
  String, ◌≡◌, ◌≢◌, refl, ◌⊎◌, inl, inr, Option, none, some, List, ◌==◌, ◌||◌, Bool-cases,
  Option-cases, eq_iff, arith,
}
use skawld_maintenance.Prelude.Text.{trim_space, after_prefix}
use skawld_maintenance.Database.{Env, World}
use skawld_maintenance.Database.Runs.{Ran, not-Ran-fail}
use skawld_maintenance.Database.Schema.{PrincipalRow}
use skawld_maintenance.Identity.Authorization.{Principal}
use skawld_maintenance.Auth.Principals.{resolve_principal}
use skawld_maintenance.Auth.Sessions.Live.{IsLive, principal_for_session_safe}
use skawld_maintenance.Auth.Bearer.{
  Request, RawClaims, display_name_of, token_claims, claims_from_token, resolve_claims,
  resolve_token, resolve_header, authenticate,
}

module _ (env : Env) (sort : List String → List String) (bootstrap_subjects : List String)
    {Token : Type 0} (verify : String → Option Token) (decode : Token → Option RawClaims) where
  -- The token that the header carries is accepted, and its claims are complete.
  pub record IsBearer (authorization : String) (w : World) (p : Principal) (w' : World)
      : Type 0 where
    pub rest : String
    pub header : after_prefix "Bearer " authorization ≡ some rest
    pub token : Token
    pub verified : verify (trim_space rest) ≡ some token
    pub raw : RawClaims
    pub decoded : decode token ≡ some raw
    pub subject : raw.subject ≢ ""
    pub named : display_name_of raw ≢ ""
    pub resolved :
        Ran (resolve_principal env sort bootstrap_subjects (token_claims raw).identity) w p w'

  -- The cookie carries the token of a live session of an ACTIVE principal.
  abbrev pub HasSession : Option String → World → Type 0
  HasSession cookie w =
      (value : String) × (cookie ≡ some value)
      × (row : PrincipalRow) × IsLive (env.sha256 value) (env.clock w.calls) w.db row

  claims_lem :
      (o : Option RawClaims) (w : World) (p : Principal) (w' : World)
      → Ran (resolve_claims env sort bootstrap_subjects verify decode (claims_from_token o)) w p w'
      → (raw : RawClaims) × (o ≡ some raw)
        × (raw.subject ≢ "")
        × (display_name_of raw ≢ "")
        × Ran (resolve_principal env sort bootstrap_subjects (token_claims raw).identity) w p w'
  unfolding claims_from_token
  claims_lem none w p w' h = absurd (not-Ran-fail _ p w w' h)
  claims_lem (some raw) w p w' h =
      elim (Bool-cases (raw.subject == "" || display_name_of raw == "")) [
        | inl bad ↦ absurd (not-Ran-fail _ p w w' (rw (bad, claims_from_token) at h))
        | inr good ↦ (
          raw,
          refl,
          (λ e. ground (arith, eq_iff raw.subject "")),
          (λ e. ground (arith, eq_iff (display_name_of raw) "")),
          rw (good, claims_from_token) at h,
        )
      ]

  header_lem :
      (authorization : String) (w : World) (p : Principal) (w' : World)
      → Ran
          (resolve_header env sort bootstrap_subjects verify decode
            (after_prefix "Bearer " authorization))
          w
          p
          w'
      → IsBearer authorization w p w'
  header_lem authorization w p w' h = elim (Option-cases (after_prefix "Bearer " authorization)) [
    | inl e ↦ absurd (not-Ran-fail _ p w w' (rw e at h))
    | inr (rest, e) ↦
        let k : Ran
            (resolve_token env sort bootstrap_subjects verify decode (verify (trim_space rest))) w p
            w' =
          rw e at h in
        elim (Option-cases (verify (trim_space rest))) [
          | inl f ↦ absurd (not-Ran-fail _ p w w' (rw f at k))
          | inr (token, f) ↦
              let (raw, decoded, subject, named, resolved) =
                claims_lem (decode token) w p w' (rw f at k) in
              record {
                rest = rest;
                header = e;
                token = token;
                verified = f;
                raw = raw;
                decoded = decoded;
                subject = subject;
                named = named;
                resolved = resolved;
              }
        ]
  ]

  -- A request that is authenticated has a cookie with the token of a live session of an ACTIVE
  -- principal, or a bearer token that the verifier accepts, with a subject and a name, whose claims
  -- are then resolved.
  pub authenticate_safe :
      (r : Request) (w : World) (p : Principal) (w' : World)
      → Ran (authenticate env sort bootstrap_subjects verify decode r) w p w'
      → HasSession r.cookie w ⊎ IsBearer r.authorization w p w'
  unfolding authenticate
  authenticate_safe r w p w' ran = elim (Option-cases r.cookie) [
    | inl e ↦ inr (header_lem r.authorization w p w' (rw (e, authenticate) at ran))
    | inr (value, e) ↦ elim (Bool-cases (value == "")) [
      | inl empty ↦ inr (header_lem r.authorization w p w' (rw (e, empty, authenticate) at ran))
      | inr given ↦
          let (row, v, live, _, _) =
            principal_for_session_safe env value sort bootstrap_subjects w p w'
              (rw (e, given, authenticate) at ran) in
          inl (value, e, row, live)
    ]
  ]
