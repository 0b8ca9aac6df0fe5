-- ===== src/Auth/Sessions/Live.antt =====
-- A session authenticates while it is live, and never after it was revoked.
use skawld_maintenance.Prelude.{
  ℕ, ◌<◌, String, Bool, true, false, ◌&&◌, ◌≡◌, refl, sym, ap, ◌∙◌, Option, none, some, List, [],
  ◌∷◌, any, find, ltb, ltb_iff, and_iff, if◌then◌else◌, Memᴰ, arith, inl, inr, Bool-cases,
  Option-cases, some-injective, find_sound, any-update_none, eq_iff, any_of_mem, ◌==◌,
}
use mathlib.Core.Path.{subst}
use skawld_maintenance.Idempotency.Bytes.{equal_bytes_iff}
use skawld_maintenance.Identity.Authorization.{Time, Principal, is_nil}
use skawld_maintenance.Database.{Env, World, execute, query_row}
use skawld_maintenance.Database.Runs.{
  Ran, Ran-bind, Ran-wrap, Ran-execute, Ran-query_row, Ran-read_clock, some_inj,
}
use skawld_maintenance.Database.Schema.{Db, SessionRow, PrincipalRow}
use skawld_maintenance.Auth.Principals.{resolve_principal}
use skawld_maintenance.Auth.Sessions.{
  has_token, is_live, is_active, join_session, select_session, to_claims, update_revoked,
  principal_for_session, revoke_session,
}

-- A session that is neither revoked nor expired, with its active principal.
pub record IsLive (hash : List ℕ) (now : Time) (db : Db) (row : PrincipalRow) : Type 0 where
  pub session : SessionRow
  pub mem_session : Memᴰ session db.web_sessions
  pub digest : session.token_hash ≡ hash
  pub kept : session.revoked_at ≡ none
  pub early : now < session.expires_at
  pub mem_row : Memᴰ row db.principals
  pub owner : row.id ≡ session.principal_id
  pub active : row.status ≡ "ACTIVE"

is_nil_lem : {A : Type 0} (o : Option A) → is_nil o ≡ true → o ≡ none
is_nil_lem none h = refl
is_nil_lem (some a) h = cc h

record-IsLive :
    (hash : List ℕ) (now : Time) (db : Db) (session : SessionRow) (row : PrincipalRow)
    → Memᴰ session db.web_sessions
    → is_live hash now session ≡ true
    → find (is_active session) db.principals ≡ some row
    → IsLive hash now db row
record-IsLive hash now db session row m live found =
    let (token, rest) = (and_iff (has_token hash session) _).0 live in
    let (nil, early) = (and_iff (is_nil session.revoked_at) (ltb now session.expires_at)).0 rest in
    let (mr, t) = find_sound (is_active session) db.principals found in
    let (owner, active) = (and_iff (row.id == session.principal_id) (row.status == "ACTIVE")).0 t in
    record {
      session = session;
      mem_session = m;
      digest = (equal_bytes_iff session.token_hash hash).0 token;
      kept = is_nil_lem session.revoked_at nil;
      early = (ltb_iff now session.expires_at).0 early;
      mem_row = mr;
      owner = (eq_iff row.id session.principal_id).0 owner;
      active = (eq_iff row.status "ACTIVE").0 active;
    }

join_lem :
    (hash : List ℕ) (now : Time) (db : Db) (xs : List SessionRow) (row : PrincipalRow)
    → ((s : SessionRow) → Memᴰ s xs → Memᴰ s db.web_sessions)
    → join_session db.principals hash now xs ≡ some row
    → IsLive hash now db row
unfolding join_session
join_lem hash now db [] row sub h = cc h
join_lem hash now db (session ∷ xs) row sub h =
    let later = join_lem hash now db xs row (λ s m. sub s (Memᴰ.tail m)) in
    elim (Bool-cases (is_live hash now session)) [
      | inl live ↦ elim (Option-cases (find (is_active session) db.principals)) [
        | inl alone ↦ later (rw (live, alone, join_session) at h)
        | inr (r, found) ↦
            let same : r ≡ row = some-injective (rw (live, found, join_session) at h) in
            record-IsLive hash now db session row (sub session (Memᴰ.head refl)) live
              (found ∙ ap some same)
      ]
      | inr dead ↦ later (rw (dead, join_session) at h)
    ]

-- The state of a live session shows in the test of the statement.
live_of_record :
    {hash : List ℕ} {now : Time} {db : Db} {row : PrincipalRow}
    → (l : IsLive hash now db row)
    → (has_token hash l.session && is_nil l.session.revoked_at) ≡ true
live_of_record {hash = hash} l =
    rw ((equal_bytes_iff l.session.token_hash hash).1 l.digest, l.kept) refl

revoked_lem :
    (hash : List ℕ) (now : Time) (s : SessionRow)
    → let t : SessionRow =
        if has_token hash s && is_nil s.revoked_at then record s { revoked_at = some now } else s in
      (has_token hash t && is_nil t.revoked_at) ≡ false
revoked_lem hash now s = elim (Bool-cases (has_token hash s && is_nil s.revoked_at)) [
  | inl e ↦ rw e (ground arith)
  | inr e ↦ rw e e
]

module _ (env : Env) (token : String) where
  module _ (sort : List String → List String) (bootstrap_subjects : List String) where
    -- A session that authenticates is in the table under the digest of the token, is neither revoked
    -- nor expired when the clock is read, and belongs to an ACTIVE principal, whose claims are the
    -- ones that are resolved.
    pub principal_for_session_safe :
        (w : World) (p : Principal) (w' : World)
        → Ran (principal_for_session env sort bootstrap_subjects token) w p w'
        → (row : PrincipalRow) × (v : World) × IsLive
            (env.sha256 token)
            (env.clock w.calls)
            w.db
            row
          × Ran (resolve_principal env sort bootstrap_subjects (to_claims row)) v p w'
          × (v.db ≡ w.db)
    unfolding principal_for_session select_session
    principal_for_session_safe w p w' ran =
        let (now, v1, r1, k1) = Ran-bind _ _ w p w' ran in
        let (row, v2, r2, k2) = Ran-bind _ _ v1 p w' k1 in
        let (same, time) = Ran-read_clock env w now v1 r1 in
        let query =
          Ran-wrap "load web session" (query_row env (select_session (env.sha256 token) now)) v1 row
            v2 r2 in
        let q =
          some_inj (Ran-query_row env (select_session (env.sha256 token) now) v1 row v2 query) in
        (
          row,
          v2,
          subst (λ (d : Db). IsLive (env.sha256 token) (env.clock w.calls) d row) same
              (subst (λ t. IsLive (env.sha256 token) t v1.db row) time
                (join_lem (env.sha256 token) now v1.db v1.db.web_sessions row (λ s m. m) q.0)),
          k2,
          sym q.1 ∙ same,
        )

    -- After a token was revoked, no session under it authenticates, from whatever state in which the
    -- sessions are as the revocation left them.
    pub revoke_session_final :
        (w w' : World)
        → Ran (revoke_session env token) w tt w'
        → (v : World) → v.db.web_sessions ≡ w'.db.web_sessions
        → (p : Principal) (v' : World)
        → ¬ (Ran (principal_for_session env sort bootstrap_subjects token) v p v')
    unfolding revoke_session update_revoked
    revoke_session_final w w' ran v same p v' again =
        let (now, v1, r1, k1) = Ran-bind _ _ w tt w' ran in
        let q = some_inj (
          Ran-execute env (update_revoked (env.sha256 token) now) v1 tt w' (
            Ran-wrap "revoke web session" (execute env (update_revoked (env.sha256 token) now)) v1
              tt w' k1)) in
        let (row, u, live, _, _) = principal_for_session_safe v p v' again in
        let test : SessionRow → Bool = λ s. has_token (env.sha256 token) s && is_nil s.revoked_at in
        let gone : any test w'.db.web_sessions ≡ false =
          subst (λ (d : Db). any test d.web_sessions ≡ false) q.1
            (any-update_none test test (λ (s : SessionRow). record s { revoked_at = some now })
              v1.db.web_sessions (revoked_lem (env.sha256 token) now)) in
        let there = any_of_mem test v.db.web_sessions live.mem_session (live_of_record live) in
        cc (sym (ap (any test) same ∙ gone) ∙ there)
