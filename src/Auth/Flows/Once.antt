-- ===== src/Auth/Flows/Once.antt =====
-- A login flow is consumed once, and before it expires.
use skawld_maintenance.Prelude.{
  ◌+◌, ◌<◌, String, Bool, false, not, ◌≡◌, refl, sym, ap, ◌∙◌, some, [], ◌∷◌, ◌++◌, any, find,
  select, ltb, ltb_iff, if◌then◌else◌, Memᴰ, arith, inl, inr, Bool-cases, find-append, find-eq-none,
  find_sound, any_of_mem, select-append, select_all, any-select_not,
}
use mathlib.Core.Path.{subst}
use mathlib.Core.List.{append-nil}
use skawld_maintenance.Errors.{ok, err, text}
use skawld_maintenance.Idempotency.Bytes.{equal_bytes_iff}
use skawld_maintenance.Identity.Authorization.{Time}
use skawld_maintenance.Database.{
  Env, World, answered, wrap, fail, pure, ◌>>=◌, execute, query_row, read_clock,
}
use skawld_maintenance.Database.Runs.{
  Ran, Ran-bind, Ran-wrap, Ran-query_row, Ran-read_clock, Ran-pure, not-Ran-fail, answer_query_row,
  some_inj,
}
use skawld_maintenance.Database.Schema.{Db, FlowRow}
use skawld_maintenance.Auth.Flows.{
  Flow, has_state, to_flow, to_flow_row, insert_flow, delete_flow, save_flow, check_flow,
  consume_flow,
}

module _ (env : Env) (state : String) where
  abbrev is_it : FlowRow → Bool
  is_it row = has_state (env.sha256 state) row

  -- What a consumed flow comes from: a row under the digest of the state, which had not expired, and
  -- which is gone.
  pub record IsConsumed (db db' : Db) (flow : Flow) : Type 0 where
    pub row : FlowRow
    pub mem : Memᴰ row db.auth_flows
    pub digest : row.state_hash ≡ env.sha256 state
    pub result : flow ≡ to_flow row
    pub now : Time
    pub fresh : now < row.expires_at
    pub gone : any is_it db'.auth_flows ≡ false

  checked_lem :
      (row : FlowRow) (now : Time) (w : World) (flow : Flow) (w' : World)
      → Ran (check_flow env row now) w flow w'
      → (now < row.expires_at) × (flow ≡ to_flow row) × (w ≡ w')
  checked_lem row now w flow w' h = elim (Bool-cases (ltb now row.expires_at)) [
    | inl early ↦
        let (same, next) = Ran-pure (to_flow row) flow w w' (rw early at h) in
        ((ltb_iff now row.expires_at).0 early, sym same, next)
    | inr late ↦ absurd (not-Ran-fail _ flow w w' (rw late at h))
  ]

  pub consume_flow_safe :
      (w : World) (flow : Flow) (w' : World)
      → Ran (consume_flow env state) w flow w'
      → IsConsumed w.db w'.db flow
  unfolding consume_flow delete_flow
  consume_flow_safe w flow w' ran =
      let (row, v1, r1, k1) = Ran-bind _ _ w flow w' ran in
      let (now, v2, r2, k2) = Ran-bind _ _ v1 flow w' k1 in
      let (fresh, result, next) = checked_lem row now v2 flow w' k2 in
      let q = some_inj (
        Ran-query_row env (delete_flow (env.sha256 state)) w row v1 (
          Ran-wrap "consume OIDC flow" (query_row env (delete_flow (env.sha256 state))) w row v1
            r1)) in
      let (m, t) = find_sound is_it w.db.auth_flows q.0 in
      let kept : v1.db ≡ w'.db =
        sym (Ran-read_clock env v1 now v2 r2).0 ∙ ap (λ (v : World). v.db) next in
      record {
        row = row;
        mem = m;
        digest = (equal_bytes_iff row.state_hash (env.sha256 state)).0 t;
        result = result;
        now = now;
        fresh = fresh;
        gone =
            subst (λ (d : Db). any is_it d.auth_flows ≡ false) (q.1 ∙ kept)
              (any-select_not is_it w.db.auth_flows);
      }

  -- A flow that was returned is never returned again while no flow is saved under its state: not
  -- from a table of flows as the first call left it.
  pub consume_flow_once :
      (w : World) (flow : Flow) (w' : World)
      → Ran (consume_flow env state) w flow w'
      → (v : World) → v.db.auth_flows ≡ w'.db.auth_flows
      → (again : Flow) (v' : World) → ¬ (Ran (consume_flow env state) v again v')
  consume_flow_once w flow w' ran v same again v' second =
      let first = consume_flow_safe w flow w' ran in
      let c = consume_flow_safe v again v' second in
      let there =
        any_of_mem is_it v.db.auth_flows c.mem
          ((equal_bytes_iff c.row.state_hash (env.sha256 state)).1 c.digest) in
      cc (sym (ap (any is_it) same ∙ first.gone) ∙ there)

  -- A flow as its columns keep it.
  abbrev pub as_kept : Flow → Flow
  as_kept flow = record flow { expires_at = env.timestamptz flow.expires_at }

  abbrev saved : Flow → World → World
  saved flow w = record w {
    db = record w.db {
      auth_flows =
          w.db.auth_flows ++ (to_flow_row env (env.sha256 state) flow (env.clock w.calls) ∷ []);
    };
    calls = w.calls + 2;
  }

  save_flow_lem :
      (flow : Flow) (w : World)
      → env.fate (w.calls + 1) ≡ answered
      → any is_it w.db.auth_flows ≡ false
      → save_flow env state flow w ≡ (ok tt, saved flow w)
  unfolding save_flow insert_flow execute wrap read_clock ◌>>=◌
  save_flow_lem flow w f free =
      let two : w.calls + 1 + 1 ≡ w.calls + 2 = omega arith in
      rw (f, free, insert_flow, wrap) (rw two refl)

  found_saved :
      (flow : Flow) (w : World)
      → any is_it w.db.auth_flows ≡ false
      → delete_flow (env.sha256 state) (saved flow w).db
        ≡ some (some (to_flow_row env (env.sha256 state) flow (env.clock w.calls)), w.db)
  unfolding delete_flow
  found_saved flow w free =
      let row = to_flow_row env (env.sha256 state) flow (env.clock w.calls) in
      let own = (equal_bytes_iff (env.sha256 state) (env.sha256 state)).1 refl in
      let found : find is_it (w.db.auth_flows ++ (row ∷ [])) ≡ some row =
        find-append is_it w.db.auth_flows (row ∷ [])
        ∙ rw (find-eq-none is_it w.db.auth_flows free, own) refl in
      let left : select (λ r. not (is_it r)) (w.db.auth_flows ++ (row ∷ [])) ≡ w.db.auth_flows =
        select-append (λ r. not (is_it r)) w.db.auth_flows (row ∷ [])
        ∙ rw (select_all is_it w.db.auth_flows free, own) (append-nil w.db.auth_flows) in
      λ i. some (found i, record w.db { auth_flows = left i })

  check_eq :
      (flow : Flow) (w : World)
      → check_flow env
          (to_flow_row env (env.sha256 state) flow (env.clock w.calls))
          (env.clock (w.calls + 2 + 1))
          (record w { calls = w.calls + 2 + 1 + 1 })
        ≡ (
          if ltb (env.clock (w.calls + 3)) (env.timestamptz flow.expires_at)
              then ok (as_kept flow)
              else err (text "OIDC flow expired"),
          record w { calls = w.calls + 4 },
        )
  unfolding pure fail
  check_eq flow w =
      let three : w.calls + 2 + 1 ≡ w.calls + 3 = omega arith in
      let four : w.calls + 3 + 1 ≡ w.calls + 4 = omega arith in
      rw (three, four)
        (elim (Bool-cases (ltb (env.clock (w.calls + 3)) (env.timestamptz flow.expires_at))) [
          | inl e ↦ rw e refl
          | inr e ↦ rw e refl
        ])

  -- A flow that is saved under a state which has none is what the next call gets for the state, with
  -- the part of its expiry that a timestamptz column keeps, if the flow has not expired at that time
  -- by then, and an error if it has; either way the tables are as they were
  -- before. The server is taken to answer both calls.
  pub consume-save :
      (flow : Flow) (w : World)
      → env.fate (w.calls + 1) ≡ answered
      → env.fate (w.calls + 2) ≡ answered
      → any is_it w.db.auth_flows ≡ false
      → consume_flow env state (save_flow env state flow w).1 ≡ (
        if ltb (env.clock (w.calls + 3)) (env.timestamptz flow.expires_at)
            then ok (as_kept flow)
            else err (text "OIDC flow expired"),
        record w { calls = w.calls + 4 },
      )
  unfolding consume_flow read_clock wrap ◌>>=◌
  consume-save flow w f g free =
      rw
        (
          save_flow_lem flow w f free,
          answer_query_row env (delete_flow (env.sha256 state)) (saved flow w)
              (some (to_flow_row env (env.sha256 state) flow (env.clock w.calls))) w.db g
              (found_saved flow w free),
        )
        (check_eq flow w)
