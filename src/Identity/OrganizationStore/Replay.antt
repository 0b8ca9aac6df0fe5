-- ===== src/Identity/OrganizationStore/Replay.antt =====
-- A second request under the same key gets the first one's response, or a conflict.
use skawld_maintenance.Prelude.{
  ℕ, ◌+◌, String, ◌≡◌, refl, sym, ap, ◌∙◌, true, false, Option, none, some, List, arith, any,
  find-eq-some, find-eq-none, find, not, ◌||◌, if◌then◌else◌, Bool-cases, Option-cases, ◌≢◌, inl,
  inr,
}
use mathlib.Core.Path.{subst}
use skawld_maintenance.Json.{Json}
use skawld_maintenance.Identity.Authorization.{Time, Principal}
use skawld_maintenance.Errors.{
  ok, err, sentinel, key_conflict, in_progress, Result, text, wrapped, driver,
}
use skawld_maintenance.Database.{
  Env, World, Fate, answered, refused, lost, finish, commit, tick, ◌>>=◌, continue, in_tx,
  read_clock,
}
use skawld_maintenance.Database.Runs.{Ran, not-Ran-fail}
use skawld_maintenance.Database.Schema.{Db, KeyRow}
use skawld_maintenance.Idempotency.{has_key}
use skawld_maintenance.Idempotency.Bytes.{equal_bytes, equal_bytes_iff}
use skawld_maintenance.Idempotency.Laws.{
  KeyState, absent, processing, completed, view, begin_spec, to_state, begin_taken,
}
use skawld_maintenance.Idempotency.Invariant.{KeysSound}
use skawld_maintenance.Identity.Service.{
  CreateOrganization, CreateOrganizationResult, Created, encode_result, decode_result,
}
use skawld_maintenance.Identity.OrganizationStore.{
  OrganizationStore, create_organization_scope, create_in_tx, create, resume,
}
use skawld_maintenance.Identity.OrganizationStore.Response.{decode-encode_result, view_of_IsCreated}
use skawld_maintenance.Identity.OrganizationStore.Once.{request_hash, create-Outcome}

module _ (env : Env) (principal : Principal) (key : String) (command : CreateOrganization) where
  abbrev hash : List ℕ
  hash = request_hash env principal key command

  -- The server answers the calls of a request that finds its key taken.
  pub record Answers (w : World) : Type 0 where
    pub begin : env.fate w.calls ≡ answered
    pub insert : env.fate (w.calls + 2) ≡ answered
    pub select : env.fate (w.calls + 3) ≡ answered
    pub commit : env.fate (w.calls + 4) ≡ answered

  -- What a request gets whose key is taken.
  abbrev pub second_reply : KeyState → Result Created
  second_reply absent = err (text "unreachable")
  second_reply (processing g) =
      if equal_bytes g hash then err (sentinel in_progress) else err (sentinel key_conflict)
  second_reply (completed g status body) =
      if equal_bytes g hash
      then elim (decode_result body) [
        | none ↦ err (wrapped "decode idempotent response" driver)
        | some r ↦ ok (r, true)
      ]
      else err (sentinel key_conflict)

  resume-eq_reply :
      (st : KeyState) (now : Time) (v : World)
      → st ≢ absent
      → continue (begin_spec st hash).0 (resume env principal key command now) v
        ≡ (second_reply st, v)
  unfolding resume ◌>>=◌
  resume-eq_reply absent now v h = absurd (h refl)
  resume-eq_reply (processing g) now v h = ground arith
  resume-eq_reply (completed g status body) now v h = elim (Bool-cases (equal_bytes g hash)) [
    | inr other ↦ rw other refl
    | inl same ↦ rw same (elim (Option-cases (decode_result body)) [
      | inl bad ↦ rw bad refl
      | inr (r, good) ↦ rw good refl
    ])
  ]

  module _ {p : String} (uuid : env.cast_uuid principal.id ≡ some p) where
    body_second :
        (u : World) (row : KeyRow)
        → env.fate (u.calls + 1) ≡ answered
        → env.fate (u.calls + 1 + 1) ≡ answered
        → find (has_key p create_organization_scope key) u.db.idempotency_keys ≡ some row
        → any (has_key p create_organization_scope key) u.db.idempotency_keys ≡ true
        → to_state (some row) ≢ absent
        → create_in_tx env principal key command u
          ≡ (second_reply (to_state (some row)), tick (tick (tick u)))
    unfolding create_in_tx ◌>>=◌ read_clock
    body_second u row f g found taken old =
        rw
          (begin_taken env principal.id create_organization_scope key uuid hash (env.clock u.calls)
            (tick u) row f g found taken)
          (resume-eq_reply (to_state (some row)) (env.clock u.calls) (tick (tick (tick u))) old)

    found_of_view :
        (db : Db)
        → view db p create_organization_scope key ≢ absent
        → (row : KeyRow) × (find (has_key p create_organization_scope key) db.idempotency_keys
            ≡ some row)
          × (any (has_key p create_organization_scope key) db.idempotency_keys ≡ true)
          × (view db p create_organization_scope key ≡ to_state (some row))
    unfolding view
    found_of_view db h =
        elim (Bool-cases (any (has_key p create_organization_scope key) db.idempotency_keys)) [
          | inl taken ↦
              let (row, found) =
                find-eq-some (has_key p create_organization_scope key) db.idempotency_keys taken in
              (row, found, taken, ap to_state found)
          | inr free ↦ absurd (
              h (
                ap to_state (
                  find-eq-none (has_key p create_organization_scope key) db.idempotency_keys free)))
        ]

    finish_reply :
        (r : Result Created) (v : World) (before : Db)
        → env.fate v.calls ≡ answered
        → (finish env before (r, v)).0 ≡ r
    finish_reply (ok x) v before f = rw f refl
    finish_reply (err e) v before f = refl

    commit_same : (f : Fate) (x : Created) (v : World) → (commit env f v.db x (tick v)).1.db ≡ v.db
    commit_same answered x v = refl
    commit_same refused x v = refl
    commit_same lost x v = refl

    finish_same : (r : Result Created) (v : World) → (finish env v.db (r, v)).1.db ≡ v.db
    finish_same (ok x) v = commit_same (env.fate v.calls) x v
    finish_same (err e) v = refl

    module _ (store : OrganizationStore)
        (wired : (not store.pool || not store.ids || not store.clock) ≡ false) (w : World)
        (answers : Answers w) where
      -- Where the store has its pool, generator and clock, the principal's id is a uuid and the server
      -- answers, a request whose key is taken changes no table. It gets the stored response as a replay if
      -- the key is completed under its own digest, "still processing" if the key is in process
      -- under its own digest, and a conflict if the digest is another one.
      pub create_second :
          view w.db p create_organization_scope key ≢ absent
          → ((create env store principal key command w).0
              ≡ second_reply (view w.db p create_organization_scope key))
            × ((create env store principal key command w).1.db ≡ w.db)
      unfolding create in_tx
      create_second old =
          let (row, found, taken, state) = found_of_view w.db old in
          let f : env.fate (w.calls + 1 + 1) ≡ answered =
            subst (λ n. env.fate n ≡ answered) (omega arith) answers.insert in
          let g : env.fate (w.calls + 1 + 1 + 1) ≡ answered =
            subst (λ n. env.fate n ≡ answered) (omega arith) answers.select in
          let c : env.fate (w.calls + 1 + 1 + 1 + 1) ≡ answered =
            subst (λ n. env.fate n ≡ answered) (omega arith) answers.commit in
          rw
            (
              wired,
              create,
              answers.begin,
              body_second (tick w) row f g found taken (λ e. old (state ∙ e)),
            )
            (
              finish_reply (second_reply (to_state (some row))) (tick (tick (tick (tick w)))) w.db c
                  ∙ ap second_reply (sym state),
              finish_same (second_reply (to_state (some row))) (tick (tick (tick (tick w)))),
            )

  second_reply_completed :
      (r : CreateOrganizationResult)
      → second_reply (completed hash 201 (some (encode_result r))) ≡ ok (r, true)
  second_reply_completed r = rw ((equal_bytes_iff hash hash).1 refl, decode-encode_result r) refl

  wired_of :
      (store : OrganizationStore) (w w' : World) (r : Created)
      → Ran (create env store principal key command) w r w'
      → (not store.pool || not store.ids || not store.clock) ≡ false
  unfolding create
  wired_of store w w' r ran =
      elim (Bool-cases (not store.pool || not store.ids || not store.clock)) [
        | inl missing ↦ absurd (not-Ran-fail _ r w w' (rw (missing, create) at ran))
        | inr there ↦ there
      ]

  pub completed-not-absent : (g : List ℕ) (n : ℕ) (b : Option Json) → completed g n b ≢ absent
  completed-not-absent g n b e = cc e

  -- The same request sent again after a creation returned, to a key table that was sound and in which
  -- the key's state is as the creation left it, when the server answers the calls of the second
  -- request: it returns the same result as a replay and changes no table.
  pub create_again :
      (store : OrganizationStore) (w w' : World) (r : CreateOrganizationResult)
      → KeysSound w.db
      → Ran (create env store principal key command) w (r, false) w'
      → (v : World)
      → ((q : String)
          → view v.db q create_organization_scope key ≡ view w'.db q create_organization_scope key)
      → Answers v
      → ((create env store principal key command v).0 ≡ ok (r, true))
        × ((create env store principal key command v).1.db ≡ v.db)
  create_again store w w' r sound ran v same answers =
      elim (create-Outcome env principal key command store w (r, false) w' ran) [
        | inl (old, _, _) ↦ cc old
        | inr (_, c) ↦
            let st : view v.db c.begun.p create_organization_scope key
                ≡ completed hash 201 (some (encode_result r)) =
              same c.begun.p ∙ view_of_IsCreated env principal key command w.db w'.db r sound c in
            let (reply, kept) =
              create_second c.begun.uuid store (wired_of store w w' (r, false) ran) v answers
                (λ e. completed-not-absent _ _ _ (sym st ∙ e)) in
            (reply ∙ ap second_reply st ∙ second_reply_completed r, kept)
      ]
