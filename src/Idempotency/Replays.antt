-- ===== src/Idempotency/Replays.antt =====
-- What a `Begin` tells that replays a response.
use skawld_maintenance.Prelude.{
  ℕ, String, ◌≡◌, sym, ap, ◌∙◌, true, false, Option, some, List, arith, any, Bool-cases,
  Option-cases, nat_eq, inl, inr,
}
use skawld_maintenance.Identity.Authorization.{Time}
use skawld_maintenance.Database.{Env, World, wrap, ◌>>=◌, execute}
use skawld_maintenance.Database.Runs.{
  Ran, Ran-bind, Ran-wrap, Ran-execute, Ran-query_row, Ran-pure, some_inj,
}
use skawld_maintenance.Database.Schema.{Db, KeyRow}
use skawld_maintenance.Idempotency.{Record, fresh, has_key, insert_key, select_key, answer, begin}
use skawld_maintenance.Idempotency.Laws.{
  insert_taken, insert_free, KeyState, absent, processing, completed, to_state, view, begin_spec,
  answer-eq_spec,
}
use skawld_maintenance.Idempotency.Bytes.{equal_bytes, equal_bytes_iff}
use skawld_maintenance.Errors.{Result, ok}
use mathlib.Core.Path.{subst}
use skawld_maintenance.Idempotency.Runs.{cast_of_insert_key, after_insert}

module _ (env : Env) (principal_id scope key : String) where
  answer_keeps_db :
      (h : List ℕ) (row : KeyRow) (v : World) (r : Record) (w' : World)
      → Ran (answer env principal_id scope key h row) v r w'
      → w'.db ≡ v.db
  unfolding answer ◌>>=◌
  answer_keeps_db h row v r w' ran = ground arith

  select_key_keeps_db :
      (db db' : Db) (row : Option KeyRow)
      → select_key env principal_id scope key db ≡ some (row, db')
      → db' ≡ db
  unfolding select_key
  select_key_keeps_db db db' row e = elim (Option-cases (env.cast_uuid principal_id)) [
    | inl bad ↦ cc (rw (bad, select_key) at e)
    | inr (p, uuid) ↦ sym (some_inj (rw (uuid, select_key) at e)).1
  ]

  insert_key-other :
      (h : List ℕ) (now : Time) (n : ℕ) (db db' : Db)
      → insert_key env principal_id scope key h now db ≡ some (n, db')
      → nat_eq n 1 ≡ false
      → db' ≡ db
  insert_key-other h now n db db' e other =
      let (p, uuid) = cast_of_insert_key env principal_id scope key h now db e in
      elim (Bool-cases (any (has_key p scope key) db.idempotency_keys)) [
        | inl taken ↦
            sym (some_inj (sym (insert_taken env principal_id scope key uuid h now db taken) ∙ e)).1
        | inr free ↦
            let both =
              some_inj (sym (insert_free env principal_id scope key uuid h now db free) ∙ e) in
            absurd (ground (arith, both.0))
      ]

  spec_replays :
      (h : List ℕ) (st : KeyState) (r : Record)
      → (begin_spec st h).0 ≡ ok r
      → r.replay ≡ true
      → st ≡ completed h r.response_status r.response_body
  spec_replays h absent r e old = cc
  spec_replays h (processing g) r e old = elim (Bool-cases (equal_bytes g h)) [
    | inl same ↦ cc (rw same at e)
    | inr other ↦ cc (rw other at e)
  ]
  spec_replays h (completed g status body) r e old = elim (Bool-cases (equal_bytes g h)) [
    | inr other ↦ cc (rw other at e)
    | inl same ↦ cc ((equal_bytes_iff g h).0 same, rw same at e)
  ]

  -- The response that a replay is made of.
  pub record IsReplayed (h : List ℕ) (db : Db) (r : Record) : Type 0 where
    pub p : String
    pub uuid : env.cast_uuid principal_id ≡ some p
    pub state : view db p scope key ≡ completed h r.response_status r.response_body

  selected_replays :
      (h : List ℕ) (db db' : Db) (row : KeyRow) (u w' : World) (r : Record)
      → select_key env principal_id scope key db ≡ some (some row, db')
      → Ran (answer env principal_id scope key h row) u r w'
      → r.replay ≡ true
      → IsReplayed h db r
  unfolding select_key view
  selected_replays h db db' row u w' r e ran old =
      elim (Option-cases (env.cast_uuid principal_id)) [
        | inl bad ↦ cc (rw (bad, select_key) at e)
        | inr (p, uuid) ↦ record {
          p = p;
          uuid = uuid;
          state =
              ap to_state (some_inj (rw (uuid, select_key) at e)).0
              ∙ spec_replays h (to_state (some row)) r
                  (ap (λ (x : Result Record × World). x.0)
                    (sym (answer-eq_spec env principal_id scope key h row u) ∙ ran))
                  old;
        }
      ]

  after_insert-old :
      (h : List ℕ) (now : Time) (n : ℕ) (db : Db) (v : World) (r : Record) (w' : World)
      → insert_key env principal_id scope key h now db ≡ some (n, v.db)
      → Ran (after_insert env principal_id scope key h n) v r w'
      → r.replay ≡ true
      → (w'.db ≡ db) × IsReplayed h db r
  after_insert-old h now n db v r w' e ran old = elim (Bool-cases (nat_eq n 1)) [
    | inl one ↦
        let (same, _) = Ran-pure fresh r v w' (rw one at ran) in
        cc (ap (λ (x : Record). x.replay) same, old)
    | inr other ↦
        let (row, u, selected, answered) = Ran-bind _ _ v r w' (rw other at ran) in
        let q =
          Ran-query_row env (select_key env principal_id scope key) v row u
            (Ran-wrap _ _ v row u selected) in
        let kept = insert_key-other h now n db v.db e other in
        (
          answer_keeps_db h row u r w' answered ∙ select_key_keeps_db v.db u.db (some row) q ∙ kept,
          subst (λ d. IsReplayed h d r) kept
              (selected_replays h v.db u.db row u w' r q answered old),
        )
  ]

  -- A `Begin` that replays changes nothing, and gives the response of a key that is completed under
  -- the digest of the request.
  pub Ran-begin_replay :
      (h : List ℕ) (now : Time) (w : World) (r : Record) (w' : World)
      → Ran (begin env principal_id scope key h now) w r w'
      → r.replay ≡ true
      → (w'.db ≡ w.db) × IsReplayed h w.db r
  unfolding begin
  Ran-begin_replay h now w r w' ran old =
      let (n, v, inserted, rest) =
        Ran-bind
          (wrap "insert idempotency key"
            (execute env (insert_key env principal_id scope key h now)))
          (after_insert env principal_id scope key h) w r w' ran in
      after_insert-old h now n w.db v r w'
        (Ran-execute env (insert_key env principal_id scope key h now) w n v
          (Ran-wrap _ _ w n v inserted))
        rest old
