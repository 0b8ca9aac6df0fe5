-- ===== src/Idempotency/Runs.antt =====
-- What a successful `Begin` or `Complete` tells, however the server's other answers went.
use skawld_maintenance.Prelude.{
  ℕ, String, ◌≡◌, sym, ap, ◌∙◌, true, false, some, List, arith, any, Bool-cases, Option-cases,
  nat_eq, nat_eq_iff, if◌then◌else◌, inl, inr,
}
use skawld_maintenance.Json.{Json}
use skawld_maintenance.Identity.Authorization.{Time}
use skawld_maintenance.Errors.{sentinel, in_progress}
use skawld_maintenance.Database.{Env, World, Exec, pure, fail, wrap, ◌>>=◌, execute, query_row}
use skawld_maintenance.Database.Runs.{
  Ran, Ran-bind, Ran-wrap, Ran-execute, Ran-pure, not-Ran-fail, some_inj,
}
use skawld_maintenance.Database.Schema.{Db, KeyRow}
use skawld_maintenance.Idempotency.{
  Record, fresh, has_key, insert_key, select_key, answer, begin, complete_key, complete,
}
use skawld_maintenance.Idempotency.Laws.{with_new, insert_taken, insert_free}
use skawld_maintenance.Idempotency.Completion.{with_response, affected, complete_key-eq}

module _ (env : Env) (principal_id scope key : String) where
  answer_replays :
      (h : List ℕ) (row : KeyRow) (v : World) (r : Record) (w' : World)
      → Ran (answer env principal_id scope key h row) v r w'
      → r.replay ≡ true
  unfolding answer ◌>>=◌
  answer_replays h row v r w' ran = ground arith

  -- The key had no row, and has one in process now.
  pub record IsBegun (h : List ℕ) (now : Time) (db db' : Db) : Type 0 where
    pub p : String
    pub uuid : env.cast_uuid principal_id ≡ some p
    pub free : any (has_key p scope key) db.idempotency_keys ≡ false
    pub left : db' ≡ with_new env principal_id scope key uuid h now db

  pub cast_of_insert_key :
      (h : List ℕ) (now : Time) (db : Db) {x : ℕ × Db}
      → insert_key env principal_id scope key h now db ≡ some x
      → (p : String) × (env.cast_uuid principal_id ≡ some p)
  unfolding insert_key
  cast_of_insert_key h now db e = elim (Option-cases (env.cast_uuid principal_id)) [
    | inl bad ↦ cc (rw (bad, insert_key) at e)
    | inr good ↦ good
  ]

  insert_key-one :
      (h : List ℕ) (now : Time) (db db' : Db)
      → insert_key env principal_id scope key h now db ≡ some (1, db')
      → IsBegun h now db db'
  insert_key-one h now db db' e =
      let (p, uuid) = cast_of_insert_key h now db e in
      elim (Bool-cases (any (has_key p scope key) db.idempotency_keys)) [
        | inl taken ↦
            let both =
              some_inj (sym (insert_taken env principal_id scope key uuid h now db taken) ∙ e) in
            absurd (omega (arith, both.0))
        | inr free ↦ record {
          p = p;
          uuid = uuid;
          free = free;
          left =
              sym
                (some_inj (sym (insert_free env principal_id scope key uuid h now db free) ∙ e)).1;
        }
      ]

  abbrev pub after_insert : List ℕ → ℕ → Exec Record
  after_insert h n = if nat_eq n 1 then pure fresh else do
    row ← wrap "load idempotency key" (query_row env (select_key env principal_id scope key))
    answer env principal_id scope key h row

  after_insert-new :
      (h : List ℕ) (now : Time) (n : ℕ) (db : Db) (v : World) (r : Record) (w' : World)
      → insert_key env principal_id scope key h now db ≡ some (n, v.db)
      → Ran (after_insert h n) v r w'
      → r.replay ≡ false
      → IsBegun h now db w'.db
  after_insert-new h now n db v r w' e ran new = elim (Bool-cases (nat_eq n 1)) [
    | inl one ↦
        let (_, same) = Ran-pure fresh r v w' (rw one at ran) in
        insert_key-one h now db w'.db (e ∙ λ i. some ((nat_eq_iff n 1).0 one i, (same i).db))
    | inr other ↦
        let (row, u, _, answered) = Ran-bind _ _ v r w' (rw other at ran) in
        cc (answer_replays h row u r w' answered, new)
  ]

  -- A `Begin` that returns a fresh record has put the key in process.
  pub Ran-begin :
      (h : List ℕ) (now : Time) (w : World) (r : Record) (w' : World)
      → Ran (begin env principal_id scope key h now) w r w'
      → r.replay ≡ false
      → IsBegun h now w.db w'.db
  unfolding begin
  Ran-begin h now w r w' ran new =
      let (n, v, inserted, rest) =
        Ran-bind
          (wrap "insert idempotency key"
            (execute env (insert_key env principal_id scope key h now)))
          (after_insert h) w r w' ran in
      after_insert-new h now n w.db v r w'
        (Ran-execute env (insert_key env principal_id scope key h now) w n v
          (Ran-wrap _ _ w n v inserted))
        rest new

  module _ {p : String} (uuid : env.cast_uuid principal_id ≡ some p) (status : ℕ) (body : Json)
      (now : Time) where
    completed_left :
        (n : ℕ) (db : Db) (v w' : World)
        → complete_key env principal_id scope key status body now db ≡ some (n, v.db)
        → Ran (if nat_eq n 1 then pure tt else fail (sentinel in_progress)) v (tt {0}) w'
        → (w'.db ≡ with_response env principal_id scope key uuid status body now db)
          × (nat_eq (affected env principal_id scope key uuid status body now db) 1 ≡ true)
    completed_left n db v w' e ran = elim (Bool-cases (nat_eq n 1)) [
      | inl one ↦
          let (count, left) =
            some_inj
              (sym (complete_key-eq env principal_id scope key uuid status body now db) ∙ e) in
          let (_, same) = Ran-pure (tt {0}) (tt {0}) v w' (rw one at ran) in
          (ap (λ (u : World). u.db) (sym same) ∙ sym left, ap (λ m. nat_eq m 1) count ∙ one)
      | inr other ↦ absurd (not-Ran-fail _ (tt {0}) v w' (rw other at ran))
    ]

    -- A `Complete` that returns has stored the response in exactly one row.
    pub Ran-complete :
        (w w' : World)
        → Ran (complete env principal_id scope key status body now) w (tt {0}) w'
        → (w'.db ≡ with_response env principal_id scope key uuid status body now w.db)
          × (nat_eq (affected env principal_id scope key uuid status body now w.db) 1 ≡ true)
    unfolding complete
    Ran-complete w w' ran =
        let (n, v, done, rest) =
          Ran-bind
            (wrap "complete idempotency key"
              (execute env (complete_key env principal_id scope key status body now)))
            (λ n. if nat_eq n 1 then pure tt else fail (sentinel in_progress)) w (tt {0}) w' ran in
        completed_left n w.db v w'
          (Ran-execute env (complete_key env principal_id scope key status body now) w n v
            (Ran-wrap _ _ w n v done))
          rest
