-- ===== src/Database/Laws.antt =====
-- Transactions are atomic, whatever the server answers.
use skawld_maintenance.Prelude.{◌≡◌, ◌⊎◌, inl, inr, refl}
use skawld_maintenance.Errors.{Failure, Result, ok, err}
use skawld_maintenance.Database.{
  Env, Fate, answered, refused, lost, World, Exec, tick, in_tx, finish, begin, commit,
}

module _ {A : Type 0} where
  -- Nothing of the body is kept, and the caller gets an error.
  pub record IsUndone (w : World) (r : Result A × World) : Type 0 where
    pub failure : Failure
    pub reported : r.0 ≡ err failure
    pub kept : r.1.db ≡ w.db

  -- The body returned, and the tables are those that it left.
  pub record IsDone (body : Exec A) (w : World) (r : Result A × World) : Type 0 where
    pub value : A
    pub after : World
    pub returned : body (tick w) ≡ (ok value, after)
    pub kept : r.1.db ≡ after.db

module _ (env : Env) {A : Type 0} (body : Exec A) (w : World) where
  commit_cases :
      (f : Fate) (a : A) (after : World)
      → body (tick w) ≡ (ok a, after)
      → IsUndone w (commit env f w.db a (tick after))
        ⊎ IsDone body w (commit env f w.db a (tick after))
  commit_cases answered a after h =
      inr (record { value = a; after = after; returned = h; kept = refl })
  commit_cases refused a after h = inl (record { failure = _; reported = refl; kept = refl })
  commit_cases lost a after h = inr (record { value = a; after = after; returned = h; kept = refl })

  finish_cases :
      (r : Result A × World)
      → body (tick w) ≡ r
      → IsUndone w (finish env w.db r) ⊎ IsDone body w (finish env w.db r)
  finish_cases (ok a, after) h = commit_cases (env.fate after.calls) a after h
  finish_cases (err e, after) h = inl (record { failure = e; reported = refl; kept = refl })

  begin_cases :
      (f : Fate)
      → IsUndone w (begin env f body (tick w)) ⊎ IsDone body w (begin env f body (tick w))
  begin_cases answered = finish_cases (body (tick w)) refl
  begin_cases refused = inl (record { failure = _; reported = refl; kept = refl })
  begin_cases lost = inl (record { failure = _; reported = refl; kept = refl })

  -- A transaction is all or nothing: it fails and leaves the tables as they were, or its body
  -- returned and the tables are those that the body left.
  pub in_tx_atomic : IsUndone w (in_tx env body w) ⊎ IsDone body w (in_tx env body w)
  unfolding in_tx
  in_tx_atomic = begin_cases (env.fate w.calls)
