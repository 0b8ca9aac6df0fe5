-- ===== src/Idempotency/Laws.antt =====
-- What the key table promises: each key is absent, in process, or completed with a response, and
-- the two operations move it along, leaving every other key alone.
use skawld_maintenance.Prelude.{
  ℕ, ◌+◌, String, ◌≡◌, refl, ap, sym, inl, inr, Bool, true, false, ◌&&◌, Option, none, some, List,
  [], ◌∷◌, ◌++◌, arith, ◌==◌, eq_iff, find, any, Bool-cases, find-append, find-eq-none,
  find-eq-some, if◌then◌else◌,
}
use skawld_maintenance.Json.{Json}
use skawld_maintenance.Errors.{Result, ok, err, sentinel, key_conflict, in_progress}
use skawld_maintenance.Identity.Authorization.{Time}
use skawld_maintenance.Database.{Env, answered, World, ◌>>=◌, tick, execute, query_row}
use skawld_maintenance.Database.Schema.{Db, KeyRow}
use skawld_maintenance.Idempotency.{
  Record, fresh, has_key, insert_key, select_key, answer, begin, new_row,
}
use skawld_maintenance.Idempotency.Bytes.{equal_bytes}

-- The state of a key: the digest of its request, and the response once there is one.
pub data KeyState : Type 0 where
  absent : KeyState
  processing : List ℕ → KeyState
  completed : List ℕ → ℕ → Option Json → KeyState

abbrev pub to_state : Option KeyRow → KeyState
to_state none = absent
to_state (some row) =
    if row.status == "COMPLETED"
    then elim row.response_status [
      | none ↦ processing row.request_hash
      | some status ↦ completed row.request_hash status row.response_body
    ]
    else processing row.request_hash

unfoldable pub view : Db → String → String → String → KeyState
view db p s k = to_state (find (has_key p s k) db.idempotency_keys)

-- What `Begin` does to the state of its key, and what it returns.
abbrev pub begin_spec : KeyState → List ℕ → Result Record × KeyState
begin_spec absent h = (ok fresh, processing h)
begin_spec (processing g) h = (
  if equal_bytes g h then err (sentinel in_progress) else err (sentinel key_conflict),
  processing g,
)
begin_spec (completed g status body) h = (
  if equal_bytes g h
      then ok (record { replay = true; response_status = status; response_body = body })
      else err (sentinel key_conflict),
  completed g status body,
)

abbrev pub same_key : String → String → String → String → String → String → Bool
same_key p s k p' s' k' = p == p' && s == s' && k == k'

pub answer-eq_spec :
    (env : Env) (p s k : String) (h : List ℕ) (row : KeyRow) (w : World)
    → answer env p s k h row w ≡ ((begin_spec (to_state (some row)) h).0, w)
unfolding answer ◌>>=◌
answer-eq_spec env p s k h row w = ground arith

module _ (env : Env) (principal_id scope key : String) {p : String}
    (uuid : env.cast_uuid principal_id ≡ some p) (h : List ℕ) (now : Time) where
  pub insert_taken :
      (db : Db)
      → any (has_key p scope key) db.idempotency_keys ≡ true
      → insert_key env principal_id scope key h now db ≡ some (0, db)
  unfolding insert_key
  insert_taken db taken = rw (insert_key, uuid, taken) refl

  abbrev pub with_new : Db → Db
  with_new db = record db {
    idempotency_keys = db.idempotency_keys ++ new_row env principal_id scope key p h now ∷ [];
  }

  pub insert_free :
      (db : Db)
      → any (has_key p scope key) db.idempotency_keys ≡ false
      → insert_key env principal_id scope key h now db ≡ some (1, with_new db)
  unfolding insert_key
  insert_free db free = rw (insert_key, uuid, free) refl

  pub view-with_new :
      (db : Db) (p' s' k' : String)
      → any (has_key p scope key) db.idempotency_keys ≡ false
      → view (with_new db) p' s' k'
        ≡ (if same_key p scope key p' s' k' then processing h else view db p' s' k')
  unfolding view
  view-with_new db p' s' k' free = ground (
    arith,
    find-append (has_key p' s' k') db.idempotency_keys
        (new_row env principal_id scope key p h now ∷ []),
    find-eq-none (has_key p scope key) db.idempotency_keys free,
    eq_iff p p',
    eq_iff scope s',
    eq_iff key k',
  )

  pub begin_free :
      (w : World)
      → env.fate w.calls ≡ answered
      → any (has_key p scope key) w.db.idempotency_keys ≡ false
      → begin env principal_id scope key h now w
        ≡ (ok fresh, record (tick w) { db = with_new w.db })
  unfolding begin execute ◌>>=◌
  begin_free w f free = rw (f, insert_free w.db free) refl

  pub begin_taken :
      (w : World) (row : KeyRow)
      → env.fate w.calls ≡ answered
      → env.fate (w.calls + 1) ≡ answered
      → find (has_key p scope key) w.db.idempotency_keys ≡ some row
      → any (has_key p scope key) w.db.idempotency_keys ≡ true
      → begin env principal_id scope key h now w
        ≡ ((begin_spec (to_state (some row)) h).0, tick (tick w))
  unfolding begin execute query_row select_key ◌>>=◌
  begin_taken w row f g found taken =
      rw (f, insert_taken w.db taken, g, select_key, uuid, found)
        (answer-eq_spec env principal_id scope key h row (tick (tick w)))

  view_found :
      (db : Db) (row : KeyRow)
      → find (has_key p scope key) db.idempotency_keys ≡ some row
      → view db p scope key ≡ to_state (some row)
  unfolding view
  view_found db row found = rw found refl

  view_free :
      (db : Db)
      → any (has_key p scope key) db.idempotency_keys ≡ false
      → view db p scope key ≡ absent
  unfolding view
  view_free db free = rw (find-eq-none (has_key p scope key) db.idempotency_keys free) refl

  state_kept :
      (db : Db) (row : KeyRow) (p' s' k' : String)
      → find (has_key p scope key) db.idempotency_keys ≡ some row
      → view db p' s' k' ≡ (
          if same_key p scope key p' s' k'
          then (begin_spec (view db p scope key) h).1
          else view db p' s' k')
  unfolding view
  state_kept db row p' s' k' found = ground (arith, eq_iff p p', eq_iff scope s', eq_iff key k')

  -- Where the principal's id is a uuid and the server answers both calls, `Begin` returns what the
  -- state of its key calls for, moves that state as the protocol says, and leaves the state of every
  -- other key.
  pub begin-eq_spec :
      (w : World)
      → env.fate w.calls ≡ answered
      → env.fate (w.calls + 1) ≡ answered
      → ((begin env principal_id scope key h now w).0 ≡ (begin_spec (view w.db p scope key) h).0)
        × ((p' s' k' : String)
            → view (begin env principal_id scope key h now w).1.db p' s' k' ≡ (
                if same_key p scope key p' s' k'
                then (begin_spec (view w.db p scope key) h).1
                else view w.db p' s' k'))
  begin-eq_spec w f g = elim (Bool-cases (any (has_key p scope key) w.db.idempotency_keys)) [
    | inl taken ↦
        let (row, found) = find-eq-some (has_key p scope key) w.db.idempotency_keys taken in
        rw (begin_taken w row f g found taken) (
          ap (λ st. (begin_spec st h).0) (sym (view_found w.db row found)),
          λ p' s' k'. state_kept w.db row p' s' k' found,
        )
    | inr free ↦ rw (begin_free w f free) (
      ap (λ st. (begin_spec st h).0) (sym (view_free w.db free)),
      λ p' s' k'. rw (view_free w.db free) (view-with_new w.db p' s' k' free),
    )
  ]
