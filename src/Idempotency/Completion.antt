-- ===== src/Idempotency/Completion.antt =====
-- The invariant of the key table, and what `Complete` does under it.
use skawld_maintenance.Prelude.{
  ℕ, ◌≤◌, String, ◌≡◌, ◌≢◌, refl, ap, sym, ◌∙◌, ◌⊎◌, inl, inr, Bool, true, false, ◌&&◌, none, some,
  List, Memᴰ, arith, ◌==◌, eq_iff, find, any, select, update, length, Bool-cases, Option-cases,
  find-update, count-and-find, count_none, find-eq-some, find-eq-none, find_sound, if◌then◌else◌,
  nat_eq,
}
use skawld_maintenance.Json.{Json}
use skawld_maintenance.Errors.{Result, ok, err, sentinel, in_progress}
use skawld_maintenance.Identity.Authorization.{Time}
use skawld_maintenance.Database.{Env, answered, World, ◌>>=◌, tick, execute}
use skawld_maintenance.Database.Schema.{Db, KeyRow}
use skawld_maintenance.Idempotency.{has_key, complete_key, is_pending, completed_row, complete}
use skawld_maintenance.Idempotency.Laws.{
  KeyState, absent, processing, completed, to_state, view, same_key,
}

abbrev pub IsStated : KeyRow → Type 0
IsStated row =
    (row.status ≡ "PROCESSING") ⊎ ((row.status ≡ "COMPLETED") × (row.response_status ≢ none))

-- Each key has one row at most, and a completed row has a response.
pub record IsSound (rows : List KeyRow) : Type 0 where
  pub unique : (p s k : String) → length (select (has_key p s k) rows) ≤ 1
  pub stated : (row : KeyRow) → Memᴰ row rows → IsStated row

-- What `Complete` does to the state of its key, and what it returns.
abbrev pub complete_spec : KeyState → ℕ → Json → Result (Unit {0}) × KeyState
complete_spec absent status body = (err (sentinel in_progress), absent)
complete_spec (processing g) status body = (ok tt, completed g status (some body))
complete_spec (completed g s b) status body = (err (sentinel in_progress), completed g s b)

abbrev pub is_processing : KeyState → Bool
is_processing absent = false
is_processing (processing g) = true
is_processing (completed g s b) = false

pending_lem :
    (row : KeyRow)
    → IsStated row
    → nat_eq (if row.status == "PROCESSING" then 1 else 0) 1 ≡ is_processing (to_state (some row))
pending_lem row (inl pending) = ground (
  arith,
  eq_iff row.status "PROCESSING",
  eq_iff row.status "COMPLETED",
  eq_iff "PROCESSING" "COMPLETED",
)
pending_lem row (inr (done, answered')) = ground (
  arith,
  eq_iff row.status "PROCESSING",
  eq_iff row.status "COMPLETED",
  eq_iff "PROCESSING" "COMPLETED",
)

pub has_key-same :
    (p s k p' s' k' : String) (row : KeyRow)
    → has_key p' s' k' row ≡ true
    → has_key p s k row ≡ same_key p s k p' s' k'
has_key-same p s k p' s' k' row h =
    rw
      (
        (eq_iff row.principal_id p').0 (ground arith),
        (eq_iff row.scope s').0 (ground arith),
        (eq_iff row.idempotency_key k').0 (ground arith),
      )
      (ground (arith, eq_iff p p', eq_iff p' p, eq_iff s s', eq_iff s' s, eq_iff k k', eq_iff k' k))

module _ (env : Env) (principal_id scope key : String) {p : String}
    (uuid : env.cast_uuid principal_id ≡ some p) (status : ℕ) (body : Json) (now : Time) where
  abbrev pub with_response : Db → Db
  with_response db = record db {
    idempotency_keys =
        update (is_pending env principal_id scope key p)
          (completed_row env principal_id scope key status body now) db.idempotency_keys;
  }

  abbrev pub affected : Db → ℕ
  affected db = length (select (is_pending env principal_id scope key p) db.idempotency_keys)

  pub complete_key-eq :
      (db : Db)
      → complete_key env principal_id scope key status body now db
        ≡ some (affected db, with_response db)
  unfolding complete_key
  complete_key-eq db = rw (complete_key, uuid) refl

  complete_lem :
      (w : World)
      → env.fate w.calls ≡ answered
      → complete env principal_id scope key status body now w ≡ (
        (if nat_eq (affected w.db) 1 then ok tt else err (sentinel in_progress)),
        record (tick w) { db = with_response w.db },
      )
  unfolding complete execute ◌>>=◌
  complete_lem w f = rw (f, complete_key-eq w.db) (ground arith)

  -- The state of a row after the update; `mine` says whether the row has the key.
  state-completed_row :
      (mine : Bool) (row : KeyRow)
      → IsStated row
      → to_state (
          some (
            if mine && row.status == "PROCESSING"
            then completed_row env principal_id scope key status body now row
            else row))
        ≡ (if mine
            then (complete_spec (to_state (some row)) status body).1
            else to_state (some row))
  state-completed_row false row stated = refl
  state-completed_row true row (inl pending) =
      rw ((eq_iff row.status "PROCESSING").1 pending, pending) refl
  state-completed_row true row (inr (done, answered')) = elim (Option-cases row.response_status) [
    | inl missing ↦ absurd (answered' missing)
    | inr (s, found) ↦
        let stays : (row.status == "PROCESSING") ≡ false =
          ground (arith, eq_iff row.status "PROCESSING", eq_iff "PROCESSING" "COMPLETED") in
        let e : to_state (some row) ≡ completed row.request_hash s row.response_body =
          ground (arith, eq_iff row.status "COMPLETED") in
        ap
          (λ b. to_state (
            some (if b then completed_row env principal_id scope key status body now row else row)))
          stays
        ∙ e
        ∙ ap (λ st. (complete_spec st status body).1) (sym e)
  ]

  pub view-with_response :
      (db : Db) (p' s' k' : String)
      → IsSound db.idempotency_keys
      → view (with_response db) p' s' k' ≡ (
          if same_key p scope key p' s' k'
          then (complete_spec (view db p scope key) status body).1
          else view db p' s' k')
  unfolding view
  view-with_response db p' s' k' sound =
      rw
        (find-update (has_key p' s' k') (is_pending env principal_id scope key p)
          (completed_row env principal_id scope key status body now) (λ x. refl)
          db.idempotency_keys)
        (elim (Option-cases (find (has_key p' s' k') db.idempotency_keys)) [
          | inl missing ↦ ground (arith, eq_iff p p', eq_iff scope s', eq_iff key k')
          | inr (row, found) ↦
              let (listed, mine) = find_sound (has_key p' s' k') db.idempotency_keys found in
              rw found (
                ap
                  (λ b. to_state (
                    some (
                      if b && row.status == "PROCESSING"
                      then completed_row env principal_id scope key status body now row
                      else row)))
                  (has_key-same p scope key p' s' k' row mine)
                ∙ state-completed_row (same_key p scope key p' s' k') row (sound.stated row listed)
                ∙ ground (arith, eq_iff p p', eq_iff scope s', eq_iff key k'))
        ])

  pub affected-eq :
      (db : Db)
      → IsSound db.idempotency_keys
      → nat_eq (affected db) 1 ≡ is_processing (view db p scope key)
  unfolding view
  affected-eq db sound = elim (Bool-cases (any (has_key p scope key) db.idempotency_keys)) [
    | inr free ↦
        rw
          (
            count_none (has_key p scope key) (λ row. row.status == "PROCESSING") db.idempotency_keys
                free,
            find-eq-none (has_key p scope key) db.idempotency_keys free,
          )
          refl
    | inl taken ↦
        let (row, found) = find-eq-some (has_key p scope key) db.idempotency_keys taken in
        rw
          (
            count-and-find (has_key p scope key) (λ row. row.status == "PROCESSING")
                db.idempotency_keys row (sound.unique p scope key) found,
            found,
          )
          (pending_lem row (sound.stated row (find_sound _ db.idempotency_keys found).0))
  ]

  reply_lem :
      (st : KeyState)
      → (if is_processing st then ok tt else err (sentinel in_progress))
        ≡ (complete_spec st status body).0
  reply_lem absent = refl
  reply_lem (processing g) = refl
  reply_lem (completed g s b) = refl

  -- Where the principal's id is a uuid, the server answers and the key table is sound, `Complete`
  -- succeeds exactly for a key in process, stores the response there, and leaves the state of every
  -- other key.
  pub complete-eq_spec :
      (w : World)
      → env.fate w.calls ≡ answered
      → IsSound w.db.idempotency_keys
      → ((complete env principal_id scope key status body now w).0
          ≡ (complete_spec (view w.db p scope key) status body).0)
        × ((p' s' k' : String)
            → view (complete env principal_id scope key status body now w).1.db p' s' k' ≡ (
                if same_key p scope key p' s' k'
                then (complete_spec (view w.db p scope key) status body).1
                else view w.db p' s' k'))
  complete-eq_spec w f sound =
      rw (complete_lem w f, affected-eq w.db sound)
        (reply_lem (view w.db p scope key), λ p' s' k'. view-with_response w.db p' s' k' sound)
