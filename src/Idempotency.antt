-- ===== src/Idempotency.antt =====
-- internal/platform/idempotency/store.go: a request under a key is done once, and answered again
-- from the stored response.
pub mod Laws
pub mod Bytes
pub mod Completion
pub mod Invariant
pub mod Runs
pub mod Replays
use skawld_maintenance.Prelude.{
  ℕ, ◌+◌, String, Bool, true, false, not, ◌&&◌, ◌||◌, Option, none, some, List, [], ◌∷◌, ◌++◌, ◌==◌,
  nat_eq, length, find, any, select, update, if◌then◌else◌,
}
use skawld_maintenance.Json.{Json}
use skawld_maintenance.Errors.{Sentinel, Failure, sentinel, key_conflict, in_progress}
use skawld_maintenance.Identity.Authorization.{Time, is_nil}
use skawld_maintenance.Database.{
  Env, Exec, with_uuid, Statement, pure, fail, wrap, ◌>>=◌, ◌>>◌, execute, query_row,
}
use skawld_maintenance.Database.Schema.{Db, KeyRow}
use Bytes.{equal_bytes}

-- `Record`: the zero value is `fresh`.
pub record Record : Type 0 where
  pub replay : Bool
  pub response_status : ℕ
  pub response_body : Option Json

abbrev pub fresh : Record
fresh = record { replay = false; response_status = 0; response_body = none }

-- `HashRequest`, of the text that `json.Marshal` wrote
unfoldable pub hash_request : Env → String → List ℕ
hash_request env encoded = env.sha256 encoded

-- The row of the primary key (principal_id, scope, idempotency_key).
abbrev pub has_key : String → String → String → KeyRow → Bool
has_key principal_id scope key row =
    row.principal_id == principal_id && row.scope == scope && row.idempotency_key == key

module _ (env : Env) (principal_id scope key : String) where
  -- The row that the INSERT adds.
  abbrev pub new_row : String → List ℕ → Time → KeyRow
  new_row p request_hash now = record {
    principal_id = p;
    scope = scope;
    idempotency_key = key;
    request_hash = request_hash;
    status = "PROCESSING";
    response_status = none;
    response_body = none;
    created_at = now;
    completed_at = none;
  }

  -- INSERT … ON CONFLICT DO NOTHING; returns the number of rows affected
  unfoldable pub insert_key : List ℕ → Time → Statement ℕ
  insert_key request_hash now db = with_uuid (env.cast_uuid principal_id) λ p.
      if any (has_key p scope key) db.idempotency_keys
      then some (0, db)
      else some (
        1,
        record db { idempotency_keys = db.idempotency_keys ++ new_row p request_hash now ∷ [] },
      )

  -- SELECT … FOR UPDATE
  unfoldable pub select_key : Statement (Option KeyRow)
  select_key db =
      with_uuid (env.cast_uuid principal_id)
        λ p. some (find (has_key p scope key) db.idempotency_keys, db)

  -- What `Begin` answers from the stored row.
  unfoldable pub answer : List ℕ → KeyRow → Exec Record
  answer request_hash row =
      if not (equal_bytes row.request_hash request_hash)
      then fail (sentinel key_conflict)
      else if not (row.status == "COMPLETED")
      then fail (sentinel in_progress)
      else elim row.response_status [
        | none ↦ fail (sentinel in_progress)
        | some status ↦
            pure (record {
              replay = true;
              response_status = status;
              response_body = row.response_body;
            })
      ]

  -- `Store.Begin`
  unfoldable pub begin : List ℕ → Time → Exec Record
  begin request_hash now = do
    affected ← wrap "insert idempotency key" (execute env (insert_key request_hash now))
    if nat_eq affected 1 then pure fresh else do
      row ← wrap "load idempotency key" (query_row env select_key)
      answer request_hash row

  abbrev pub is_pending : String → KeyRow → Bool
  is_pending p row = has_key p scope key row && row.status == "PROCESSING"

  abbrev pub completed_row : ℕ → Json → Time → KeyRow → KeyRow
  completed_row status body now row = record row {
    status = "COMPLETED";
    response_status = some status;
    response_body = some body;
    completed_at = some now;
  }

  -- UPDATE … WHERE status = 'PROCESSING'; returns the number of rows affected
  unfoldable pub complete_key : ℕ → Json → Time → Statement ℕ
  complete_key status body now db = with_uuid (env.cast_uuid principal_id) λ p. some (
    length (select (is_pending p) db.idempotency_keys),
    record db {
      idempotency_keys = update (is_pending p) (completed_row status body now) db.idempotency_keys;
    },
  )

  -- `Store.Complete`
  unfoldable pub complete : ℕ → Json → Time → Exec Unit
  complete status body now = do
    affected ← wrap "complete idempotency key" (execute env (complete_key status body now))
    if nat_eq affected 1 then pure tt else fail (sentinel in_progress)
