-- ===== src/Database.antt =====
-- internal/platform/database: statements and transactions, over what happens outside the program.
pub mod Schema
pub mod Laws
pub mod Keeps
pub mod Pool
pub mod Migrations
pub mod Runs
use skawld_maintenance.Prelude.{ℕ, ◌+◌, String, Option, none, some, List}
use skawld_maintenance.Errors.{Failure, no_rows, wrapped, driver, Result, ok, err}
use skawld_maintenance.Identity.Authorization.{Time}
use Schema.{Db}

-- How the n-th call of the server ends. `refused`: nothing was done, and the caller gets an error.
-- `lost`: the work was done, and the connection broke before the answer.
pub data Fate : Type 0 where
  answered refused lost : Fate

-- What the program does not decide: the clock, the generator of ids, the server's answers (each by
-- the number of the call), SHA-256, the server's reading of a text as a uuid (`none`: a syntax
-- error), pgx's encoding of a slice as an
-- array parameter (`none`: NULL), and what a timestamptz column keeps of a time.
pub record Env : Type 0 where
  pub clock : ℕ → Time
  pub ids : ℕ → String
  pub fate : ℕ → Fate
  pub sha256 : String → List ℕ
  pub cast_uuid : String → Option String
  pub encode_array : Option (List String) → Option (List String)
  pub timestamptz : Time → Time

pub record World : Type 0 where
  pub db : Db
  pub calls : ℕ

-- A program over the world.
abbrev pub Exec : Type 0 → Type 0
Exec A = World → Result A × World

module _ {A : Type 0} where
  unfoldable pub pure : A → Exec A
  pure a w = (ok a, w)

  unfoldable pub fail : Failure → Exec A
  fail e w = (err e, w)

  -- `fmt.Errorf("…: %w", err)` around the error of a call
  abbrev pub wrap_result : String → Result A → Result A
  wrap_result message (ok a) = ok a
  wrap_result message (err e) = err (wrapped message e)

  unfoldable pub wrap : String → Exec A → Exec A
  wrap message m w = let (r, w') = m w in (wrap_result message r, w')

-- A statement changes the tables and returns something, or a constraint or a cast refuses it.
abbrev pub Statement : Type 0 → Type 0
Statement A = Db → Option (A × Db)

-- A parameter cast to uuid: a syntax error refuses the statement.
abbrev pub with_uuid : {X A : Type 0} → Option X → (X → Option A) → Option A
with_uuid none q = none
with_uuid (some p) q = q p

module _ {A B : Type 0} where
  abbrev pub continue : Result A → (A → Exec B) → Exec B
  continue (ok a) f w = f a w
  continue (err e) f w = (err e, w)

  infixl 5 ◌>>=◌ ◌>>◌
  -- opening this opens `pure`, `fail` and `wrap` too
  unfoldable pub ◌>>=◌ : Exec A → (A → Exec B) → Exec B
  unfolding pure fail wrap
  ◌>>=◌ m f w = let (r, w') = m w in continue r f w'

  abbrev pub ◌>>◌ : Exec A → Exec B → Exec B
  m >> n = m >>= λ _. n

-- One more call has been made.
abbrev pub tick : World → World
tick w = record w { calls = w.calls + 1 }

module _ {A : Type 0} where
  abbrev pub settle : Fate → Option (A × Db) → World → Result A × World
  settle answered (some (a, db)) w = (ok a, record w { db = db })
  settle answered none w = (err driver, w)
  settle refused r w = (err driver, w)
  settle lost (some (a, db)) w = (err driver, record w { db = db })
  settle lost none w = (err driver, w)

  -- The row that `Scan` reads.
  abbrev pub expect_row : Option A → Exec A
  expect_row none = fail no_rows
  expect_row (some a) = pure a

module _ (env : Env) where
  -- `Clock.Now`
  unfoldable pub read_clock : Exec Time
  read_clock w = (ok (env.clock w.calls), tick w)

  -- `Generator.New`
  unfoldable pub draw_id : Exec String
  draw_id w = (ok (env.ids w.calls), tick w)

  module _ {A : Type 0} where
    -- `Exec` and `Query`
    unfoldable pub execute : Statement A → Exec A
    execute q w = settle (env.fate w.calls) (q w.db) (tick w)

    abbrev pub commit : Fate → Db → A → World → Result A × World
    commit answered before a w = (ok a, w)
    commit refused before a w =
        (err (wrapped "commit transaction" driver), record w { db = before })
    commit lost before a w = (err (wrapped "commit transaction" driver), w)

    abbrev pub finish : Db → Result A × World → Result A × World
    finish before (err e, w) = (err e, record w { db = before })
    finish before (ok a, w) = commit (env.fate w.calls) before a (tick w)

    abbrev pub begin : Fate → Exec A → Exec A
    begin answered body w = finish w.db (body w)
    begin refused body w = (err (wrapped "begin transaction" driver), w)
    begin lost body w = (err (wrapped "begin transaction" driver), w)

    -- `InTx`: an error of the body or of the commit rolls the tables back, unless the commit was
    -- done and only its answer was lost.
    unfoldable pub in_tx : Exec A → Exec A
    in_tx body w = begin (env.fate w.calls) body (tick w)

  -- `QueryRow(…).Scan(…)`
  unfoldable pub query_row : {A : Type 0} → Statement (Option A) → Exec A
  unfolding execute ◌>>=◌
  query_row q = execute q >>= expect_row
