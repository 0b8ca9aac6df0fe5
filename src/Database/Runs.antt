-- ===== src/Database/Runs.antt =====
-- What a successful run tells: each part of the program returned, and each statement was carried
-- out on the tables that the parts before it left.
use skawld_maintenance.Prelude.{String, ◌+◌, ◌≡◌, refl, sym, ap, ◌∙◌, Option, none, some}
use skawld_maintenance.Errors.{Result, ok, err, Failure}
use skawld_maintenance.Database.{
  Env, Fate, answered, refused, lost, World, Exec, Statement, pure, fail, wrap_result, wrap,
  continue, ◌>>=◌, tick, settle, expect_row, with_uuid, read_clock, draw_id, execute, query_row,
  commit, finish, begin, in_tx,
}
use skawld_maintenance.Identity.Authorization.{Time}
use skawld_maintenance.Database.Schema.{Db}

module _ {A : Type 0} where
  abbrev pub Gives : Result A × World → A → World → Type 0
  Gives x a w = x ≡ (ok a, w)

  -- The program returns `a` and leaves `w'`.
  abbrev pub Ran : Exec A → World → A → World → Type 0
  Ran m w a w' = Gives (m w) a w'

  -- `ok` and pairs are injective.
  pub ok_inj : {a b : A} {w w' : World} → Gives (ok a, w) b w' → (a ≡ b) × (w ≡ w')
  ok_inj h = (cc, cc)

  pub some_inj :
      {a b : A} {d d' : Db}
      → ◌≡◌ {A = Option (A × Db)} (some (a, d)) (some (b, d'))
      → (a ≡ b) × (d ≡ d')
  some_inj h = (cc, cc)

  pub Ran-pure : (a b : A) (w w' : World) → Ran (pure a) w b w' → (a ≡ b) × (w ≡ w')
  unfolding pure
  Ran-pure a b w w' h = ok_inj h

  pub not-Ran-fail : (e : Failure) (b : A) (w w' : World) → ¬ (Ran (fail e) w b w')
  unfolding fail
  not-Ran-fail e b w w' h = cc (ap (λ (x : Result A × World). x.0) h)

  pub Ran-wrap :
      (message : String) (m : Exec A) (w : World) (a : A) (w' : World)
      → Ran (wrap message m) w a w'
      → Ran m w a w'
  unfolding wrap
  Ran-wrap message m w a w' h = go (m w).0 (m w).1 h
    where
      go : (r : Result A) (v : World) → Gives (wrap_result message r, v) a w' → Gives (r, v) a w'
      go (ok b) v e = e
      go (err f) v e = cc (ap (λ (x : Result A × World). x.0) e)

  settled :
      (f : Fate) (r : Option (A × Db)) (w : World) (a : A) (w' : World)
      → settle f r w ≡ (ok a, w')
      → r ≡ some (a, w'.db)
  settled answered (some (b, db)) w a w' h =
      let (same, next) = ok_inj h in cc (same, ap (λ (v : World). v.db) next)
  settled answered none w a w' h = cc (ap (λ (x : Result A × World). x.0) h)
  settled refused r w a w' h = cc (ap (λ (x : Result A × World). x.0) h)
  settled lost (some (b, db)) w a w' h = cc (ap (λ (x : Result A × World). x.0) h)
  settled lost none w a w' h = cc (ap (λ (x : Result A × World). x.0) h)

  pub Ran-execute :
      (env : Env) (q : Statement A) (w : World) (a : A) (w' : World)
      → Ran (execute env q) w a w'
      → q w.db ≡ some (a, w'.db)
  unfolding execute
  Ran-execute env q w a w' h = settled (env.fate w.calls) (q w.db) (tick w) a w' h

  settled_calls :
      (f : Fate) (r : Option (A × Db)) (w : World) (a : A) (w' : World)
      → settle f r w ≡ (ok a, w')
      → w'.calls ≡ w.calls
  settled_calls answered (some (b, db)) w a w' h = ap (λ (v : World). v.calls) (sym (ok_inj h).1)
  settled_calls answered none w a w' h = cc (ap (λ (x : Result A × World). x.0) h)
  settled_calls refused r w a w' h = cc (ap (λ (x : Result A × World). x.0) h)
  settled_calls lost (some (b, db)) w a w' h = cc (ap (λ (x : Result A × World). x.0) h)
  settled_calls lost none w a w' h = cc (ap (λ (x : Result A × World). x.0) h)

  -- A statement is one call.
  pub Ran-execute_calls :
      (env : Env) (q : Statement A) (w : World) (a : A) (w' : World)
      → Ran (execute env q) w a w'
      → w'.calls ≡ w.calls + 1
  unfolding execute
  Ran-execute_calls env q w a w' h = settled_calls (env.fate w.calls) (q w.db) (tick w) a w' h

  pub with_uuid-eq-some :
      {X : Type 0} (u : Option X) (q : X → Option A) {a : A}
      → with_uuid u q ≡ some a
      → (p : X) × (u ≡ some p) × (q p ≡ some a)
  with_uuid-eq-some none q h = cc
  with_uuid-eq-some (some p) q h = (p, refl, h)

module _ {A B : Type 0} where
  pub Ran-bind :
      (m : Exec A) (f : A → Exec B) (w : World) (b : B) (w' : World)
      → Ran (m >>= f) w b w'
      → (a : A) × (v : World) × Ran m w a v × Ran (f a) v b w'
  unfolding ◌>>=◌
  Ran-bind m f w b w' h = go (m w).0 (m w).1 refl h
    where
      go :
          (r : Result A) (v : World)
          → m w ≡ (r, v)
          → continue r f v ≡ (ok b, w')
          → (a : A) × (v : World) × (m w ≡ (ok a, v)) × (f a v ≡ (ok b, w'))
      go (ok a) v e h' = (a, v, e, h')
      go (err g) v e h' = cc (ap (λ (x : Result B × World). x.0) h')

module _ {A : Type 0} where
  pub Ran-query_row :
      (env : Env) (q : Statement (Option A)) (w : World) (a : A) (w' : World)
      → Ran (query_row env q) w a w'
      → q w.db ≡ some (some a, w'.db)
  unfolding query_row
  Ran-query_row env q w a w' h =
      let (o, v, e, k) = Ran-bind (execute env q) expect_row w a w' h in go o v e k
    where
      go :
          (o : Option A) (v : World)
          → Ran (execute env q) w o v
          → Ran (expect_row o) v a w'
          → q w.db ≡ some (some a, w'.db)
      go none v e k = absurd (not-Ran-fail _ a v w' k)
      go (some b) v e k =
          let (same, next) = Ran-pure b a v w' k in
          Ran-execute env q w (some b) v e ∙ λ i. some (some (same i), (next i).db)

  -- What a query gives that the server answers.
  pub answer_query_row :
      (env : Env) (q : Statement (Option A)) (w : World) (o : Option A) (db : Db)
      → env.fate w.calls ≡ answered
      → q w.db ≡ some (o, db)
      → query_row env q w ≡ expect_row o (record w { db = db; calls = w.calls + 1 })
  unfolding query_row execute ◌>>=◌
  answer_query_row env q w o db f e = rw (f, e) refl

  committed :
      (env : Env) (f : Fate) (before : Db) (b a : A) (w w' : World)
      → commit env f before b w ≡ (ok a, w')
      → (b ≡ a) × (w.db ≡ w'.db)
  committed env answered before b a w w' h =
      let (same, next) = ok_inj h in (same, ap (λ (v : World). v.db) next)
  committed env refused before b a w w' h = cc (ap (λ (x : Result A × World). x.0) h)
  committed env lost before b a w w' h = cc (ap (λ (x : Result A × World). x.0) h)

  -- A transaction that returns has committed what its body left.
  pub Ran-in_tx :
      (env : Env) (m : Exec A) (w : World) (a : A) (w' : World)
      → Ran (in_tx env m) w a w'
      → (v : World) × Ran m (tick w) a v × (v.db ≡ w'.db)
  unfolding in_tx
  Ran-in_tx env m w a w' h = begun (env.fate w.calls) h
    where
      ended :
          (r : Result A) (v : World)
          → m (tick w) ≡ (r, v)
          → finish env w.db (r, v) ≡ (ok a, w')
          → (v : World) × (m (tick w) ≡ (ok a, v)) × (v.db ≡ w'.db)
      ended (ok b) v e k =
          let (same, next) = committed env (env.fate v.calls) w.db b a (tick v) w' k in
          (v, rw (← same) e, next)
      ended (err f) v e k = cc (ap (λ (x : Result A × World). x.0) k)

      begun :
          (f : Fate)
          → begin env f m (tick w) ≡ (ok a, w')
          → (v : World) × (m (tick w) ≡ (ok a, v)) × (v.db ≡ w'.db)
      begun answered k = ended (m (tick w)).0 (m (tick w)).1 refl k
      begun refused k = cc (ap (λ (x : Result A × World). x.0) k)
      begun lost k = cc (ap (λ (x : Result A × World). x.0) k)

-- Drawing an id and reading the clock leave the tables.
pub Ran-draw_id :
    (env : Env) (w : World) (s : String) (w' : World) → Ran (draw_id env) w s w' → w'.db ≡ w.db
unfolding draw_id
Ran-draw_id env w s w' h = ap (λ (v : World). v.db) (sym (ok_inj h).1)

pub Ran-draw_id_calls :
    (env : Env) (w : World) (s : String) (w' : World)
    → Ran (draw_id env) w s w'
    → (s ≡ env.ids w.calls) × (w'.calls ≡ w.calls + 1)
unfolding draw_id
Ran-draw_id_calls env w s w' h = (sym (ok_inj h).0, ap (λ (v : World). v.calls) (sym (ok_inj h).1))

pub Ran-read_clock :
    (env : Env) (w : World) (t : Time) (w' : World)
    → Ran (read_clock env) w t w'
    → (w'.db ≡ w.db) × (t ≡ env.clock w.calls)
unfolding read_clock
Ran-read_clock env w t w' h = (ap (λ (v : World). v.db) (sym (ok_inj h).1), sym (ok_inj h).0)
