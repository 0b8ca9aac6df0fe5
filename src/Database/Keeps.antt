-- ===== src/Database/Keeps.antt =====
-- Invariants of the tables. A program keeps one if its statements do, however the server answers.
use skawld_maintenance.Prelude.{
  String, ◌≡◌, refl, Bool, true, false, Option, none, some, if◌then◌else◌,
}
use mathlib.Core.Path.{subst}
use skawld_maintenance.Errors.{Failure, Result, ok, err}
use skawld_maintenance.Database.{
  Env, Fate, answered, refused, lost, World, Exec, Statement, pure, fail, wrap, continue, ◌>>=◌,
  tick, settle, expect_row, with_uuid, read_clock, draw_id, execute, query_row, commit, finish,
  begin, in_tx,
}
use skawld_maintenance.Database.Schema.{Db}

module _ (P : Db → Type 0) where
  -- The program keeps `P`, whether it returns or fails.
  pub record Keeps {A : Type 0} (m : Exec A) : Type 0 where
    pub at : (w : World) → P w.db → P (m w).1.db

  -- Where a statement is carried out, the tables that it leaves satisfy `P`.
  pub record Leaves {A : Type 0} (r : Option (A × Db)) : Type 0 where
    pub left : (a : A) (db : Db) → r ≡ some (a, db) → P db

  -- A statement that the server carries out keeps `P`.
  pub record Preserves {A : Type 0} (q : Statement A) : Type 0 where
    pub after : (db : Db) → P db → Leaves (q db)

  module _ {A : Type 0} where
    pub Keeps-pure : (a : A) → Keeps (pure a)
    unfolding pure
    Keeps-pure a = record { at = λ w h. h }

    pub Keeps-fail : (e : Failure) → Keeps (fail {A = A} e)
    unfolding fail
    Keeps-fail e = record { at = λ w h. h }

    pub Keeps-wrap : (message : String) (m : Exec A) → Keeps m → Keeps (wrap message m)
    unfolding wrap
    Keeps-wrap message m k = record { at = λ w h. k.at w h }

    pub Keeps-if : (b : Bool) (m n : Exec A) → Keeps m → Keeps n → Keeps (if b then m else n)
    Keeps-if true m n km kn = km
    Keeps-if false m n km kn = kn

    settle_keeps :
        (f : Fate) (db : Db) (r : Option (A × Db)) (w : World)
        → ((a : A) (db' : Db) → r ≡ some (a, db') → P db')
        → P w.db
        → P (settle f r w).1.db
    settle_keeps answered db none w k h = h
    settle_keeps answered db (some (a, db')) w k h = k a db' refl
    settle_keeps refused db r w k h = h
    settle_keeps lost db none w k h = h
    settle_keeps lost db (some (a, db')) w k h = k a db' refl

    pub Keeps-execute : (env : Env) (q : Statement A) → Preserves q → Keeps (execute env q)
    unfolding execute
    Keeps-execute env q p = record {
      at = λ w h. settle_keeps (env.fate w.calls) w.db (q w.db) (tick w) (p.after w.db h).left h;
    }

    pub Leaves-none : Leaves {A = A} none
    Leaves-none = record { left = λ a db e. cc }

    pub Leaves-some : (a : A) (db : Db) → P db → Leaves (some (a, db))
    Leaves-some a db h = record { left = λ b db' e. subst P (cc) h }

    pub Leaves-if :
        (b : Bool) (r s : Option (A × Db))
        → (b ≡ true → Leaves r)
        → (b ≡ false → Leaves s)
        → Leaves (if b then r else s)
    Leaves-if true r s h k = h refl
    Leaves-if false r s h k = k refl

    pub Leaves-with_uuid :
        {X : Type 0} (u : Option X) (q : X → Option (A × Db))
        → ((p : X) → Leaves (q p))
        → Leaves (with_uuid u q)
    Leaves-with_uuid none q k = Leaves-none
    Leaves-with_uuid (some p) q k = k p

  pub Keeps-read_clock : (env : Env) → Keeps (read_clock env)
  unfolding read_clock
  Keeps-read_clock env = record { at = λ w h. h }

  pub Keeps-draw_id : (env : Env) → Keeps (draw_id env)
  unfolding draw_id
  Keeps-draw_id env = record { at = λ w h. h }

  module _ {A B : Type 0} where
    continue_keeps :
        (r : Result A) (f : A → Exec B) (w : World)
        → ((a : A) → Keeps (f a))
        → P w.db
        → P (continue r f w).1.db
    continue_keeps (ok a) f w k h = (k a).at w h
    continue_keeps (err e) f w k h = h

    pub Keeps-bind :
        (m : Exec A) (f : A → Exec B) → Keeps m → ((a : A) → Keeps (f a)) → Keeps (m >>= f)
    unfolding ◌>>=◌
    Keeps-bind m f km kf = record {
      at = λ w h. let (r, w') = m w in continue_keeps r f w' kf (km.at w h);
    }

  module _ {A : Type 0} where
    expect_row-Keeps : (o : Option A) → Keeps (expect_row o)
    unfolding pure fail
    expect_row-Keeps none = record { at = λ w h. h }
    expect_row-Keeps (some a) = record { at = λ w h. h }

    pub Keeps-query_row :
        (env : Env) (q : Statement (Option A)) → Preserves q → Keeps (query_row env q)
    unfolding query_row
    Keeps-query_row env q p =
        Keeps-bind (execute env q) expect_row (Keeps-execute env q p) expect_row-Keeps

    commit_keeps :
        (env : Env) (f : Fate) (before : Db) (a : A) (w : World)
        → P before
        → P w.db
        → P (commit env f before a w).1.db
    commit_keeps env answered before a w b h = h
    commit_keeps env refused before a w b h = b
    commit_keeps env lost before a w b h = h

    finish_keeps :
        (env : Env) (before : Db) (r : Result A) (w : World)
        → P before
        → P w.db
        → P (finish env before (r, w)).1.db
    finish_keeps env before (ok a) w b h = commit_keeps env (env.fate w.calls) before a (tick w) b h
    finish_keeps env before (err e) w b h = b

    begin_keeps :
        (env : Env) (f : Fate) (m : Exec A) (w : World)
        → Keeps m
        → P w.db
        → P (begin env f m w).1.db
    begin_keeps env answered m w k h = let (r, w') = m w in finish_keeps env w.db r w' h (k.at w h)
    begin_keeps env refused m w k h = h
    begin_keeps env lost m w k h = h

    pub Keeps-in_tx : (env : Env) (m : Exec A) → Keeps m → Keeps (in_tx env m)
    unfolding in_tx
    Keeps-in_tx env m k = record { at = λ w h. begin_keeps env (env.fate w.calls) m (tick w) k h }

pub ruleset keeps_rules = (
  Keeps-pure, Keeps-fail, Keeps-wrap, Keeps-if, Keeps-execute, Keeps-query_row, Keeps-bind,
  Keeps-read_clock, Keeps-draw_id, Keeps-in_tx,
)
