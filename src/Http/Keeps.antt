-- ===== src/Http/Keeps.antt =====
-- Invariants of the tables through the handlers.
use skawld_maintenance.Prelude.{inl, inr, sym}
use mathlib.Core.Path.{subst}
use skawld_maintenance.Errors.{Failure}
use skawld_maintenance.Database.{World, Exec}
use skawld_maintenance.Database.Schema.{Db}
use skawld_maintenance.Database.Keeps.{Keeps}
use skawld_maintenance.Http.{Response, Reply, reply, attempt, attempt_cases}

module _ (P : Db → Type 0) where
  -- The handler keeps `P`, whatever it answers.
  pub record KeepsReply (h : Reply) : Type 0 where
    pub at : (w : World) → P w.db → P (h w).1.db

  pub KeepsReply-reply : (x : Response) → KeepsReply (reply x)
  KeepsReply-reply x = record { at = λ w h. h }

  pub KeepsReply-attempt :
      {A : Type 0} (m : Exec A) (bad : Failure → Reply) (good : A → Reply)
      → Keeps P m
      → ((e : Failure) → KeepsReply (bad e))
      → ((a : A) → KeepsReply (good a))
      → KeepsReply (attempt m bad good)
  KeepsReply-attempt m bad good k b g = record {
    at = λ w h. elim (attempt_cases m bad good w) [
      | inl (a, v, e, x) ↦
          subst (λ (y : Response × World). P y.1.db) (sym x)
            ((g a).at v (subst (λ y. P y.1.db) e (k.at w h)))
      | inr (f, v, e, x) ↦
          subst (λ (y : Response × World). P y.1.db) (sym x)
            ((b f).at v (subst (λ y. P y.1.db) e (k.at w h)))
    ];
  }
