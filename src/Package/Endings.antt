-- ===== src/Package/Endings.antt =====
-- Programs of the packaging tool that return on a machine where every operation succeeds.
use skawld_maintenance.Prelude.{Bool, true, String, ◌≡◌, refl, ap, ◌∙◌, List, [], ◌∷◌, ◌++◌}
use skawld_maintenance.Errors.{Result, ok}
use skawld_maintenance.Package.Machine.{
  Act, Machine, Run, pure, capture, deferred, continue, ◌>>=◌, try, check, check_raw, raw, act,
  Done,
}
use skawld_maintenance.Package.Growth.{deferred-Done}

module _ {A : Type 0} where
  -- The program returns, whatever was attempted before.
  pub record Ends (m : Run A) : Type 0 where
    pub at : (k : List Act) → (a : A) × (k' : List Act) × Done m k a k'

  pub Ends-pure : (a : A) → Ends (pure a)
  unfolding pure
  Ends-pure a = record { at = λ k. (a, k, refl) }

  pub Ends-deferred : (a : Act) (m : Run A) → Ends m → Ends (deferred a m)
  Ends-deferred a m e = record {
    at = λ k. let (x, j, done) = e.at k in (x, j ++ (a ∷ []), deferred-Done a m k x j done);
  }

  pub Ends-state :
      (f : List Act → Run A) → ((k : List Act) → Ends (f k)) → Ends (λ acts. f acts acts)
  Ends-state f e = record { at = λ k. (e k).at k }

module _ {A B : Type 0} where
  pub Done-then :
      (m : Run A) (f : A → Run B) (k : List Act) (a : A) (j : List Act) (b : B) (k' : List Act)
      → Done m k a j
      → Done (f a) j b k'
      → Done (m >>= f) k b k'
  unfolding ◌>>=◌
  Done-then m f k a j b k' h g = ap (λ (x : Result A × List Act). continue x.0 f x.1) h ∙ g

  pub Ends-bind : (m : Run A) (f : A → Run B) → Ends m → ((a : A) → Ends (f a)) → Ends (m >>= f)
  Ends-bind m f e g = record {
    at = λ k.
        let (a, j, first) = e.at k in
        let (b, k', rest) = (g a).at j in (b, k', Done-then m f k a j b k' first rest);
  }

module _ {A B : Type 0} where
  -- What follows a captured program has to end for its results only.
  pub Ends-capture :
      (m : Run A) (f : Result A → Run B)
      → Ends m
      → ((a : A) → Ends (f (ok a)))
      → Ends (capture m >>= f)
  unfolding capture
  Ends-capture m f e g = record {
    at = λ k.
        let (a, j, first) = e.at k in
        let (b, k', rest) = (g a).at j in
        (b, k', Done-then (capture m) f k (ok a) j b k' (λ i. (ok (first i).0, (first i).1)) rest);
  }

module _ (os : Machine) (all : (k : List Act) (a : Act) → os.succeeds k a ≡ true) where
  -- What follows a try has to end for success only.
  pub Ends-try : {B : Type 0} (a : Act) (f : Bool → Run B) → Ends (f true) → Ends (try os a >>= f)
  unfolding try
  Ends-try a f e = record {
    at = λ k.
        let (b, k', rest) = e.at (k ++ (a ∷ [])) in
        (
          b,
          k',
          Done-then (try os a) f k true (k ++ (a ∷ [])) b k' (λ i. (ok (all k a i), k ++ (a ∷ [])))
              rest,
        );
  }

  -- An operation returns, and was attempted.
  pub all-Done :
      (message : String) (a : Act) (k : List Act) → Done (act os message a) k tt (k ++ (a ∷ []))
  unfolding act try pure
  all-Done message a k =
      Done-then (try os a) (check os message) k true (k ++ (a ∷ [])) tt (k ++ (a ∷ []))
        (λ i. (ok (all k a i), k ++ (a ∷ []))) refl

  pub Ends-act : (message : String) (a : Act) → Ends (act os message a)
  unfolding act
  Ends-act message a = Ends-try a (check os message) (Ends-pure tt)

  pub Ends-raw : (a : Act) → Ends (raw os a)
  unfolding raw
  Ends-raw a = Ends-try a (check_raw os) (Ends-pure tt)
