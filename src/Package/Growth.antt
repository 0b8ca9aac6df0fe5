-- ===== src/Package/Growth.antt =====
-- Programs of the packaging tool only add to what was attempted, and what has happened.
use skawld_maintenance.Prelude.{
  Bool, true, false, String, ◌≡◌, refl, sym, ap, ◌∙◌, List, [], ◌∷◌, ◌++◌, if◌then◌else◌,
}
use mathlib.Core.Path.{subst}
use mathlib.Core.List.{append-nil, append_assoc}
use skawld_maintenance.Errors.{Failure, Result, ok, err}
use skawld_maintenance.Package.Machine.{
  Act, Machine, Run, pure, fail, capture, deferred, continue, ◌>>=◌, try, check, check_raw, raw,
  act, Grows, Done, Done-inj, Extends, Done-pure, not-Done-fail,
}

pub Extends-refl : (k : List Act) → Extends k k
Extends-refl k = record { more = []; same = sym (append-nil k) }

pub Extends-trans : {a b c : List Act} → Extends a b → Extends b c → Extends a c
Extends-trans {a = a} p q = record {
  more = p.more ++ q.more;
  same = q.same ∙ ap (λ k. k ++ q.more) p.same ∙ append_assoc a p.more q.more;
}

-- One more operation.
pub Extends-one : (a : Act) (k k' : List Act) → k' ≡ k ++ (a ∷ []) → Extends k k'
Extends-one a k k' e = record { more = a ∷ []; same = e }

pub Extends-same : (k k' : List Act) → k' ≡ k → Extends k k'
Extends-same k k' e = record { more = []; same = e ∙ sym (append-nil k) }

module _ {A : Type 0} where
  pub Grows-pure : (a : A) → Grows (pure a)
  unfolding pure
  Grows-pure a = record { at = Extends-refl }

  pub Grows-fail : (e : Failure) → Grows (fail {A = A} e)
  unfolding fail
  Grows-fail e = record { at = Extends-refl }

  pub Grows-capture : (m : Run A) → Grows m → Grows (capture m)
  unfolding capture
  Grows-capture m g = record { at = g.at }

  pub Grows-deferred : (a : Act) (m : Run A) → Grows m → Grows (deferred a m)
  unfolding deferred
  Grows-deferred a m g = record { at = λ k. Extends-trans (g.at k) (Extends-one a (m k).1 _ refl) }

  pub Grows-if : (b : Bool) (m n : Run A) → Grows m → Grows n → Grows (if b then m else n)
  Grows-if true m n g h = g
  Grows-if false m n g h = h

  -- A program that returns leaves what was attempted, and more.
  pub Grows-Done :
      (m : Run A) → Grows m → (k : List Act) (a : A) (k' : List Act) → Done m k a k' → Extends k k'
  Grows-Done m g k a k' h = subst (λ (y : Result A × List Act). Extends k y.1) h (g.at k)

  pub deferred-Done :
      (a : Act) (m : Run A) (k : List Act) (x : A) (j : List Act)
      → Done m k x j
      → Done (deferred a m) k x (j ++ (a ∷ []))
  unfolding deferred
  deferred-Done a m k x j h = λ i. ((h i).0, (h i).1 ++ (a ∷ []))

  pub Done-deferred :
      (a : Act) (m : Run A) (k : List Act) (x : A) (k' : List Act)
      → Done (deferred a m) k x k'
      → (j : List Act) × Done m k x j × (k' ≡ j ++ (a ∷ []))
  unfolding deferred
  Done-deferred a m k x k' h = go (m k).0 (m k).1 refl h
    where
      go :
          (r : Result A) (j : List Act)
          → m k ≡ (r, j)
          → ◌≡◌ {A = Result A × List Act} (r, j ++ (a ∷ [])) (ok x, k')
          → (j : List Act) × (m k ≡ (ok x, j)) × (k' ≡ j ++ (a ∷ []))
      go r j e f = (j, e ∙ (λ i. ((f i).0, j)), sym (ap (λ (y : Result A × List Act). y.1) f))

module _ {A : Type 0} where
  -- A program that reads what was attempted.
  pub Grows-state :
      (f : List Act → Run A) → ((k : List Act) → Grows (f k)) → Grows (λ acts. f acts acts)
  Grows-state f g = record { at = λ k. (g k).at k }

module _ {A B : Type 0} where
  continue_grows :
      (r : Result A) (f : A → Run B) (k : List Act)
      → ((x : A) → Grows (f x))
      → Extends k (continue r f k).1
  continue_grows (ok x) f k g = (g x).at k
  continue_grows (err e) f k g = Extends-refl k

  pub Grows-bind : (m : Run A) (f : A → Run B) → Grows m → ((x : A) → Grows (f x)) → Grows (m >>= f)
  unfolding ◌>>=◌
  Grows-bind m f g h = record {
    at = λ k. let (r, k') = m k in Extends-trans (g.at k) (continue_grows r f k' h);
  }

module _ (os : Machine) where
  pub Grows-try : (a : Act) → Grows (try os a)
  unfolding try
  Grows-try a = record { at = λ k. Extends-one a k _ refl }

  pub Grows-check : (message : String) (b : Bool) → Grows (check os message b)
  Grows-check message true = Grows-pure tt
  Grows-check message false = Grows-fail _

  pub Grows-act : (message : String) (a : Act) → Grows (act os message a)
  unfolding act
  Grows-act message a = Grows-bind (try os a) (check os message) (Grows-try a) (Grows-check message)

  pub Grows-raw : (a : Act) → Grows (raw os a)
  unfolding raw
  Grows-raw a = Grows-bind (try os a) (check_raw os) (Grows-try a) checked
    where
      checked : (b : Bool) → Grows (check_raw os b)
      checked true = Grows-pure tt
      checked false = Grows-fail _

  -- An operation that returned was attempted, and succeeded.
  pub Done-act :
      (message : String) (a : Act) (k k' : List Act)
      → Done (act os message a) k tt k'
      → (os.succeeds k a ≡ true) × (k' ≡ k ++ (a ∷ []))
  unfolding act try ◌>>=◌
  Done-act message a k k' h = go (os.succeeds k a) h
    where
      go :
          (b : Bool)
          → Done (check os message b) (k ++ (a ∷ [])) tt k'
          → (b ≡ true) × (k' ≡ k ++ (a ∷ []))
      go true e = (refl, sym (Done-pure tt _ tt k' e).1)
      go false e = absurd (not-Done-fail _ _ tt k' e)

  -- The operation was attempted at some time, and succeeded then.
  pub record Happened (a : Act) (k : List Act) : Type 0 where
    pub before : List Act
    pub succeeded : os.succeeds before a ≡ true
    pub after : Extends (before ++ (a ∷ [])) k

  pub Happened-further : {a : Act} {k k' : List Act} → Extends k k' → Happened a k → Happened a k'
  Happened-further more h = record {
    before = h.before;
    succeeded = h.succeeded;
    after = Extends-trans h.after more;
  }

  pub Happened-last :
      (a : Act) (k k' : List Act) → os.succeeds k a ≡ true → k' ≡ k ++ (a ∷ []) → Happened a k'
  Happened-last a k k' good e = record {
    before = k;
    succeeded = good;
    after = Extends-same (k ++ (a ∷ [])) k' e;
  }

  pub Done-act-Happened :
      (message : String) (a : Act) (k k' : List Act)
      → Done (act os message a) k tt k'
      → Happened a k'
  Done-act-Happened message a k k' h =
      let (good, e) = Done-act message a k k' h in Happened-last a k k' good e

  -- What a try tells.
  pub Done-try :
      (a : Act) (k : List Act) (b : Bool) (k' : List Act)
      → Done (try os a) k b k'
      → (os.succeeds k a ≡ b) × (k' ≡ k ++ (a ∷ []))
  unfolding try
  Done-try a k b k' h = let (same, next) = Done-inj h in (same, sym next)

  pub Done-check :
      (message : String) (b : Bool) (k k' : List Act) → Done (check os message b) k tt k' → b ≡ true
  Done-check message true k k' h = refl
  Done-check message false k k' h = absurd (not-Done-fail _ k tt k' h)

pub ruleset grows_rules = (
  Grows-pure, Grows-fail, Grows-capture, Grows-deferred, Grows-if, Grows-try, Grows-check,
  Grows-act, Grows-raw, Grows-bind,
)
