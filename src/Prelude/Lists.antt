-- ===== src/Prelude/Lists.antt =====
-- Lists measured by native numbers, with the tests that the loops of the program make.
use Prim.Native.Nat.{ℕ, suc}
use mathlib.Core.Path.{◌≡◌, refl, sym, ap, ◌∙◌}
use mathlib.Core.Logic.{◌↔◌, ◌⊎◌, inl, inr}
use mathlib.Core.Bool.{Bool, true, false, ◌&&◌, ◌||◌, not}
use mathlib.Core.Option.{Option, none, some}
use mathlib.Core.List.{List, [], ◌∷◌, ◌++◌, Memᴰ}
use native.Mathlib.Omega.{arith}
use skawld_maintenance.Prelude.Tests.{if◌then◌else◌, Bool-cases, some-injective}

module _ {ℓ} {A : Type ℓ} where
  abbrev pub length : List A → ℕ
  length [] = 0
  length (x ∷ xs) = suc (length xs)

  abbrev pub any : (A → Bool) → List A → Bool
  any p [] = false
  any p (x ∷ xs) = p x || any p xs

  abbrev pub find : (A → Bool) → List A → Option A
  find p [] = none
  find p (x ∷ xs) = if p x then some x else find p xs

  -- The elements that a test keeps.
  abbrev pub select : (A → Bool) → List A → List A
  select p [] = []
  select p (x ∷ xs) = let rest = select p xs in if p x then x ∷ rest else rest

  abbrev pub update : (A → Bool) → (A → A) → List A → List A
  update p f [] = []
  update p f (x ∷ xs) = (if p x then f x else x) ∷ update p f xs

  abbrev pub is_empty : List A → Bool
  is_empty [] = true
  is_empty (x ∷ xs) = false

module _ {ℓ} {A : Type ℓ} where
  abbrev pub or_else : Option A → Option A → Option A
  or_else none y = y
  or_else (some x) y = some x

  pub find-append :
      (p : A → Bool) (xs ys : List A) → find p (xs ++ ys) ≡ or_else (find p xs) (find p ys)
  find-append p [] ys = refl
  find-append p (x ∷ xs) ys = ground (arith, find-append p xs ys)

  pub find-eq-none : (p : A → Bool) (xs : List A) → any p xs ≡ false → find p xs ≡ none
  find-eq-none p [] h = refl
  find-eq-none p (x ∷ xs) h = ground (arith, find-eq-none p xs)

  pub find-eq-some : (p : A → Bool) (xs : List A) → any p xs ≡ true → (a : A) × (find p xs ≡ some a)
  find-eq-some p [] h = cc
  find-eq-some p (x ∷ xs) h = elim (Bool-cases (p x)) [
    | inl e ↦ (x, rw e)
    | inr e ↦ rw e (find-eq-some p xs (ground arith))
  ]

  -- What is found passes the test and is in the list.
  pub find_sound :
      (p : A → Bool) (xs : List A) {a : A} → find p xs ≡ some a → Memᴰ a xs × (p a ≡ true)
  find_sound p [] h = cc
  find_sound p (x ∷ xs) {a} h = elim (Bool-cases (p x)) [
    | inl e ↦ (Memᴰ.head (cc), ground arith)
    | inr e ↦ let (m, t) = find_sound p xs {a = a} (ground arith) in (Memᴰ.tail m, t)
  ]

  pub any_of_mem : (p : A → Bool) (xs : List A) {a : A} → Memᴰ a xs → p a ≡ true → any p xs ≡ true
  any_of_mem p [] m h = elim m [ ]
  any_of_mem p (x ∷ xs) (Memᴰ.head e) h = rw (← e) (rw h refl)
  any_of_mem p (x ∷ xs) (Memᴰ.tail m) h = ground (arith, any_of_mem p xs m h)

module _ {ℓ} {A : Type ℓ} where
  -- The first that passes a test passes a stronger one: it is the first to do so.
  pub find-and :
      (p q : A → Bool) (xs : List A) {a : A}
      → find p xs ≡ some a
      → q a ≡ true
      → find (λ x. p x && q x) xs ≡ some a
  find-and p q [] f h = f
  find-and p q (x ∷ xs) f h = elim (Bool-cases (p x)) [
    | inl e ↦ let same = some-injective (rw e at f) in rw (e, same, h) refl
    | inr e ↦ rw e (find-and p q xs (rw e at f) h)
  ]

  pub select-append :
      (p : A → Bool) (xs ys : List A) → select p (xs ++ ys) ≡ select p xs ++ select p ys
  select-append p [] ys = refl
  select-append p (x ∷ xs) ys = ground (arith, select-append p xs ys)

  pub select_all : (p : A → Bool) (xs : List A) → any p xs ≡ false → select (λ x. not (p x)) xs ≡ xs
  select_all p [] h = refl
  select_all p (x ∷ xs) h = ground (arith, select_all p xs)

  pub any-select_not : (p : A → Bool) (xs : List A) → any p (select (λ x. not (p x)) xs) ≡ false
  any-select_not p [] = refl
  any-select_not p (x ∷ xs) = elim (Bool-cases (p x)) [
    | inl e ↦ rw e (any-select_not p xs)
    | inr e ↦ let rest = any-select_not p xs in rw e (rw e rest)
  ]

  -- A test that changes to a failing one at every element that passed it passes nowhere.
  pub any-update_none :
      (p q : A → Bool) (f : A → A) (xs : List A)
      → ((x : A) → p (if q x then f x else x) ≡ false)
      → any p (update q f xs) ≡ false
  any-update_none p q f [] h = refl
  any-update_none p q f (x ∷ xs) h = rw (h x) (any-update_none p q f xs h)

  pub mem_select_iff :
      (p : A → Bool) (xs : List A) (a : A) → Memᴰ a (select p xs) ↔ (Memᴰ a xs × (p a ≡ true))
  mem_select_iff p xs a = (to xs, λ h. from xs h.0 h.1)
    where
      to : (xs : List A) → Memᴰ a (select p xs) → Memᴰ a xs × (p a ≡ true)
      to [] m = elim m [ ]
      to (x ∷ xs) m = elim (Bool-cases (p x)) [
        | inl e ↦ elim (rw e at m) [
          | Memᴰ.head q ↦ (Memᴰ.head q, ap p q ∙ e)
          | Memᴰ.tail t ↦ let (m', t') = to xs t in (Memᴰ.tail m', t')
        ]
        | inr e ↦ let (m', t') = to xs (rw e at m) in (Memᴰ.tail m', t')
      ]

      from : (xs : List A) → Memᴰ a xs → p a ≡ true → Memᴰ a (select p xs)
      from [] m h = elim m [ ]
      from (x ∷ xs) (Memᴰ.head q) h = rw (sym (ap p q) ∙ h) (Memᴰ.head q)
      from (x ∷ xs) (Memᴰ.tail t) h = elim (Bool-cases (p x)) [
        | inl e ↦ rw e (Memᴰ.tail (from xs t h))
        | inr e ↦ rw e (from xs t h)
      ]

module _ {A : Type 0} where
  pub mem-append_cases : (xs ys : List A) {a : A} → Memᴰ a (xs ++ ys) → Memᴰ a xs ⊎ Memᴰ a ys
  mem-append_cases [] ys m = inr m
  mem-append_cases (x ∷ xs) ys (Memᴰ.head e) = inl (Memᴰ.head e)
  mem-append_cases (x ∷ xs) ys (Memᴰ.tail m) = elim (mem-append_cases xs ys m) [
    | inl n ↦ inl (Memᴰ.tail n)
    | inr n ↦ inr n
  ]

  pub mem-append_left : (xs ys : List A) {a : A} → Memᴰ a xs → Memᴰ a (xs ++ ys)
  mem-append_left [] ys m = elim m [ ]
  mem-append_left (x ∷ xs) ys (Memᴰ.head e) = Memᴰ.head e
  mem-append_left (x ∷ xs) ys (Memᴰ.tail m) = Memᴰ.tail (mem-append_left xs ys m)

  pub mem-append_right : (xs : List A) {ys : List A} {a : A} → Memᴰ a ys → Memᴰ a (xs ++ ys)
  mem-append_right [] m = m
  mem-append_right (x ∷ xs) m = Memᴰ.tail (mem-append_right xs m)
