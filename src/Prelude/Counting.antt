-- ===== src/Prelude/Counting.antt =====
-- Selecting, updating and counting the rows of a table that pass a test.
use Prim.Native.Nat.{◌+◌, ◌≤◌}
use mathlib.Core.Path.{◌≡◌, refl}
use mathlib.Core.Logic.{inl, inr}
use mathlib.Core.Bool.{Bool, false, ◌&&◌}
use mathlib.Core.Option.{Option, none, some}
use mathlib.Core.List.{List, [], ◌∷◌, ◌++◌, Memᴰ}
use native.Mathlib.Omega.{arith}
use skawld_maintenance.Prelude.Tests.{if◌then◌else◌, Bool-cases}
use skawld_maintenance.Prelude.Lists.{length, find, any, select, update}

module _ {ℓ} {A : Type ℓ} where
  -- What an update does to the element that is found, where it keeps the test.
  abbrev pub updated : (A → Bool) → (A → A) → Option A → Option A
  updated p f none = none
  updated p f (some x) = some (if p x then f x else x)

  pub find-update :
      (q p : A → Bool) (f : A → A)
      → ((x : A) → q (f x) ≡ q x)
      → (xs : List A) → find q (update p f xs) ≡ updated p f (find q xs)
  find-update q p f keeps [] = refl
  find-update q p f keeps (x ∷ xs) = ground (arith, find-update q p f keeps xs, keeps x)

  pub count_none :
      (q r : A → Bool) (xs : List A) → any q xs ≡ false → length (select (λ x. q x && r x) xs) ≡ 0
  count_none q r [] h = refl
  count_none q r (x ∷ xs) h = ground (arith, count_none q r xs)

  pub count-append :
      (q : A → Bool) (xs ys : List A)
      → length (select q (xs ++ ys)) ≡ length (select q xs) + length (select q ys)
  count-append q [] ys = omega arith
  count-append q (x ∷ xs) ys = ground (arith, count-append q xs ys)

  pub count-eq-zero : (q : A → Bool) (xs : List A) → any q xs ≡ false → length (select q xs) ≡ 0
  count-eq-zero q [] h = refl
  count-eq-zero q (x ∷ xs) h = ground (arith, count-eq-zero q xs)

  pub any_of_count-eq-zero :
      (q : A → Bool) (xs : List A) → length (select q xs) ≡ 0 → any q xs ≡ false
  any_of_count-eq-zero q [] h = refl
  any_of_count-eq-zero q (x ∷ xs) h = ground (arith, any_of_count-eq-zero q xs)

  pub count-and-find :
      (q r : A → Bool) (xs : List A) (a : A)
      → length (select q xs) ≤ 1
      → find q xs ≡ some a
      → length (select (λ x. q x && r x) xs) ≡ (if r a then 1 else 0)
  count-and-find q r [] a u h = cc
  count-and-find q r (x ∷ xs) a u h = elim (Bool-cases (q x)) [
    | inl e ↦ ground (arith, any_of_count-eq-zero q xs, count_none q r xs)
    | inr e ↦ ground (arith, count-and-find q r xs a)
  ]

  pub count-update :
      (q p : A → Bool) (f : A → A)
      → ((x : A) → q (f x) ≡ q x)
      → (xs : List A) → length (select q (update p f xs)) ≡ length (select q xs)
  count-update q p f keeps [] = refl
  count-update q p f keeps (x ∷ xs) = ground (arith, count-update q p f keeps xs, keeps x)

  -- Where all rows pass a test that an update keeps, they do so after it.
  pub mem-update :
      (p : A → Bool) (f : A → A) (xs : List A) (b : A)
      → Memᴰ b (update p f xs)
      → (a : A) × Memᴰ a xs × (b ≡ (if p a then f a else a))
  mem-update p f [] b m = elim m [ ]
  mem-update p f (x ∷ xs) b (Memᴰ.head e) = (x, Memᴰ.head refl, e)
  mem-update p f (x ∷ xs) b (Memᴰ.tail m) =
      let (a, n, e) = mem-update p f xs b m in (a, Memᴰ.tail n, e)
