-- ===== src/Idempotency/Bytes.antt =====
-- `equalBytes`: the comparison of two digests that does not stop at the first difference.
use Prim.Native.Nat.{bit_or, bit_xor, bit_or-bitwise, bit_xor-bitwise, digits, differ, max}
use skawld_maintenance.Prelude.{
  ℕ, zero, suc, ◌/◌, ◌%◌, ◌≤◌, ◌≡◌, ◌↔◌, refl, Bool, true, false, not, sym, ◌<◌, List, [], ◌∷◌,
  arith, nat_eq, length, if◌then◌else◌,
}

-- The loop: `different |= left[index] ^ right[index]`.
unfoldable pub differences : ℕ → List ℕ → List ℕ → ℕ
differences different [] right = different
differences different (x ∷ left) [] = different
differences different (x ∷ left) (y ∷ right) =
    differences (bit_or different (bit_xor x y)) left right

unfoldable pub equal_bytes : List ℕ → List ℕ → Bool
unfolding differences
equal_bytes left right =
    if not (nat_eq (length left) (length right)) then false else nat_eq (differences 0 left right) 0

-- A disjunction is 0 only if both sides are, digit by digit.
or_digits-eq-zero : (n a b : ℕ) → a ≤ n → digits (λ y. y) max n a b ≡ 0 → (a ≡ 0) × (b ≡ 0)
or_digits-eq-zero zero a b h e = (omega arith, e)
or_digits-eq-zero (suc n) zero b h e = (refl, e)
or_digits-eq-zero (suc n) (suc a) b h e =
    absurd (omega (arith, or_digits-eq-zero n (suc a / 2) (b / 2) (omega arith) (omega arith)))

bit_or-eq-zero : (a b : ℕ) → bit_or a b ≡ 0 → (a ≡ 0) × (b ≡ 0)
bit_or-eq-zero a b h = or_digits-eq-zero a a b (omega arith) (rw bit_or-bitwise at h)

differ-eq-zero : (x y : ℕ) → x < 2 → y < 2 → differ x y ≡ 0 → x ≡ y
differ-eq-zero zero y p q e = sym e
differ-eq-zero (suc zero) zero p q e = e
differ-eq-zero (suc zero) (suc y) p q e = omega arith
differ-eq-zero (suc (suc x)) y p q e = absurd (omega arith)

xor_digits-eq-zero : (n a b : ℕ) → a ≤ n → digits (λ y. y) differ n a b ≡ 0 → a ≡ b
xor_digits-eq-zero zero a b h e = omega arith
xor_digits-eq-zero (suc n) zero b h e = sym e
xor_digits-eq-zero (suc n) (suc a) b h e = omega (
  arith,
  xor_digits-eq-zero n (suc a / 2) (b / 2) (omega arith) (omega arith),
  differ-eq-zero (suc a % 2) (b % 2) (omega arith) (omega arith) (omega arith),
)

differ_self : (x : ℕ) → x < 2 → differ x x ≡ 0
differ_self zero h = refl
differ_self (suc zero) h = refl
differ_self (suc (suc x)) h = absurd (omega arith)

xor_digits_self : (n a : ℕ) → a ≤ n → digits (λ y. y) differ n a a ≡ 0
xor_digits_self zero a h = omega arith
xor_digits_self (suc n) zero h = refl
xor_digits_self (suc n) (suc a) h =
    omega
      (arith, xor_digits_self n (suc a / 2) (omega arith), differ_self (suc a % 2) (omega arith))

-- An exclusive or is 0 exactly at equal numbers.
bit_xor-eq-zero_iff : (a b : ℕ) → (bit_xor a b ≡ 0) ↔ (a ≡ b)
bit_xor-eq-zero_iff a b = (
  λ h. xor_digits-eq-zero a a b (omega arith) (rw bit_xor-bitwise at h),
  λ h. rw (h, bit_xor-bitwise) (xor_digits_self b b (omega arith)),
)

differences-eq-zero :
    (d : ℕ) (left right : List ℕ)
    → length left ≡ length right
    → differences d left right ≡ 0
    → (d ≡ 0) × (left ≡ right)
unfolding differences
differences-eq-zero d [] [] l h = (h, refl)
differences-eq-zero d [] (y ∷ right) l h = absurd (omega arith)
differences-eq-zero d (x ∷ left) [] l h = absurd (omega arith)
differences-eq-zero d (x ∷ left) (y ∷ right) l h =
    let (zeros, same) = differences-eq-zero (bit_or d (bit_xor x y)) left right (omega arith) h in
    let (old, new) = bit_or-eq-zero d (bit_xor x y) zeros in
    (old, cc ((bit_xor-eq-zero_iff x y).0 new, same))

differences_self : (left : List ℕ) → differences 0 left left ≡ 0
unfolding differences
differences_self [] = refl
differences_self (x ∷ left) = rw ((bit_xor-eq-zero_iff x x).1 refl) (differences_self left)

-- The comparison decides equality of byte strings, although it reads them to the end.
pub equal_bytes_iff : (left right : List ℕ) → (equal_bytes left right ≡ true) ↔ (left ≡ right)
unfolding equal_bytes
equal_bytes_iff left right = (
  λ h. (differences-eq-zero 0 left right (ground arith) (ground arith)).1,
  λ e. rw e (ground (arith, differences_self right)),
)
