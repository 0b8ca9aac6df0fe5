-- ===== src/Prelude/Text.antt =====
-- What the program uses of Go's `strings` package. A Go string is read as its code points.
use Prim.Native.Nat.{ℕ, ◌+◌, ◌-◌}
use Prim.Native.Char.{Char, code}
use Prim.Native.String.{String, ◌++◌ as ◌<>◌}
use text.Mathlib.TextLemmas.{cons-append}
use mathlib.Core.Path.{◌≡◌, refl}
use mathlib.Core.List.{List, [], ◌∷◌}
use mathlib.Core.Logic.{inl, inr}
use mathlib.Core.Option.{Option, none, some}
use mathlib.Core.Bool.{Bool, true, false, ◌&&◌, ◌||◌, not}
use skawld_maintenance.Prelude.Tests.{ltb, leb, nat_eq, nat_eq_iff, if◌then◌else◌, Bool-cases}

-- unicode.IsSpace: the Latin-1 cases, then the property White_Space
unfoldable pub is_space : ℕ → Bool
is_space c =
    nat_eq c b' '
    || (leb 9 c && leb c 13)
    || nat_eq c 0x85
    || nat_eq c 0xa0
    || nat_eq c 0x1680
    || (leb 0x2000 c && leb c 0x200a)
    || nat_eq c 0x2028
    || nat_eq c 0x2029
    || nat_eq c 0x202f
    || nat_eq c 0x205f
    || nat_eq c 0x3000

abbrev pub is_blank : String → Bool
is_blank String.[] = true
is_blank (String.◌∷◌ c s) = false

unfoldable pub trim_left : String → String
trim_left String.[] = String.[]
trim_left (String.◌∷◌ c s) =
    let rest = trim_left s in if is_space (code c) then rest else String.◌∷◌ c s

unfoldable pub trim_right : String → String
trim_right String.[] = String.[]
trim_right (String.◌∷◌ c s) =
    if is_space (code c) && is_blank (trim_right s) then String.[] else String.◌∷◌ c (trim_right s)

-- strings.TrimSpace
unfoldable pub trim_space : String → String
unfolding trim_left trim_right is_space
trim_space s = trim_right (trim_left s)

-- strings.EqualFold, over a table of simple case folding that sends a code point to the least
-- member of its orbit.
unfoldable pub equal_fold : (ℕ → ℕ) → String → String → Bool
equal_fold fold String.[] String.[] = true
equal_fold fold String.[] (String.◌∷◌ d t) = false
equal_fold fold (String.◌∷◌ c s) String.[] = false
equal_fold fold (String.◌∷◌ c s) (String.◌∷◌ d t) =
    nat_eq (fold (code c)) (fold (code d)) && equal_fold fold s t

abbrev pub IsTrimmed : String → Type 0
IsTrimmed s = trim_space s ≡ s

-- The first character is no white space.
abbrev Opens : String → Type 0
Opens String.[] = Unit
Opens (String.◌∷◌ c s) = is_space (code c) ≡ false

trim_left-Opens : (s : String) → Opens (trim_left s)
unfolding trim_left
trim_left-Opens String.[] = tt
trim_left-Opens (String.◌∷◌ c s) = elim (Bool-cases (is_space (code c))) [
  | inl e ↦ rw e (trim_left-Opens s)
  | inr e ↦ rw e e
]

trim_left_of_Opens : (s : String) → Opens s → trim_left s ≡ s
unfolding trim_left
trim_left_of_Opens String.[] h = refl
trim_left_of_Opens (String.◌∷◌ c s) h = rw h

trim_right_idem : (s : String) → trim_right (trim_right s) ≡ trim_right s
unfolding trim_right
trim_right_idem String.[] = refl
trim_right_idem (String.◌∷◌ c s) =
    elim (Bool-cases (is_space (code c) && is_blank (trim_right s))) [
      | inl e ↦ rw e refl
      | inr e ↦ rw (e, trim_right) (rw (trim_right_idem s) (rw e refl))
    ]

trim_right-Opens : (s : String) → Opens s → Opens (trim_right s)
unfolding trim_right
trim_right-Opens String.[] h = tt
trim_right-Opens (String.◌∷◌ c s) h = rw h h

-- Trimming twice changes nothing more.
pub trim_space-IsTrimmed : (s : String) → IsTrimmed (trim_space s)
unfolding trim_space
trim_space-IsTrimmed s =
    rw (trim_left_of_Opens (trim_right (trim_left s)) (trim_right-Opens _ (trim_left-Opens s)))
      (trim_right_idem (trim_left s))

trims : trim_space " \t a b \n" ≡ "a b"
unfolding trim_space
trims = refl

folds : equal_fold (λ c. if leb b'a' c && leb c b'z' then c - 32 else c) "Pump" "pUMP" ≡ true
unfolding equal_fold
folds = refl

-- A character before the first piece.
abbrev before_first : Char → List String → List String
before_first c [] = String.◌∷◌ c String.[] ∷ []
before_first c (piece ∷ rest) = String.◌∷◌ c piece ∷ rest

-- strings.Split at one character, which is given by its code.
unfoldable pub split : ℕ → String → List String
split sep String.[] = String.[] ∷ []
split sep (String.◌∷◌ c s) =
    let rest = split sep s in if nat_eq (code c) sep then String.[] ∷ rest else before_first c rest

splits : split b',' "a,,b c" ≡ "a" ∷ "" ∷ "b c" ∷ []
unfolding split
splits = refl

-- `len` of a string: the bytes of its UTF-8 encoding
unfoldable pub byte_length : String → ℕ
byte_length String.[] = 0
byte_length (String.◌∷◌ c s) =
    (if ltb (code c) 0x80
      then 1
      else if ltb (code c) 0x800
      then 2
      else if ltb (code c) 0x10000
      then 3
      else 4)
    + byte_length s

measures : byte_length "aé€" ≡ 6
unfolding byte_length
measures = refl

-- strings.HasPrefix and strings.TrimPrefix at once: what follows the prefix, if it is there.
unfoldable pub after_prefix : String → String → Option String
after_prefix String.[] s = some s
after_prefix (String.◌∷◌ d p) String.[] = none
after_prefix (String.◌∷◌ d p) (String.◌∷◌ c s) =
    let rest = after_prefix p s in if nat_eq (code c) (code d) then rest else none

strips : after_prefix "Bearer " "Bearer x" ≡ some "x"
unfolding after_prefix
strips = refl

-- strings.HasPrefix(s, p)
unfoldable pub has_prefix : String → String → Bool
has_prefix String.[] s = true
has_prefix (String.◌∷◌ d p) String.[] = false
has_prefix (String.◌∷◌ d p) (String.◌∷◌ c s) = nat_eq (code c) (code d) && has_prefix p s

starts : has_prefix "GOOS=" "GOOS=linux" ≡ true
unfolding has_prefix
starts = refl

pub has_prefix-append : (p s : String) → has_prefix p (p <> s) ≡ true
unfolding has_prefix
has_prefix-append String.[] s = refl
has_prefix-append (String.◌∷◌ d p) s =
    rw (cons-append d p s) (rw (has_prefix-append p s, (nat_eq_iff (code d) (code d)).1 refl) refl)

-- Two texts differ at a place that both have.
unfoldable pub apart : String → String → Bool
apart String.[] q = false
apart (String.◌∷◌ d p) String.[] = false
apart (String.◌∷◌ d p) (String.◌∷◌ c q) = not (nat_eq (code c) (code d)) || apart p q

pub has_prefix-apart : (p q s : String) → apart p q ≡ true → has_prefix p (q <> s) ≡ false
unfolding has_prefix apart
has_prefix-apart String.[] q s h = cc h
has_prefix-apart (String.◌∷◌ d p) String.[] s h = cc h
has_prefix-apart (String.◌∷◌ d p) (String.◌∷◌ c q) s h =
    rw (cons-append c q s) (elim (Bool-cases (nat_eq (code c) (code d))) [
      | inr e ↦ rw e refl
      | inl e ↦ rw e (has_prefix-apart p q s (rw (e, apart) at h))
    ])
