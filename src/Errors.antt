-- ===== src/Errors.antt =====
-- Go's error values, and what a fallible function returns.
use skawld_maintenance.Prelude.{ℕ, String, Bool, true, false, nat_eq}

-- The errors that are package variables.
pub data Sentinel : Type 0 where
  permission_denied idempotency_key invalid_organization site_not_found : Sentinel
  key_conflict in_progress : Sentinel

-- An error is a package variable, pgx.ErrNoRows, one made from a text, one that wraps another
-- (`%w`), or one that a driver returned.
pub data Failure : Type 0 where
  sentinel : Sentinel → Failure
  no_rows : Failure
  text : String → Failure
  wrapped : String → Failure → Failure
  driver : Failure

abbrev pub number : Sentinel → ℕ
number permission_denied = 0
number idempotency_key = 1
number invalid_organization = 2
number site_not_found = 3
number key_conflict = 4
number in_progress = 5

-- errors.Is at a package variable
unfoldable pub errors_is : Failure → Sentinel → Bool
errors_is (sentinel s) t = nat_eq (number s) (number t)
errors_is no_rows t = false
errors_is (text m) t = false
errors_is (wrapped m e) t = errors_is e t
errors_is driver t = false

-- errors.Is(err, pgx.ErrNoRows)
unfoldable pub is_no_rows : Failure → Bool
is_no_rows (sentinel s) = false
is_no_rows no_rows = true
is_no_rows (text m) = false
is_no_rows (wrapped m e) = is_no_rows e
is_no_rows driver = false

pub data Result {ℓ} (A : Type ℓ) : Type ℓ where
  ok : A → Result A
  err : Failure → Result A
