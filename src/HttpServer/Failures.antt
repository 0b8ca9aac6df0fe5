-- ===== src/HttpServer/Failures.antt =====
-- How the error of a creation is answered.
use skawld_maintenance.Prelude.{String, true, false, ◌≡◌, refl, sym, ◌∙◌, inl, inr, Bool-cases}
use skawld_maintenance.Errors.{
  Failure, Sentinel, sentinel, wrapped, permission_denied, idempotency_key, invalid_organization,
  key_conflict, site_not_found, in_progress, no_rows, text, driver, errors_is,
}
use skawld_maintenance.Http.{Response}
use skawld_maintenance.HttpServer.{write_problem, error_text, creation_failed}

-- The error is the package variable, or wraps an error that is.
pub data Wraps (s : Sentinel) : Failure → Type 0 where
  itself : Wraps s (sentinel s)
  under : (message : String) (e : Failure) → Wraps s e → Wraps s (wrapped message e)

number_same : (s t : Sentinel) → errors_is (sentinel s) t ≡ true → Wraps t (sentinel s)
unfolding errors_is
number_same permission_denied permission_denied h = itself
number_same idempotency_key idempotency_key h = itself
number_same invalid_organization invalid_organization h = itself
number_same site_not_found site_not_found h = itself
number_same key_conflict key_conflict h = itself
number_same in_progress in_progress h = itself
number_same _ _ h = cc

pub errors_is-Wraps : (e : Failure) (t : Sentinel) → errors_is e t ≡ true → Wraps t e
unfolding errors_is
errors_is-Wraps (sentinel s) t h = number_same s t h
errors_is-Wraps (wrapped m e) t h = under m e (errors_is-Wraps e t h)
errors_is-Wraps no_rows t h = cc
errors_is-Wraps (text m) t h = cc
errors_is-Wraps driver t h = cc

pub Wraps-errors_is : (t : Sentinel) (e : Failure) → Wraps t e → errors_is e t ≡ true
unfolding errors_is
Wraps-errors_is permission_denied e itself = refl
Wraps-errors_is idempotency_key e itself = refl
Wraps-errors_is invalid_organization e itself = refl
Wraps-errors_is site_not_found e itself = refl
Wraps-errors_is key_conflict e itself = refl
Wraps-errors_is in_progress e itself = refl
Wraps-errors_is t e (under m f w) = Wraps-errors_is t f w

-- The problem that an error becomes, by what it wraps.
pub data IsAnswer (drivers : String) (e : Failure) (x : Response) : Type 0 where
  forbidden :
      Wraps permission_denied e
      → x ≡ write_problem 403 "Forbidden" "permission denied"
      → IsAnswer drivers e x
  invalid_key :
      Wraps idempotency_key e
      → x ≡ write_problem 400 "Invalid Request" (error_text drivers e)
      → IsAnswer drivers e x
  invalid_command :
      Wraps invalid_organization e
      → x ≡ write_problem 400 "Invalid Request" (error_text drivers e)
      → IsAnswer drivers e x
  conflict :
      Wraps key_conflict e
      → x ≡ write_problem 409 "Idempotency Conflict" (error_text drivers e)
      → IsAnswer drivers e x
  internal :
      ¬ (Wraps permission_denied e)
      → ¬ (Wraps idempotency_key e)
      → ¬ (Wraps invalid_organization e)
      → ¬ (Wraps key_conflict e)
      → x ≡ write_problem 500 "Internal Server Error" "request could not be completed"
      → IsAnswer drivers e x

module _ (drivers : String) (e : Failure) where
  not-Wraps : (t : Sentinel) → errors_is e t ≡ false → ¬ (Wraps t e)
  not-Wraps t h w = cc (sym h ∙ Wraps-errors_is t e w)

  pub creation_failed-IsAnswer : IsAnswer drivers e (creation_failed drivers e)
  unfolding creation_failed
  creation_failed-IsAnswer = elim (Bool-cases (errors_is e permission_denied)) [
    | inl h ↦ forbidden (errors_is-Wraps e _ h) (rw (h, creation_failed) refl)
    | inr h ↦ elim (Bool-cases (errors_is e idempotency_key)) [
      | inl k ↦ invalid_key (errors_is-Wraps e _ k) (rw (h, k, creation_failed) refl)
      | inr k ↦ elim (Bool-cases (errors_is e invalid_organization)) [
        | inl o ↦ invalid_command (errors_is-Wraps e _ o) (rw (h, k, o, creation_failed) refl)
        | inr o ↦ elim (Bool-cases (errors_is e key_conflict)) [
          | inl c ↦ conflict (errors_is-Wraps e _ c) (rw (h, k, o, c, creation_failed) refl)
          | inr c ↦
              internal (not-Wraps _ h) (not-Wraps _ k) (not-Wraps _ o) (not-Wraps _ c)
                (rw (h, k, o, c, creation_failed) refl)
        ]
      ]
    ]
  ]
