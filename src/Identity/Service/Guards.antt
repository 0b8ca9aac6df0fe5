-- ===== src/Identity/Service/Guards.antt =====
-- What the application service lets through to the store.
use skawld_maintenance.Prelude.{
  ◌≤◌, ◌<◌, String, ◌==◌, ◌≡◌, ◌≢◌, refl, sym, ◌⊎◌, ◌∙◌, ◌||◌, some, ltb, Memᴰ, arith, eq_iff,
  Bool-cases, inl, inr,
}
use skawld_maintenance.Prelude.Text.{trim_space, byte_length}
use skawld_maintenance.Errors.{
  Result, err, sentinel, permission_denied, idempotency_key, invalid_organization,
}
use skawld_maintenance.Database.{World, fail}
use skawld_maintenance.Identity.Authorization.{Principal, has, permission_organization_create}
use skawld_maintenance.Identity.Authorization.Access.{has_iff}
use skawld_maintenance.Identity.Service.{
  CreateOrganization, Created, AtomicOrganizationStore, create,
}

-- A request that may reach the store.
pub record IsAdmissible (principal : Principal) (key : String) (command : CreateOrganization)
    : Type 0 where
  pub permitted : Memᴰ permission_organization_create principal.permissions
  pub long : 8 ≤ byte_length (trim_space key)
  pub short : byte_length (trim_space key) ≤ 200
  pub named : trim_space command.name ≢ ""

-- Why a request is refused, and its error: without the permission it is that one, else with a key
-- of a wrong length that one, and else a name is blank.
pub data Refusal (principal : Principal) (key : String) (command : CreateOrganization)
    (r : Result Created) : Type 0 where
  denied :
      ¬ (Memᴰ permission_organization_create principal.permissions)
      → r ≡ err (sentinel permission_denied)
      → Refusal principal key command r
  bad_key :
      Memᴰ permission_organization_create principal.permissions
      → (byte_length (trim_space key) < 8) ⊎ (200 < byte_length (trim_space key))
      → r ≡ err (sentinel idempotency_key)
      → Refusal principal key command r
  unnamed :
      Memᴰ permission_organization_create principal.permissions
      → 8 ≤ byte_length (trim_space key)
      → byte_length (trim_space key) ≤ 200
      → trim_space command.name ≡ ""
      → r ≡ err (sentinel invalid_organization)
      → Refusal principal key command r

module _ (s : AtomicOrganizationStore) (principal : Principal) (key : String)
    (command : CreateOrganization) (w : World) where
  -- A service that has a store hands an admissible request to it, under the trimmed key. It refuses
  -- every other one without a call of the server: a principal without the permission with
  -- `ErrPermissionDenied`; else a trimmed key of fewer than 8 or more than 200 bytes with
  -- `ErrIdempotencyKey`; else, when the trimmed name is empty, with `ErrInvalidOrganization`.
  pub service_create_cases :
      (IsAdmissible principal key command
        × (create (some s) principal key command w ≡ s principal (trim_space key) command w))
      ⊎ (Refusal principal key command (create (some s) principal key command w).0
          × ((create (some s) principal key command w).1 ≡ w))
  unfolding create fail
  service_create_cases = elim (Bool-cases (has principal permission_organization_create)) [
    | inr lacking ↦ inr (
      denied (λ m. cc (sym lacking ∙ (has_iff principal permission_organization_create).1 m))
          (rw (lacking, create) refl),
      rw (lacking, create) refl,
    )
    | inl allowed ↦
        let length = byte_length (trim_space key) in
        let member = (has_iff principal permission_organization_create).0 allowed in
        elim (Bool-cases (ltb length 8 || ltb 200 length)) [
          | inl bad ↦ inr (
            bad_key member (ground arith) (rw (allowed, bad, create) refl),
            rw (allowed, bad, create) refl,
          )
          | inr good ↦ elim (Bool-cases (trim_space command.name == "")) [
            | inl blank ↦ inr (
              unnamed member (ground arith) (ground arith)
                  ((eq_iff (trim_space command.name) "").0 blank)
                  (rw (allowed, good, blank, create) refl),
              rw (allowed, good, blank, create) refl,
            )
            | inr given ↦ inl (
              record {
                permitted = member;
                long = ground arith;
                short = ground arith;
                named = λ e. cc (sym given ∙ (eq_iff (trim_space command.name) "").1 e);
              },
              rw (allowed, good, given, create) refl,
            )
          ]
        ]
  ]

-- A refused request was not admissible.
pub Refusal-not-IsAdmissible :
    (principal : Principal) (key : String) (command : CreateOrganization) (r : Result Created)
    → Refusal principal key command r
    → ¬ (IsAdmissible principal key command)
Refusal-not-IsAdmissible principal key command r (denied lacking _) a = lacking a.permitted
Refusal-not-IsAdmissible principal key command r (bad_key _ bad _) a =
    let (l, h) : (8 ≤ byte_length (trim_space key)) × (byte_length (trim_space key) ≤ 200) =
      (a.long, a.short) in
    ground arith
Refusal-not-IsAdmissible principal key command r (unnamed _ _ _ blank _) a = a.named blank
