-- ===== src/HttpServer/Creating.antt =====
-- POST /organizations: what is answered, and what a retry is answered.
pub mod Again
pub mod Sound
use skawld_maintenance.Prelude.{
  ℕ, ◌<◌, ◌≤◌, Memᴰ, String, Bool, true, false, ◌≡◌, ◌≢◌, refl, sym, ap, ◌∙◌, ◌⊎◌, inl, inr, Option,
  some, arith, Bool-cases, Option-cases,
}
use skawld_maintenance.Prelude.Text.{trim_space, byte_length, trim_space-IsTrimmed}
use skawld_maintenance.Errors.{
  Result, err, Failure, sentinel, permission_denied, idempotency_key, invalid_organization,
  errors_is,
}
use skawld_maintenance.Identity.Authorization.{Principal}
use skawld_maintenance.Identity.Service.{
  CreateOrganization, CreateOrganizationResult, Created, AtomicOrganizationStore,
}
use skawld_maintenance.Identity.Service
use skawld_maintenance.Identity.Service.Guards.{
  IsAdmissible, Refusal, denied, bad_key, unnamed, service_create_cases, Refusal-not-IsAdmissible,
}
use skawld_maintenance.HttpServer.Failures.{IsAnswer, creation_failed-IsAnswer}
use mathlib.Core.Path.{subst}
use skawld_maintenance.Identity.Authorization.{permission_organization_create}
use skawld_maintenance.Identity.OrganizationStore.{
  OrganizationStore, create_organization_scope, create,
}
use skawld_maintenance.Identity.OrganizationStore.Replay.{Answers, create_again}
use skawld_maintenance.Idempotency.Laws.{view}
use skawld_maintenance.Idempotency.Invariant.{KeysSound}
use skawld_maintenance.Database.{Env, World}
use skawld_maintenance.Database.Runs.{Ran}
use skawld_maintenance.Http.{
  Request, Response, attempt, attempt_cases, attempt_ok, attempt_err, attempt_status, reply,
  organization,
}
use skawld_maintenance.HttpServer.{
  Context, Decoder, principal_from_context, write_problem, write_json, set_header, maximum_bytes,
  created, creation_failed, create_organization, error_text,
}

-- The body is one JSON object that matches the schema of the command.
pub record IsCommand (decoder : Decoder) (body : String) (command : CreateOrganization)
    : Type 0 where
  pub decoded : decoder.command maximum_bytes body ≡ some command
  pub alone : decoder.at_end maximum_bytes body ≡ true

module _ (decoder : Decoder) (drivers : String) where
  module _ (c : Context) (r : Request) (principal : Principal)
      (known : principal_from_context c ≡ some principal) where
    abbrev pub key : String
    key = trim_space (r.header "Idempotency-Key")

    -- A body that is a command is handed to the service.
    decoded_lem :
        (service : Option AtomicOrganizationStore) (command : CreateOrganization) (w : World)
        → IsCommand decoder r.body command
        → create_organization decoder drivers service c r w
          ≡ attempt
              (Service.create service principal key command)
              (λ e. reply (creation_failed drivers e))
              (λ result. reply (created result))
              w
    unfolding create_organization
    decoded_lem service command w is = rw (known, is.decoded, is.alone) refl

    -- How a request that the service refuses is answered, and why.
    pub data Refused (command : CreateOrganization) (x : Response) : Type 0 where
      lacking :
          ¬ (Memᴰ permission_organization_create principal.permissions)
          → x ≡ write_problem 403 "Forbidden" "permission denied"
          → Refused command x
      wrong_key :
          Memᴰ permission_organization_create principal.permissions
          → (byte_length key < 8) ⊎ (200 < byte_length key)
          → x
            ≡ write_problem 400 "Invalid Request" "idempotency key must contain 8 to 200 characters"
          → Refused command x
      blank_name :
          Memᴰ permission_organization_create principal.permissions
          → 8 ≤ byte_length key
          → byte_length key ≤ 200
          → trim_space command.name ≡ ""
          → x ≡ write_problem 400 "Invalid Request" "organization name is required"
          → Refused command x

    -- What the store's answer becomes: 201 with a new organization, 200 with a replayed one, which a
    -- header tells, and the status of the error's cause.
    pub data Stored (s : AtomicOrganizationStore) (command : CreateOrganization) (w : World)
        (x : Response × World) : Type 0 where
      made :
          (result : CreateOrganizationResult) (w' : World)
          → Ran (s principal key command) w (result, false) w'
          → x ≡ (write_json 201 (organization result), w')
          → Stored s command w x
      again :
          (result : CreateOrganizationResult) (w' : World)
          → Ran (s principal key command) w (result, true) w'
          → x ≡ (set_header "Idempotent-Replayed" "true" (write_json 200 (organization result)), w')
          → Stored s command w x
      failing :
          (e : Failure) (w' : World)
          → s principal key command w ≡ (err e, w')
          → IsAnswer drivers e x.0
          → x.1 ≡ w'
          → Stored s command w x

    module _ (s : AtomicOrganizationStore) (command : CreateOrganization) (w : World) where
      abbrev answer : Response × World
      answer =
          attempt (Service.create (some s) principal key command)
            (λ e. reply (creation_failed drivers e)) (λ result. reply (created result)) w

      trimmed_key : trim_space key ≡ key
      trimmed_key = trim_space-IsTrimmed (r.header "Idempotency-Key")

      refused_as :
          (e : Failure)
          → Service.create (some s) principal key command w ≡ (err e, w)
          → answer ≡ (creation_failed drivers e, w)
      refused_as e h = attempt_err _ _ _ w e w h

      refused_lem :
          Refusal principal key command (Service.create (some s) principal key command w).0
          → (Service.create (some s) principal key command w).1 ≡ w
          → Refused command answer.0 × (answer.1 ≡ w)
      unfolding creation_failed errors_is error_text
      refused_lem (denied absent e) same =
          let a = refused_as (sentinel permission_denied) (λ i. (e i, same i)) in
          (
            lacking absent (ap (λ (x : Response × World). x.0) a),
            ap (λ (x : Response × World). x.1) a,
          )
      refused_lem (bad_key permitted wrong e) same =
          let a = refused_as (sentinel idempotency_key) (λ i. (e i, same i)) in
          (
            wrong_key permitted
                (subst (λ k. (byte_length k < 8) ⊎ (200 < byte_length k)) trimmed_key wrong)
                (ap (λ (x : Response × World). x.0) a),
            ap (λ (x : Response × World). x.1) a,
          )
      refused_lem (unnamed permitted long short blank e) same =
          let a = refused_as (sentinel invalid_organization) (λ i. (e i, same i)) in
          (
            blank_name permitted (subst (λ k. 8 ≤ byte_length k) trimmed_key long)
                (subst (λ k. byte_length k ≤ 200) trimmed_key short) blank
                (ap (λ (x : Response × World). x.0) a),
            ap (λ (x : Response × World). x.1) a,
          )

      handed :
          Service.create (some s) principal key command w ≡ s principal (trim_space key) command w
          → Service.create (some s) principal key command w ≡ s principal key command w
      handed e = e ∙ ap (λ k. s principal k command w) trimmed_key

      -- A service that returns has handed the request to its store.
      returned :
          (result : Created) (v : World)
          → Ran (Service.create (some s) principal key command) w result v
          → IsAdmissible principal key command × Ran (s principal key command) w result v
      returned result v ran = elim (service_create_cases s principal key command w) [
        | inl (admissible, e) ↦ (admissible, sym (handed e) ∙ ran)
        | inr (why, _) ↦ elim why [
          | denied _ e ↦ cc (sym e ∙ ap (λ (x : Result Created × World). x.0) ran)
          | bad_key _ _ e ↦ cc (sym e ∙ ap (λ (x : Result Created × World). x.0) ran)
          | unnamed _ _ _ _ e ↦ cc (sym e ∙ ap (λ (x : Result Created × World). x.0) ran)
        ]
      ]

      admitted :
          IsAdmissible principal key command
          → Service.create (some s) principal key command w ≡ s principal key command w
      admitted a = elim (service_create_cases s principal key command w) [
        | inl (_, e) ↦ handed e
        | inr (why, _) ↦ absurd (Refusal-not-IsAdmissible principal key command _ why a)
      ]

      replied :
          (result : Created) (v : World)
          → Ran (s principal key command) w result v
          → answer ≡ (created result, v)
          → Stored s command w answer
      unfolding created
      replied (result, false) v ran e = made result v ran e
      replied (result, true) v ran e = again result v ran e

      commanded :
          (Refused command answer.0 × (answer.1 ≡ w))
          ⊎ (IsAdmissible principal key command × Stored s command w answer)
      commanded = elim (service_create_cases s principal key command w) [
        | inr (why, same) ↦ inl (refused_lem why same)
        | inl (admissible, e) ↦
            let m = Service.create (some s) principal key command in
            inr (
              admissible,
              elim (attempt_cases m (λ e. reply (creation_failed drivers e))
                  (λ result. reply (created result)) w) [
                    | inl (result, v, ran, x) ↦ replied result v (sym (handed e) ∙ ran) x
                    | inr (f, v, ran, x) ↦
                        failing f v (sym (handed e) ∙ ran)
                          (subst (IsAnswer drivers f) (sym (ap (λ (y : Response × World). y.0) x))
                            (creation_failed-IsAnswer drivers f))
                          (ap (λ (y : Response × World). y.1) x)
                  ],
            )
      ]

    -- A request with a principal to a server that has a store is answered in one of three ways. If its
    -- body is no command, the status is 400 and nothing happens. If it is a command that the service
    -- refuses, nothing happens either, and the problem is the first that applies: 403 without the
    -- permission, 400 for a trimmed key of a wrong length, 400 for a blank name. Else the store is run
    -- once under the trimmed key: a new organization is answered 201, a replayed one 200 with the
    -- header Idempotent-Replayed, and an error 403, 400, 409 or 500 by the package variable that it
    -- wraps.
    pub create_organization_cases :
        (s : AtomicOrganizationStore) (w : World)
        → let x = create_organization decoder drivers (some s) c r w in
          (((command : CreateOrganization) → ¬ (IsCommand decoder r.body command))
            × (x.0.status ≡ 400)
            × (x.1 ≡ w))
          ⊎ ((command : CreateOrganization) × IsCommand decoder r.body command
              × ((Refused command x.0 × (x.1 ≡ w))
                  ⊎ (IsAdmissible principal key command × Stored s command w x)))
    unfolding create_organization write_problem
    create_organization_cases s w = elim (Option-cases (decoder.command maximum_bytes r.body)) [
      | inl bad ↦
          inl (λ command is. cc (sym bad ∙ is.decoded), rw (known, bad) refl, rw (known, bad) refl)
      | inr (command, decoded) ↦ elim (Bool-cases (decoder.at_end maximum_bytes r.body)) [
        | inr more ↦ inl (
          λ command is. cc (sym more ∙ is.alone),
          rw (known, decoded, more) refl,
          rw (known, decoded, more) refl,
        )
        | inl alone ↦ inr (
          command,
          record { decoded = decoded; alone = alone },
          rw (known, decoded, alone) (commanded s command w),
        )
      ]
    ]
