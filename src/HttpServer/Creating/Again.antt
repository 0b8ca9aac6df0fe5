-- ===== src/HttpServer/Creating/Again.antt =====
-- POST /organizations: what a retry is answered.
use skawld_maintenance.Prelude.{
  ℕ, ◌<◌, String, Bool, true, false, ◌≡◌, ◌≢◌, refl, sym, ap, ◌∙◌, some, arith,
}
use skawld_maintenance.Prelude.Text.{trim_space}
use skawld_maintenance.Errors.{Failure}
use skawld_maintenance.Identity.Authorization.{Principal}
use skawld_maintenance.Identity.Service.{
  CreateOrganization, CreateOrganizationResult, Created, AtomicOrganizationStore,
}
use skawld_maintenance.Identity.Service
use skawld_maintenance.Identity.OrganizationStore.{
  OrganizationStore, create_organization_scope, create,
}
use skawld_maintenance.Identity.OrganizationStore.Replay.{Answers, create_again}
use skawld_maintenance.Idempotency.Laws.{view}
use skawld_maintenance.Idempotency.Invariant.{KeysSound}
use skawld_maintenance.Database.{Env, World}
use skawld_maintenance.Http.{Request, Response, attempt_ok, attempt_status, reply, organization}
use skawld_maintenance.HttpServer.{
  Context, Decoder, principal_from_context, write_problem, write_json, set_header, created,
  creation_failed, create_organization,
}
use skawld_maintenance.HttpServer.Creating.{IsCommand, decoded_lem, returned, admitted}

creation_failed-not-success :
    (drivers : String) (e : Failure) (status : ℕ)
    → status < 300
    → (creation_failed drivers e).status ≢ status
unfolding creation_failed write_problem
creation_failed-not-success drivers e status low h = ground arith

module _ (decoder : Decoder) (drivers : String) (c : Context) (r : Request) (principal : Principal)
    (known : principal_from_context c ≡ some principal) where
  abbrev pub sent_key : String
  sent_key = trim_space (r.header "Idempotency-Key")

  fresh_lem :
      (result : CreateOrganizationResult) (replay : Bool)
      → (created (result, replay)).status ≡ 201
      → replay ≡ false
  unfolding created write_json
  fresh_lem result true h = absurd (omega arith)
  fresh_lem result false h = refl

  module _ (env : Env) (store : OrganizationStore) (command : CreateOrganization)
      (is : IsCommand decoder r.body command) (w : World) where
    abbrev pub run : World → Response × World
    run = create_organization decoder drivers (some (create env store)) c r

    -- A request that was answered 201, sent again to a key table that was sound and in which the
    -- key's state is as the first request left it, when the server answers its calls, is answered 200
    -- with the header Idempotent-Replayed and the same organization, and changes no table.
    pub create_organization_again :
        KeysSound w.db
        → (run w).0.status ≡ 201
        → (v : World)
        → ((q : String)
            → view v.db q create_organization_scope sent_key
              ≡ view (run w).1.db q create_organization_scope sent_key)
        → Answers env principal sent_key command v
        → (result : CreateOrganizationResult) × ((run w).0 ≡ write_json 201 (organization result))
          × ((run v).0
              ≡ set_header "Idempotent-Replayed" "true" (write_json 200 (organization result)))
          × ((run v).1.db ≡ v.db)
    unfolding created
    create_organization_again sound h v same answers =
        let m = Service.create (some (create env store)) principal sent_key command in
        let a =
          decoded_lem decoder drivers c r principal known (some (create env store)) command w is in
        let ((result, replay), w', ran, b) =
          attempt_status m _ _ w 201
            (λ e v. creation_failed-not-success drivers e 201 (omega arith))
            (ap (λ (x : Response × World). x.0.status) (sym a) ∙ h) in
        let first = a ∙ b in
        let fresh =
          fresh_lem result replay (ap (λ (x : Response × World). x.0.status) (sym first) ∙ h) in
        let (admissible, stored) =
          returned decoder drivers c r principal known (create env store) command w (result, replay)
            w' ran in
        let (reply, kept) =
          create_again env principal sent_key command store w w' result sound (rw (← fresh) stored)
            v
            (λ q.
              same q
              ∙ ap (λ (x : Response × World). view x.1.db q create_organization_scope sent_key)
                  first)
            answers in
        let second : run v
            ≡ (created (result, true), (create env store principal sent_key command v).1) =
          decoded_lem decoder drivers c r principal known (some (create env store)) command v is
          ∙ attempt_ok m _ _ v (result, true) (create env store principal sent_key command v).1
              (admitted decoder drivers c r principal known (create env store) command v admissible
                ∙ (λ i. (reply i, (create env store principal sent_key command v).1))) in
        (
          result,
          ap (λ (x : Response × World). x.0) first ∙ ap (λ b. created (result, b)) fresh,
          ap (λ (x : Response × World). x.0) second,
          ap (λ (x : Response × World). x.1.db) second ∙ kept,
        )
