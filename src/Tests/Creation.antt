-- ===== src/Tests/Creation.antt =====
-- An organization is created, and the request is sent again.
use skawld_maintenance.Prelude.{ℕ, ◌≡◌, refl, sym, ◌∙◌, ◌⊎◌, true, false, some, List, ◌≢◌, arith}
use skawld_maintenance.Errors.{ok}
use skawld_maintenance.Database.{World, in_tx, read_clock, draw_id, execute, query_row, ◌>>=◌}
use skawld_maintenance.Prelude.Text.{trim_space}
use skawld_maintenance.Idempotency
use skawld_maintenance.Idempotency.{insert_key, select_key, answer, complete_key, hash_request}
use skawld_maintenance.Idempotency.Bytes.{equal_bytes}
use skawld_maintenance.Identity.Organization.{new_organization}
use skawld_maintenance.Audit.{insert_event, append}
use skawld_maintenance.Identity.Service.{encode_command, encode_result, decode_result}
use skawld_maintenance.Database.Runs.{Ran}
use skawld_maintenance.Identity.Service.{CreateOrganization, CreateOrganizationResult}
use skawld_maintenance.Idempotency.Laws.{view, absent, completed}
use skawld_maintenance.Identity.Service
use skawld_maintenance.Identity.Service.Guards.{IsAdmissible, Refusal, service_create_cases}
use skawld_maintenance.Idempotency.Invariant.{KeysSound}
use skawld_maintenance.Identity.OrganizationStore.{
  create, create_organization_scope, insert_organization, insert_administrator,
}
use skawld_maintenance.Identity.OrganizationStore.Once.{
  create_atomic, create-Outcome, IsCreated, Outcome,
}
use skawld_maintenance.Identity.OrganizationStore.Response.{decode-encode_result}
use skawld_maintenance.Identity.OrganizationStore.Replay.{
  Answers, create_again, create_second, second_reply, completed-not-absent,
}
use skawld_maintenance.Tests.{quiet, codes, ann, acme, store, start}

abbrev after : World
unfolding create
after = (create quiet store ann "key-0001" acme start).1

abbrev made : CreateOrganizationResult
made = record { id = "uuun"; name = "Acme"; source_of_truth = "OWNED_BY_SKAWLD"; version = 1 }

-- Every definition that the run of a creation computes.
first_run : Ran (create quiet store ann "key-0001" acme) start (made, false) after
unfolding create in_tx read_clock draw_id execute query_row ◌>>=◌ Idempotency.begin insert_key
    select_key answer Idempotency.complete complete_key new_organization insert_organization
    insert_administrator insert_event append trim_space equal_bytes hash_request encode_command
    encode_result decode_result
first_run = refl

pub start_sound : KeysSound start.db
start_sound = record { unique = λ p s k. omega arith; stated = λ row m. elim m [ ] }

after-Answers : Answers quiet ann "key-0001" acme after
after-Answers = record { begin = refl; insert = refl; select = refl; commit = refl }

abbrev digest : List ℕ
digest = codes "{\"name\":\" Acme \"}"

after_state :
    view after.db "ann" create_organization_scope "key-0001"
    ≡ completed digest 201 (some (encode_result made))
unfolding create in_tx read_clock draw_id execute query_row ◌>>=◌ Idempotency.begin insert_key
    select_key answer Idempotency.complete complete_key new_organization insert_organization
    insert_administrator insert_event append trim_space equal_bytes hash_request encode_command
    encode_result decode_result view
after_state = refl

create_again_example :
    ((create quiet store ann "key-0001" acme after).0 ≡ ok (made, true))
    × ((create quiet store ann "key-0001" acme after).1.db ≡ after.db)
create_again_example =
    create_again quiet ann "key-0001" acme store start after made start_sound first_run after
      (λ q. refl) after-Answers

create_atomic_example :
    (after.db ≡ start.db)
    ⊎ ((r : CreateOrganizationResult) × IsCreated quiet ann "key-0001" acme start.db after.db r)
unfolding after create
create_atomic_example = create_atomic quiet ann "key-0001" acme store start

create-Outcome_example : Outcome quiet ann "key-0001" acme start.db after.db (made, false)
create-Outcome_example =
    create-Outcome quiet ann "key-0001" acme store start (made, false) after first_run

-- The same key with another command.
abbrev other : CreateOrganization
other = record { name = "Other" }

other-Answers : Answers quiet ann "key-0001" other after
other-Answers = record { begin = refl; insert = refl; select = refl; commit = refl }

after_taken : view after.db "ann" create_organization_scope "key-0001" ≢ absent
after_taken e = completed-not-absent quiet ann "key-0001" acme _ _ _ (sym after_state ∙ e)

ann_cast : quiet.cast_uuid ann.id ≡ some "ann"
ann_cast = refl

create_second_example :
    ((create quiet store ann "key-0001" other after).0
      ≡ second_reply quiet ann "key-0001" other
          (view after.db "ann" create_organization_scope "key-0001"))
    × ((create quiet store ann "key-0001" other after).1.db ≡ after.db)
create_second_example =
    create_second quiet ann "key-0001" other ann_cast store refl after other-Answers after_taken

decoded_again : decode_result (some (encode_result made)) ≡ some made
decoded_again = decode-encode_result made

service_create_cases_example :
    (IsAdmissible ann " key-0001" acme
      × (Service.create (some (create quiet store)) ann " key-0001" acme start
          ≡ create quiet store ann (trim_space " key-0001") acme start))
    ⊎ (Refusal ann " key-0001" acme
          (Service.create (some (create quiet store)) ann " key-0001" acme start).0
        × ((Service.create (some (create quiet store)) ann " key-0001" acme start).1 ≡ start))
service_create_cases_example = service_create_cases (create quiet store) ann " key-0001" acme start
