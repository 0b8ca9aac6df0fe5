-- ===== src/Tests/Server.antt =====
-- Requests to the API: an organization that is created twice, and a site.
use skawld_maintenance.Prelude.{◌==◌, ◌≡◌, refl, ◌⊎◌, true, none, some, if◌then◌else◌}
use skawld_maintenance.Prelude.Text.{trim_space, byte_length}
use skawld_maintenance.Identity.Authorization.{has}
use skawld_maintenance.Identity.Service.{
  CreateOrganization, CreateOrganizationResult, Created, AtomicOrganizationStore, encode_command,
  encode_result, decode_result,
}
use skawld_maintenance.Identity.Service
use skawld_maintenance.Identity.Service.Guards.{IsAdmissible}
use skawld_maintenance.Identity.Organization.{new_organization}
use skawld_maintenance.Identity.OrganizationStore.{
  create, insert_organization, insert_administrator,
}
use skawld_maintenance.Identity.OrganizationStore.Replay.{Answers}
use skawld_maintenance.Idempotency
use skawld_maintenance.Idempotency.{insert_key, select_key, answer, complete_key, hash_request}
use skawld_maintenance.Idempotency.Bytes.{equal_bytes}
use skawld_maintenance.Audit.{insert_event, append}
use skawld_maintenance.Database.{World, in_tx, execute, query_row, ◌>>=◌, read_clock, draw_id}
use skawld_maintenance.Http.{Request, Response, attempt, organization}
use skawld_maintenance.HttpServer.{
  Context, Decoder, created, create_organization, write_json, set_header, principal_from_context,
}
use skawld_maintenance.HttpServer.Creating.{IsCommand, Stored, Refused, create_organization_cases}
use skawld_maintenance.HttpServer.Creating.Again.{create_organization_again}
use skawld_maintenance.HttpServer.Creating.Sound.{after_requests, requests_sound}
use skawld_maintenance.Idempotency.Invariant.{KeysSound}
use skawld_maintenance.Prelude.{List, [], ◌∷◌}
use skawld_maintenance.Tests.{quiet, ann, acme, store, start}
use skawld_maintenance.Tests.Creation.{start_sound}

-- A decoder under which every body is the one command.
abbrev decoder : Decoder
decoder = record { command = λ limit body. some acme; at_end = λ limit body. true }

abbrev signed_in : Context
signed_in = record { principal = some ann; url_param = λ name. "" }

abbrev to_create : Request
to_create = record {
  method = "POST";
  path = "/api/v1/organizations";
  query = λ name. "";
  cookie = λ name. none;
  header = λ name. if name == "Idempotency-Key" then " key-0001 " else "";
  body = "{\"name\":\" Acme \"}";
}

abbrev run : World → Response × World
run = create_organization decoder "" (some (create quiet store)) signed_in to_create

ann_known : principal_from_context signed_in ≡ some ann
unfolding principal_from_context
ann_known = refl

abbrev once : World
once = (run start).1

once_status : (run start).0.status ≡ 201
unfolding create_organization attempt create in_tx read_clock draw_id execute query_row ◌>>=◌
    Idempotency.begin insert_key select_key answer Idempotency.complete complete_key
    new_organization insert_organization insert_administrator insert_event append trim_space
    equal_bytes hash_request encode_command encode_result decode_result byte_length has
    Service.create created write_json
once_status = refl

is_command : IsCommand decoder to_create.body acme
is_command = record { decoded = refl; alone = refl }

once-Answers : Answers quiet ann (trim_space " key-0001 ") acme once
unfolding create_organization attempt create in_tx read_clock draw_id execute query_row ◌>>=◌
    Idempotency.begin insert_key select_key answer Idempotency.complete complete_key
    new_organization insert_organization insert_administrator insert_event append trim_space
    equal_bytes hash_request encode_command encode_result decode_result byte_length has
    Service.create created write_json
once-Answers = record { begin = refl; insert = refl; select = refl; commit = refl }

create_organization_again_example :
    (result : CreateOrganizationResult) × ((run start).0 ≡ write_json 201 (organization result))
    × ((run once).0
        ≡ set_header "Idempotent-Replayed" "true" (write_json 200 (organization result)))
    × ((run once).1.db ≡ once.db)
create_organization_again_example =
    create_organization_again decoder "" signed_in to_create ann ann_known quiet store acme
      is_command start start_sound once_status once (λ q. refl) once-Answers

create_organization_cases_example :
    (((command : CreateOrganization) → ¬ (IsCommand decoder to_create.body command))
      × ((run start).0.status ≡ 400)
      × ((run start).1 ≡ start))
    ⊎ ((command : CreateOrganization) × IsCommand decoder to_create.body command
        × ((Refused decoder "" signed_in to_create ann ann_known command (run start).0
              × ((run start).1 ≡ start))
            ⊎ (IsAdmissible ann (trim_space " key-0001 ") command
                × Stored decoder "" signed_in to_create ann ann_known
                    (create quiet store)
                    command
                    start
                    (run start))))
create_organization_cases_example =
    create_organization_cases decoder "" signed_in to_create ann ann_known (create quiet store)
      start

abbrev two_requests : List (Context × Request)
two_requests = (signed_in, to_create) ∷ (signed_in, to_create) ∷ []

requests_sound_example : KeysSound (after_requests decoder "" quiet store two_requests start).db
requests_sound_example = requests_sound decoder "" quiet store two_requests start start_sound
