-- ===== src/Identity/Service.antt =====
-- internal/identity/application: the checks that stand before the stores.
pub mod Guards
use skawld_maintenance.Prelude.{
  ℕ, String, ◌<>◌, Bool, not, ◌||◌, Option, none, some, ◌==◌, ltb, if◌then◌else◌,
}
use skawld_maintenance.Prelude.Text.{trim_space, byte_length}
use skawld_maintenance.Json.{Json, str, num, obj, end, field, quote, lookup, as_string, as_number}
use skawld_maintenance.Errors.{
  sentinel, text, permission_denied, idempotency_key, invalid_organization, site_not_found,
}
use skawld_maintenance.Database.{Exec, fail}
use skawld_maintenance.Identity.Authorization.{Principal, has, permission_organization_create}

-- The command's one field is `name`.
pub record CreateOrganization : Type 0 where
  pub name : String

pub record CreateOrganizationResult : Type 0 where
  pub id : String
  pub name : String
  pub source_of_truth : String
  pub version : ℕ

-- The result, and whether it was replayed.
abbrev pub Created : Type 0
Created = CreateOrganizationResult × Bool

-- json.Marshal of the command
unfoldable pub encode_command : CreateOrganization → String
unfolding quote
encode_command c = "{\"name\":" <> quote c.name <> "}"

-- json.Marshal of the result, as a value
unfoldable pub encode_result : CreateOrganizationResult → Json
encode_result r = obj (
    field "id" (str r.id) (
      field "name" (str r.name)
        (field "source_of_truth" (str r.source_of_truth) (field "version" (num r.version) end))))

-- The four fields, if each is of its type.
abbrev pub assemble :
    Option String → Option String → Option String → Option ℕ → Option CreateOrganizationResult
assemble (some id) (some name) (some source) (some version) =
    some (record { id = id; name = name; source_of_truth = source; version = version })
assemble _ _ _ _ = none

-- json.Unmarshal into a result; the stored body has no other spelling of a key, so that keys are
-- matched exactly. A missing body is a syntax error.
unfoldable pub decode_result : Option Json → Option CreateOrganizationResult
unfolding lookup
decode_result (some (obj fs)) =
    assemble (as_string (lookup "id" fs)) (as_string (lookup "name" fs))
      (as_string (lookup "source_of_truth" fs)) (as_number (lookup "version" fs))
decode_result (some Json.null) = assemble (some "") (some "") (some "") (some 0)
decode_result _ = none

-- `AtomicOrganizationStore`; a nil store is `none`.
abbrev pub AtomicOrganizationStore : Type 0
AtomicOrganizationStore = Principal → String → CreateOrganization → Exec Created

-- `OrganizationService.Create`
unfoldable pub create :
    Option AtomicOrganizationStore → Principal → String → CreateOrganization → Exec Created
create store principal idempotency_key' command =
    if not (has principal permission_organization_create)
    then fail (sentinel permission_denied)
    else let key = trim_space idempotency_key' in
      if ltb (byte_length key) 8 || ltb 200 (byte_length key)
      then fail (sentinel idempotency_key)
      else if trim_space command.name == ""
      then fail (sentinel invalid_organization)
      else elim store [
        | none ↦ fail (text "organization store is required")
        | some s ↦ s principal key command
      ]

pub record Site : Type 0 where
  pub id : String
  pub organization_id : String
  pub code : String
  pub name : String
  pub timezone : String
  pub status : String

abbrev pub SiteReader : Type 0
SiteReader = Principal → String → Exec Site

-- `SiteService.Get`
unfoldable pub get_site : Option SiteReader → Principal → String → Exec Site
get_site none principal site_id = fail (sentinel site_not_found)
get_site (some reader) principal site_id =
    if principal.organization_id == ""
    then fail (sentinel site_not_found)
    else reader principal site_id
