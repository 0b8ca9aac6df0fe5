-- ===== src/Tests/Access.antt =====
-- A technician with one site, an approval, and sites that are read.
use skawld_maintenance.Prelude.{
  String, ◌≡◌, refl, sym, ◌↔◌, ◌⊎◌, inr, true, false, none, some, [], ◌∷◌, Memᴰ, eq_iff,
}
use skawld_maintenance.Prelude.Int.{pos}
use skawld_maintenance.Errors.{ok, err, sentinel, site_not_found}
use skawld_maintenance.Database.{World, tick, query_row, execute, ◌>>=◌}
use skawld_maintenance.Database.Runs.{Ran}
use skawld_maintenance.Database.Schema.{SiteRow}
use skawld_maintenance.Identity.Authorization.{
  Principal, ApprovalAuthority, ApprovalRequest, can_approve, can_access_site,
  permission_report_approve,
}
use skawld_maintenance.Identity.Authorization.Access.{MayAccess, can_access_site_iff}
use skawld_maintenance.Identity.Authorization.Approval.{SomeCovers, can_approve_iff}
use skawld_maintenance.Identity.SiteReader.{get, to_site, cast_all}
use skawld_maintenance.Identity.SiteReader.Scope.{IsFound, get_safe, get_finds, nil_scope_denies}
use skawld_maintenance.Integration
use skawld_maintenance.Integration.{owned_by_skawld, external_reference, validate_iff}
use skawld_maintenance.Identity.Organization.{
  Organization, new_organization, created, IsNew, new_organization_iff,
}
use skawld_maintenance.Tests.{quiet, start, start_db}

abbrev bob : Principal
bob = record {
  id = "bob";
  external_subject = "oidc-bob";
  display_name = "Bob";
  organization_id = "plant";
  site_ids = some ("north" ∷ []);
  permissions = "report:approve" ∷ [];
}

abbrev authority : ApprovalAuthority
authority = record {
  id = "a";
  subject_id = "bob";
  organization_id = "plant";
  site_id = "";
  scope_kind = "";
  scope_id = "";
  competency = "pumps";
  maximum_risk = pos 2;
  valid_from = 5;
  valid_until = 9;
  revoked_at = none;
  delegated_by_subject_id = "";
}

abbrev request : ApprovalRequest
request = record {
  organization_id = "plant";
  site_id = "north";
  scope_kind = "asset";
  scope_id = "p1";
  competency = "pumps";
  risk = pos 2;
  at = 8;
}

can_approve_iff_example :
    (can_approve (λ c. c) bob permission_report_approve (authority ∷ []) request ≡ true) ↔ (
      Memᴰ permission_report_approve bob.permissions
      × SomeCovers (λ c. c) (authority ∷ []) "bob" request)
can_approve_iff_example =
    can_approve_iff (λ c. c) bob permission_report_approve (authority ∷ []) request

can_access_site_iff_example :
    (can_access_site bob "plant" "north" ≡ true) ↔ MayAccess bob "plant" "north"
can_access_site_iff_example = can_access_site_iff bob "plant" "north"

abbrev pub site : String → String → SiteRow
site id organization_id = record {
  id = id;
  organization_id = organization_id;
  code = "N";
  name = "North";
  timezone = "UTC";
  status = "ACTIVE";
}

abbrev sites : World
sites = record start {
  db = record start_db { sites = site "south" "plant" ∷ site "north" "plant" ∷ [] };
}

north_allowed : MayAccess bob "plant" "north"
north_allowed = record {
  member = λ e. cc (sym ((eq_iff "plant" "").1 e));
  same_organization = refl;
  named = λ e. cc (sym ((eq_iff "north" "").1 e));
  in_scope = inr (Memᴰ.head refl);
}

north_cast : quiet.cast_uuid "north" ≡ some "north"
north_cast = refl

plant_cast : quiet.cast_uuid bob.organization_id ≡ some "plant"
plant_cast = refl

north_scope : cast_all quiet.cast_uuid ("north" ∷ []) ≡ some ("north" ∷ [])
unfolding cast_all
north_scope = refl

north_run : Ran (get quiet bob "north") sites (to_site (site "north" "plant")) (tick sites)
unfolding get query_row execute ◌>>=◌ can_access_site cast_all
north_run = refl

get_finds_example : get quiet bob "north" sites ≡ (ok (to_site (site "north" "plant")), tick sites)
get_finds_example =
    get_finds quiet bob "north" sites refl north_cast plant_cast ("north" ∷ []) refl refl
      north_scope refl (site "north" "plant") refl north_allowed

get_safe_example :
    IsFound quiet bob "north" sites.db (to_site (site "north" "plant"))
    × ((tick sites).db ≡ sites.db)
get_safe_example =
    get_safe quiet bob "north" sites (to_site (site "north" "plant")) (tick sites) north_run

abbrev eve : Principal
eve = record bob { site_ids = none }

eve_cast : quiet.cast_uuid eve.organization_id ≡ some "plant"
eve_cast = refl

nil_scope_denies_example :
    (can_access_site eve "plant" "north" ≡ true)
    × ((get quiet eve "north" sites).0 ≡ err (sentinel site_not_found))
nil_scope_denies_example =
    nil_scope_denies quiet eve "north" sites refl north_cast eve_cast refl refl north_allowed.member
      "north" north_allowed.named

validate_iff_example : (Integration.validate external_reference true ≡ none) ↔ (
    ((external_reference ≡ owned_by_skawld) × (true ≡ false))
    ⊎ ((external_reference ≡ external_reference) × (true ≡ true)))
validate_iff_example = validate_iff external_reference true

abbrev plant : Organization
plant = record {
  id = "plant";
  name = "Plant";
  source_of_truth = "OWNED_BY_SKAWLD";
  version = 1;
  created_at = 7;
  updated_at = 7;
}

new_organization_iff_example :
    (new_organization "plant" " Plant" 7 ≡ created plant) ↔ IsNew "plant" " Plant" 7 plant
new_organization_iff_example = new_organization_iff "plant" " Plant" 7 plant
