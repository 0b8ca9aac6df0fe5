-- ===== src/Identity/Organization.antt =====
-- internal/identity/domain/organization.go: a new organization.
use skawld_maintenance.Prelude.{ℕ, String, ◌≡◌, ◌≢◌, ◌↔◌, arith, ◌==◌, eq_iff, if◌then◌else◌}
use mathlib.Core.Path.{subst}
use skawld_maintenance.Prelude.Text.{trim_space, IsTrimmed, trim_space-IsTrimmed}
use skawld_maintenance.Integration.{SourceOfTruth, owned_by_skawld}
use skawld_maintenance.Identity.Authorization.{Time}

pub record Organization : Type 0 where
  pub id : String
  pub name : String
  pub source_of_truth : SourceOfTruth
  pub version : ℕ
  pub created_at : Time
  pub updated_at : Time

pub data OrganizationError : Type 0 where
  id_required name_required : OrganizationError

-- `NewOrganization` returns an organization or an error.
pub data NewResult : Type 0 where
  created : Organization → NewResult
  failed : OrganizationError → NewResult

unfoldable pub new_organization : String → String → Time → NewResult
new_organization id name now =
    let name' = trim_space name in
    if id == ""
    then failed id_required
    else if name' == ""
    then failed name_required
    else created (record {
      id = id;
      name = name';
      source_of_truth = owned_by_skawld;
      version = 1;
      created_at = now;
      updated_at = now;
    })

-- What a new organization is made of.
pub record IsNew (id name : String) (now : Time) (o : Organization) : Type 0 where
  pub has_id : id ≢ ""
  pub has_name : o.name ≢ ""
  pub trimmed : IsTrimmed o.name
  pub same_id : o.id ≡ id
  pub same_name : o.name ≡ trim_space name
  pub owned : o.source_of_truth ≡ owned_by_skawld
  pub first : o.version ≡ 1
  pub stamped : (o.created_at ≡ now) × (o.updated_at ≡ now)

name_of :
    (id name : String) (now : Time) (o : Organization)
    → new_organization id name now ≡ created o
    → trim_space name ≡ o.name
unfolding new_organization
name_of id name now o h = ground arith

-- A new organization exists exactly if there is an id and the name is not all white space. It is
-- then owned by this system, in version 1, under the trimmed name, stamped with the time given.
pub new_organization_iff :
    (id name : String) (now : Time) (o : Organization)
    → (new_organization id name now ≡ created o) ↔ IsNew id name now o
unfolding new_organization
new_organization_iff id name now o = (
  λ h. record {
    has_id = ground (arith, eq_iff id "");
    has_name = ground (arith, eq_iff (trim_space name) "");
    trimmed = subst IsTrimmed (name_of id name now o h) (trim_space-IsTrimmed name);
    same_id = ground arith;
    same_name = ground arith;
    owned = ground arith;
    first = ground arith;
    stamped = ground arith;
  },
  λ n. ground (arith, eq_iff id "", eq_iff (trim_space name) "", n.has_id, n.has_name),
)
