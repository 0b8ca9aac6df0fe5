-- ===== src/Identity/Authorization.antt =====
-- internal/identity/domain/authorization.go: permissions, site scopes and approval authorities.
-- An instant is the number of nanoseconds since Go's zero time, so that `IsZero` is a test for 0
-- and `UTC`, which changes the location and not the instant, is left out.
pub mod Access
pub mod Approval
use skawld_maintenance.Prelude.{
  ℕ, String, Bool, true, false, ◌&&◌, ◌||◌, not, Option, none, some, List, [], ◌∷◌, ◌==◌, ltb,
  nat_eq, any, is_empty, if◌then◌else◌,
}
use skawld_maintenance.Prelude.Text.{equal_fold}
use skawld_maintenance.Prelude.Int.{ℤ, pos, ltb_ℤ}

abbrev pub Time : Type 0
Time = ℕ

-- `Permission` is a string type with four constants.
abbrev pub Permission : Type 0
Permission = String

abbrev pub permission_organization_create : Permission
permission_organization_create = "organization:create"

abbrev pub permission_workflow_review : Permission
permission_workflow_review = "workflow:review"

abbrev pub permission_workflow_publish : Permission
permission_workflow_publish = "workflow:publish"

abbrev pub permission_report_approve : Permission
permission_report_approve = "report:approve"

abbrev pub RiskLevel : Type 0
RiskLevel = ℤ

abbrev pub risk_informational : RiskLevel
risk_informational = pos 0

abbrev pub risk_advisory : RiskLevel
risk_advisory = pos 1

abbrev pub risk_operational_low : RiskLevel
risk_operational_low = pos 2

abbrev pub risk_safety_significant : RiskLevel
risk_safety_significant = pos 3

abbrev pub risk_critical : RiskLevel
risk_critical = pos 4

-- `site_ids` is a slice, and `none` is the nil slice; `permissions` is a map to `struct{}`, read as
-- the list of its keys.
pub record Principal : Type 0 where
  pub id : String
  pub external_subject : String
  pub display_name : String
  pub organization_id : String
  pub site_ids : Option (List String)
  pub permissions : List Permission

-- The elements of a slice: nil has none.
abbrev pub elements {ℓ} : {A : Type ℓ} → Option (List A) → List A
elements none = []
elements (some xs) = xs

-- `Principal.Has`: a lookup in the map
unfoldable pub has : Principal → Permission → Bool
has p permission = any (λ q. q == permission) p.permissions

-- The loop of `CanAccessSite`.
unfoldable pub lists_site : List String → String → Bool
lists_site [] site_id = false
lists_site (allowed_site_id ∷ rest) site_id =
    if allowed_site_id == site_id then true else lists_site rest site_id

unfoldable pub can_access_site : Principal → String → String → Bool
unfolding lists_site
can_access_site p organization_id site_id =
    if p.organization_id == "" || not (p.organization_id == organization_id) || site_id == ""
    then false
    else if is_empty (elements p.site_ids)
    then true
    else lists_site (elements p.site_ids) site_id

pub record ApprovalRequest : Type 0 where
  pub organization_id : String
  pub site_id : String
  pub scope_kind : String
  pub scope_id : String
  pub competency : String
  pub risk : RiskLevel
  pub at : Time

pub record ApprovalAuthority : Type 0 where
  pub id : String
  pub subject_id : String
  pub organization_id : String
  pub site_id : String
  pub scope_kind : String
  pub scope_id : String
  pub competency : String
  pub maximum_risk : RiskLevel
  pub valid_from : Time
  pub valid_until : Time
  pub revoked_at : Option Time
  pub delegated_by_subject_id : String

abbrev pub is_nil {ℓ} : {A : Type ℓ} → Option A → Bool
is_nil none = true
is_nil (some a) = false

-- The table of simple case folding that `strings.EqualFold` reads.
module _ (fold : ℕ → ℕ) where
  unfoldable pub matches : ApprovalAuthority → String → ApprovalRequest → Bool
  matches a subject_id request =
      if not (is_nil a.revoked_at)
        || not (a.subject_id == subject_id)
        || not (a.organization_id == request.organization_id)
      then false
      else if not (a.site_id == "") && not (a.site_id == request.site_id)
      then false
      else if not (a.scope_kind == "") && not (equal_fold fold a.scope_kind request.scope_kind)
      then false
      else if not (a.scope_id == "") && not (a.scope_id == request.scope_id)
      then false
      else if not (a.competency == "") && not (equal_fold fold a.competency request.competency)
      then false
      else if ltb_ℤ a.maximum_risk request.risk
      then false
      else if not (nat_eq a.valid_from 0) && ltb request.at a.valid_from
      then false
      else if not (nat_eq a.valid_until 0) && not (ltb request.at a.valid_until)
      then false
      else true

  -- The loop of `CanApprove`.
  unfoldable pub some_matches : List ApprovalAuthority → String → ApprovalRequest → Bool
  some_matches [] subject_id request = false
  some_matches (authority ∷ rest) subject_id request =
      if matches authority subject_id request then true else some_matches rest subject_id request

  unfoldable pub can_approve :
      Principal → Permission → List ApprovalAuthority → ApprovalRequest → Bool
  unfolding some_matches
  can_approve principal permission authorities request =
      if not (has principal permission)
      then false
      else some_matches authorities principal.id request
