-- ===== src/Integration.antt =====
-- internal/integration/domain/source_of_truth.go: which system owns a record.
use skawld_maintenance.Prelude.{
  String, ◌≡◌, ◌≢◌, ◌↔◌, ◌⊎◌, Bool, true, false, Option, none, some, arith,
}
use skawld_maintenance.Prelude.{◌==◌, eq_iff, if◌then◌else◌}

-- A string type with two constants.
abbrev pub SourceOfTruth : Type 0
SourceOfTruth = String

abbrev pub owned_by_skawld : SourceOfTruth
owned_by_skawld = "OWNED_BY_SKAWLD"

abbrev pub external_reference : SourceOfTruth
external_reference = "EXTERNAL_REFERENCE"

pub data SourceError : Type 0 where
  owned_with_reference : SourceError
  external_without_reference : SourceError
  unsupported : SourceOfTruth → SourceError

-- `none` is the nil error
unfoldable pub validate : SourceOfTruth → Bool → Option SourceError
validate s has_external_reference =
    if s == owned_by_skawld
    then if has_external_reference then some owned_with_reference else none
    else if s == external_reference
    then if has_external_reference then none else some external_without_reference
    else some (unsupported s)

-- A source of truth is accepted exactly if it is one of the two constants and a reference is there
-- just where an external system owns the record.
pub validate_iff :
    (s : SourceOfTruth) (has_external_reference : Bool)
    → (validate s has_external_reference ≡ none) ↔ (
        ((s ≡ owned_by_skawld) × (has_external_reference ≡ false))
        ⊎ ((s ≡ external_reference) × (has_external_reference ≡ true)))
unfolding validate
validate_iff s has_external_reference = ground (
  arith,
  eq_iff s owned_by_skawld,
  eq_iff s external_reference,
  eq_iff owned_by_skawld external_reference,
)

-- An unknown source of truth is refused with its own text, whatever the reference.
pub validate-unsupported_iff :
    (s t : SourceOfTruth) (has_external_reference : Bool)
    → (validate s has_external_reference ≡ some (unsupported t))
      ↔ ((s ≡ t) × (s ≢ owned_by_skawld) × (s ≢ external_reference))
unfolding validate
validate-unsupported_iff s t has_external_reference = ground (
  arith,
  eq_iff s owned_by_skawld,
  eq_iff s external_reference,
  eq_iff owned_by_skawld external_reference,
)
