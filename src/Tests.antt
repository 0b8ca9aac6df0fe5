-- ===== src/Tests.antt =====
-- A server, a principal and a request, on which the theorems are applied and the code is run.
mod Creation
mod Access
mod Keys
mod Login
mod Settings
mod Startup
mod Web
mod Server
mod Api
mod Package
use Prim.Native.Char.{code}
use skawld_maintenance.Prelude.{
  ℕ, zero, suc, ◌+◌, ◌-◌, ◌%◌, String, ◌<>◌, ◌==◌, Option, none, some, List, [], ◌∷◌, false, true,
  if◌then◌else◌,
}
use skawld_maintenance.Identity.Authorization.{Principal}
use skawld_maintenance.Identity.Service.{CreateOrganization}
use skawld_maintenance.Identity.OrganizationStore.{OrganizationStore}
use skawld_maintenance.Database.{Env, World, answered}
use skawld_maintenance.Database.Schema.{Db, empty_db, PrincipalRow}

abbrev pub codes : String → List ℕ
codes String.[] = []
codes (String.◌∷◌ c s) = code c ∷ codes s

abbrev pub name_of : ℕ → String
name_of zero = "n"
name_of (suc n) = "u" <> name_of n

-- A server that answers every call; the digest of a text is the list of its codes, and a uuid is a
-- text that is not empty; a column keeps microseconds.
abbrev pub quiet : Env
quiet = record {
  clock = λ n. n + 1000;
  ids = name_of;
  fate = λ n. answered;
  sha256 = codes;
  cast_uuid = λ s. if s == "" then none else some s;
  encode_array = λ xs. xs;
  timestamptz = λ t. t - t % 1000;
}

abbrev pub ann_row : PrincipalRow
ann_row = record {
  id = "ann";
  external_subject = "oidc-ann";
  display_name = "Ann";
  email = none;
  status = "ACTIVE";
  created_at = 1;
  updated_at = 1;
}

abbrev pub start_db : Db
start_db = record empty_db { principals = ann_row ∷ [] }

abbrev pub start : World
start = record { db = start_db; calls = 0 }

abbrev pub ann : Principal
ann = record {
  id = "ann";
  external_subject = "oidc-ann";
  display_name = "Ann";
  organization_id = "";
  site_ids = none;
  permissions = "organization:create" ∷ [];
}

abbrev pub acme : CreateOrganization
acme = record { name = " Acme " }

abbrev pub store : OrganizationStore
store = record { pool = true; ids = true; clock = true }
