-- ===== src/HttpServer/Creating/Sound.antt =====
-- POST /organizations: the key table stays sound.
use skawld_maintenance.Prelude.{String, Option, none, some, List, [], ◌∷◌, inl, inr, Bool-cases}
use skawld_maintenance.Prelude.Text.{trim_space}
use skawld_maintenance.Identity.Authorization.{Principal}
use skawld_maintenance.Identity.Service.{CreateOrganization}
use skawld_maintenance.Identity.Service
use skawld_maintenance.Identity.OrganizationStore.{OrganizationStore, create}
use skawld_maintenance.Identity.OrganizationStore.Sound.{create-KeysSound}
use skawld_maintenance.Idempotency.Invariant.{KeysSound}
use skawld_maintenance.Database.{Env, World}
use skawld_maintenance.Database.Keeps.{Keeps, keeps_rules}
use skawld_maintenance.Http.{Request}
use skawld_maintenance.Http.Keeps.{KeepsReply, KeepsReply-reply, KeepsReply-attempt}
use skawld_maintenance.HttpServer.{
  Context, Decoder, maximum_bytes, principal_from_context, with_given, create_decoded,
  create_organization,
}

module _ (decoder : Decoder) (drivers : String) (env : Env) (store : OrganizationStore) where
  service-KeysSound :
      (principal : Principal) (key : String) (command : CreateOrganization)
      → Keeps KeysSound (Service.create (some (create env store)) principal key command)
  unfolding Service.create
  service-KeysSound principal key command = search (keeps_rules, create-KeysSound) depth 9

  decoded-KeysSound :
      (principal : Principal) (r : Request) (o : Option CreateOrganization)
      → KeepsReply KeysSound
          (create_decoded decoder drivers (some (create env store)) principal r o)
  decoded-KeysSound principal r none = KeepsReply-reply KeysSound _
  decoded-KeysSound principal r (some command) =
      elim (Bool-cases (decoder.at_end maximum_bytes r.body)) [
        | inr more ↦ rw more (KeepsReply-reply KeysSound _)
        | inl alone ↦ rw alone (
            KeepsReply-attempt KeysSound _ _ _
              (service-KeysSound principal (trim_space (r.header "Idempotency-Key")) command)
              (λ e. KeepsReply-reply KeysSound _) (λ result. KeepsReply-reply KeysSound _))
      ]

  given-KeysSound :
      (o : Option Principal) (r : Request)
      → KeepsReply KeysSound (
          with_given o λ principal.
            create_decoded decoder drivers
              (some (create env store))
              principal
              r
              (decoder.command maximum_bytes r.body))
  given-KeysSound none r = KeepsReply-reply KeysSound _
  given-KeysSound (some principal) r =
      decoded-KeysSound principal r (decoder.command maximum_bytes r.body)

  -- The world after some requests to create an organization.
  unfoldable pub after_requests : List (Context × Request) → World → World
  after_requests [] w = w
  after_requests ((c, r) ∷ rest) w =
      after_requests rest (create_organization decoder drivers (some (create env store)) c r w).1

  -- A key table in which no two rows have one key, and in which a completed row has its response
  -- status, as an empty one is, stays one through any requests to create organizations, whatever they
  -- are answered and however the server answers each call.
  pub requests_sound :
      (requests : List (Context × Request)) (w : World)
      → KeysSound w.db
      → KeysSound (after_requests requests w).db
  unfolding after_requests create_organization
  requests_sound [] w sound = sound
  requests_sound ((c, r) ∷ rest) w sound =
      requests_sound rest (create_organization decoder drivers (some (create env store)) c r w).1
        ((given-KeysSound (principal_from_context c) r).at w sound)
