-- ===== src/Identity/OrganizationStore/Sound.antt =====
-- A creation keeps the key table sound, however the server answers.
use skawld_maintenance.Prelude.{
  String, ◌||◌, not, ◌==◌, Option, none, some, [], ◌∷◌, ◌++◌, any, if◌then◌else◌, ltb,
}
use skawld_maintenance.Identity.Authorization.{Time, Principal}
use skawld_maintenance.Identity.Organization.{Organization, NewResult, created, failed}
use skawld_maintenance.Identity.Service.{CreateOrganization, CreateOrganizationResult}
use skawld_maintenance.Identity.OrganizationStore.{
  organization_row, administrator_row, OrganizationStore, insert_organization, insert_administrator,
  checked, replayed, write, resume, create_in_tx, create, only_spaces, has_zero,
}
use skawld_maintenance.Integration.{owned_by_skawld}
use skawld_maintenance.Audit.{Event, insert_event, append, cast_nullable, audit_row}
use skawld_maintenance.Idempotency.{Record}
use skawld_maintenance.Idempotency.Invariant.{KeysSound, begin-KeysSound, complete-KeysSound}
use skawld_maintenance.Database.{Env}
use skawld_maintenance.Database.Keeps.{
  Keeps, Preserves, Leaves-some, Leaves-none, Leaves-if, Leaves-with_uuid, keeps_rules,
}
use skawld_maintenance.Database.Schema.{OrganizationRow, MembershipRow, PrincipalRow, AuditRow}

module _ (env : Env) where
  insert_organization-Preserves :
      (o : Organization) → Preserves KeysSound (insert_organization env o)
  unfolding insert_organization
  insert_organization-Preserves o = record {
    after = λ db sound. Leaves-with_uuid KeysSound (env.cast_uuid o.id) _ λ id.
        Leaves-if KeysSound
          (any (λ (row : OrganizationRow). row.id == id) db.organizations
            || only_spaces o.name
            || has_zero o.name
            || not (o.source_of_truth == owned_by_skawld)
            || not (ltb 0 o.version))
          none
          (some (tt, record db { organizations = db.organizations ++ organization_row id o ∷ [] }))
          (λ _. Leaves-none KeysSound)
          (λ _.
            Leaves-some KeysSound tt
              (record db { organizations = db.organizations ++ organization_row id o ∷ [] }) sound);
  }

  insert_administrator-Preserves :
      (id principal organization : String) (now : Time)
      → Preserves KeysSound (insert_administrator env id principal organization now)
  unfolding insert_administrator
  insert_administrator-Preserves id principal organization now = record {
    after = λ db sound. Leaves-with_uuid KeysSound (env.cast_uuid id) _ λ i.
        Leaves-with_uuid KeysSound (env.cast_uuid principal) _ λ p.
          Leaves-with_uuid KeysSound (env.cast_uuid organization) _ λ o.
            let more = record db {
              memberships = db.memberships ++ administrator_row env i p o now ∷ [];
            } in
            let orphan =
              not (any (λ (row : PrincipalRow). row.id == p) db.principals)
              || not (any (λ (row : OrganizationRow). row.id == o) db.organizations) in
            Leaves-if KeysSound (any (λ (row : MembershipRow). row.id == i) db.memberships)
              (some (tt, db)) (if orphan then none else some (tt, more))
              (λ _. Leaves-some KeysSound tt db sound)
              λ _.
                Leaves-if KeysSound orphan none (some (tt, more)) (λ _. Leaves-none KeysSound)
                  (λ _. Leaves-some KeysSound tt more sound);
  }

  insert_event-Preserves : (event : Event) → Preserves KeysSound (insert_event env event)
  unfolding insert_event
  insert_event-Preserves event = record {
    after = λ db sound. Leaves-with_uuid KeysSound (env.cast_uuid event.id) _ λ id.
        Leaves-with_uuid KeysSound (cast_nullable env event.organization_id) _ λ o.
          Leaves-with_uuid KeysSound (cast_nullable env event.site_id) _ λ s.
            Leaves-with_uuid KeysSound (cast_nullable env event.actor_id) _ λ a.
              let more = record db {
                audit_events = db.audit_events ++ audit_row event id o s a ∷ [];
              } in
              Leaves-if KeysSound (any (λ (row : AuditRow). row.id == id) db.audit_events) none
                (some (tt, more)) (λ _. Leaves-none KeysSound)
                (λ _. Leaves-some KeysSound tt more sound);
  }

  append-KeysSound : (event : Event) → Keeps KeysSound (append env event)
  unfolding append
  append-KeysSound event = search (keeps_rules, insert_event-Preserves) depth 9

  write-KeysSound :
      (principal key : String) (o : Organization) (now : Time)
      → Keeps KeysSound (write env principal key o now)
  unfolding write
  write-KeysSound principal key o now =
      search
        (
          keeps_rules, insert_organization-Preserves, insert_administrator-Preserves,
          append-KeysSound, complete-KeysSound,
        )
        depth 14

  checked-KeysSound : (r : NewResult) → Keeps KeysSound (checked env r)
  checked-KeysSound (created o) = search keeps_rules
  checked-KeysSound (failed e) = search keeps_rules

  replayed-KeysSound : (o : Option CreateOrganizationResult) → Keeps KeysSound (replayed env o)
  replayed-KeysSound none = search keeps_rules
  replayed-KeysSound (some result) = search keeps_rules

  resume-KeysSound :
      (principal : Principal) (key : String) (command : CreateOrganization) (now : Time)
      (stored : Record)
      → Keeps KeysSound (resume env principal key command now stored)
  unfolding resume
  resume-KeysSound principal key command now stored =
      search (keeps_rules, replayed-KeysSound, checked-KeysSound, write-KeysSound) depth 12

  -- `OrganizationStore.Create` keeps it.
  pub create-KeysSound :
      (store : OrganizationStore) (principal : Principal) (key : String)
      (command : CreateOrganization)
      → Keeps KeysSound (create env store principal key command)
  unfolding create create_in_tx
  create-KeysSound store principal key command =
      search (keeps_rules, begin-KeysSound, resume-KeysSound) depth 14
