-- ===== src/Identity/OrganizationStore/Written.antt =====
-- What a creation that returns has written.
use skawld_maintenance.Prelude.{
  String, ◌≡◌, refl, sym, ap, ◌⊎◌, inl, inr, Bool, true, false, not, ◌||◌, Option, none, some, [],
  ◌∷◌, ◌++◌, arith, any, Option-cases, ◌==◌, if◌then◌else◌,
}
use skawld_maintenance.Identity.Authorization.{Time}
use skawld_maintenance.Database.{Env}
use skawld_maintenance.Database.Runs.{some_inj}
use skawld_maintenance.Database.Schema.{Db, OrganizationRow, MembershipRow, PrincipalRow, AuditRow}
use skawld_maintenance.Audit.{Event, insert_event, audit_row, json_or_null, cast_nullable}
use skawld_maintenance.Identity.Organization.{Organization}
use skawld_maintenance.Identity.OrganizationStore.{
  insert_organization, insert_administrator, organization_row, administrator_row,
}

module _ {ℓ} {A : Type ℓ} where
  -- A statement with a constraint was carried out only if the constraint holds.
  allowed : (b : Bool) {x y : A} → (if b then none else some x) ≡ some y → (b ≡ false) × (x ≡ y)
  allowed true e = cc
  allowed false e = (refl, cc)

-- The three outcomes of an INSERT … ON CONFLICT DO NOTHING with two foreign keys.
unless_conflict :
    (taken has_principal has_organization : Bool) (db db' new : Db)
    → ◌≡◌ {A = Option (Unit {0} × Db)}
        (if taken
          then some (tt, db)
          else if not has_principal || not has_organization
          then none
          else some (tt, new))
        (some (tt, db'))
    → ((taken ≡ true) × (db' ≡ db))
      ⊎ ((has_principal ≡ true) × (has_organization ≡ true) × (db' ≡ new))
unless_conflict true b c db db' new e = inl (refl, sym (some_inj e).1)
unless_conflict false true true db db' new e = inr (refl, refl, sym (some_inj e).1)
unless_conflict false true false db db' new e = cc
unless_conflict false false c db db' new e = cc

module _ (env : Env) where
  -- One more organization.
  pub record Inserted (o : Organization) (db db' : Db) : Type 0 where
    pub id : String
    pub uuid : env.cast_uuid o.id ≡ some id
    pub fresh : any (λ (row : OrganizationRow). row.id == id) db.organizations ≡ false
    pub left : db' ≡ record db { organizations = db.organizations ++ organization_row id o ∷ [] }

  pub inserted :
      (o : Organization) (db db' : Db)
      → insert_organization env o db ≡ some (tt, db')
      → Inserted o db db'
  unfolding insert_organization
  inserted o db db' e = elim (Option-cases (env.cast_uuid o.id)) [
    | inl bad ↦ cc (rw (bad, insert_organization) at e)
    | inr (id, uuid) ↦
        let (pass, left) = allowed _ (rw (uuid, insert_organization) at e) in
        record {
          id = id;
          uuid = uuid;
          fresh = ground (arith, pass);
          left = ap (λ (x : Unit {0} × Db). x.1) (sym left);
        }
  ]

  -- One more administrator, unless a row has the id already.
  pub record Appointed (id' principal_id' organization_id' : String) (now : Time) (db db' : Db)
      : Type 0 where
    pub id : String
    pub principal_id : String
    pub organization_id : String
    pub uuid : env.cast_uuid id' ≡ some id
    pub principal_uuid : env.cast_uuid principal_id' ≡ some principal_id
    pub organization_uuid : env.cast_uuid organization_id' ≡ some organization_id
    pub left :
        ((any (λ (row : MembershipRow). row.id == id) db.memberships ≡ true) × (db' ≡ db))
        ⊎ ((any (λ (row : PrincipalRow). row.id == principal_id) db.principals ≡ true)
            × (any (λ (row : OrganizationRow). row.id == organization_id) db.organizations ≡ true)
            × (db' ≡ record db {
              memberships =
                  db.memberships ++ administrator_row env id principal_id organization_id now ∷ [];
            }))

  pub appointed :
      (id' principal_id' organization_id' : String) (now : Time) (db db' : Db)
      → insert_administrator env id' principal_id' organization_id' now db ≡ some (tt, db')
      → Appointed id' principal_id' organization_id' now db db'
  unfolding insert_administrator
  appointed id' principal_id' organization_id' now db db' e =
      elim (Option-cases (env.cast_uuid id')) [
        | inl bad ↦ cc (rw (bad, insert_administrator) at e)
        | inr (id, u) ↦ elim (Option-cases (env.cast_uuid principal_id')) [
          | inl bad ↦ cc (rw (u, bad, insert_administrator) at e)
          | inr (principal_id, v) ↦ elim (Option-cases (env.cast_uuid organization_id')) [
            | inl bad ↦ cc (rw (u, v, bad, insert_administrator) at e)
            | inr (organization_id, t) ↦ record {
              id = id;
              principal_id = principal_id;
              organization_id = organization_id;
              uuid = u;
              principal_uuid = v;
              organization_uuid = t;
              left = unless_conflict _ _ _ db db' _ (rw (u, v, t, insert_administrator) at e);
            }
          ]
        ]
      ]

  -- One more audit event, with the fields of the event.
  pub record Logged (event : Event) (db db' : Db) : Type 0 where
    pub row : AuditRow
    pub uuid : env.cast_uuid event.id ≡ some row.id
    pub fresh : any (λ (r : AuditRow). r.id == row.id) db.audit_events ≡ false
    pub action : row.action ≡ event.action
    pub entity : (row.entity_kind ≡ event.entity_kind) × (row.entity_id ≡ event.entity_id)
    pub after_value : row.after_value ≡ json_or_null event.after
    pub occurred : row.occurred_at ≡ event.occurred_at
    pub left : db' ≡ record db { audit_events = db.audit_events ++ row ∷ [] }

  Logged-row :
      (event : Event) (id : String) (organization_id site_id actor_id : Option String) (db db' : Db)
      → env.cast_uuid event.id ≡ some id
      → ◌≡◌ {A = Option (Unit {0} × Db)}
          (if any (λ (row : AuditRow). row.id == id) db.audit_events
            then none
            else some (
              tt,
              record db {
                audit_events =
                    db.audit_events ++ audit_row event id organization_id site_id actor_id ∷ [];
              },
            ))
          (some (tt, db'))
      → Logged event db db'
  Logged-row event id organization_id site_id actor_id db db' u e =
      let (pass, left) = allowed _ e in
      record {
        row = audit_row event id organization_id site_id actor_id;
        uuid = u;
        fresh = pass;
        action = refl;
        entity = (refl, refl);
        after_value = refl;
        occurred = refl;
        left = ap (λ (x : Unit {0} × Db). x.1) (sym left);
      }

  pub logged :
      (event : Event) (db db' : Db)
      → insert_event env event db ≡ some (tt, db')
      → Logged event db db'
  unfolding insert_event
  logged event db db' e = elim (Option-cases (env.cast_uuid event.id)) [
    | inl bad ↦ cc (rw (bad, insert_event) at e)
    | inr (id, u) ↦ elim (Option-cases (cast_nullable env event.organization_id)) [
      | inl bad ↦ cc (rw (u, bad, insert_event) at e)
      | inr (o, v) ↦ elim (Option-cases (cast_nullable env event.site_id)) [
        | inl bad ↦ cc (rw (u, v, bad, insert_event) at e)
        | inr (s, t) ↦ elim (Option-cases (cast_nullable env event.actor_id)) [
          | inl bad ↦ cc (rw (u, v, t, bad, insert_event) at e)
          | inr (a, r) ↦ Logged-row event id o s a db db' u (rw (u, v, t, r, insert_event) at e)
        ]
      ]
    ]
  ]
