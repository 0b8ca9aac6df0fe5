-- ===== src/Identity/OrganizationStore/Writes.antt =====
-- The writes of a creation together: what the tables hold after a transaction body that returned.
use skawld_maintenance.Prelude.{
  ℕ, ◌+◌, arith, String, ◌≡◌, refl, sym, ap, ◌∙◌, ◌⊎◌, inl, inr, true, false, some, List, [], ◌∷◌,
  ◌++◌, any, ◌==◌, nat_eq,
}
use mathlib.Core.Path.{subst}
use mathlib.Core.Option.{some-injective}
use skawld_maintenance.Identity.Authorization.{Time}
use skawld_maintenance.Json.{Json}
use skawld_maintenance.Database.{Env, World}
use skawld_maintenance.Database.Runs.{
  Ran, Ran-bind, Ran-wrap, Ran-execute, Ran-pure, Ran-draw_id, Ran-draw_id_calls, Ran-execute_calls,
}
use skawld_maintenance.Database.Schema.{Db, OrganizationRow, MembershipRow, AuditRow}
use skawld_maintenance.Audit.{append}
use skawld_maintenance.Idempotency.Completion.{with_response, affected}
use skawld_maintenance.Idempotency.Runs.{Ran-complete}
use skawld_maintenance.Identity.Organization.{Organization}
use skawld_maintenance.Identity.Service.{Created, encode_result}
use skawld_maintenance.Identity.OrganizationStore.{
  create_organization_scope, organization_row, administrator_row, created_event, to_result, write,
}
use skawld_maintenance.Identity.OrganizationStore.Written.{
  Inserted, inserted, Appointed, appointed, Logged, logged,
}

-- The tables that a creation never writes.
pub record SameOthers (db db' : Db) : Type 0 where
  pub sites : db'.sites ≡ db.sites
  pub principals : db'.principals ≡ db.principals
  pub auth_flows : db'.auth_flows ≡ db.auth_flows
  pub web_sessions : db'.web_sessions ≡ db.web_sessions

module _ (env : Env) (principal_id key : String) {p : String}
    (uuid : env.cast_uuid principal_id ≡ some p) (o : Organization) (now : Time) where
  abbrev response : Json
  response = encode_result (to_result env o)

  abbrev pub finished : Db → Db
  finished = with_response env principal_id create_organization_scope key uuid 201 response now

  -- One organization, its administrator, one audit event and the response, and nothing else. The
  -- membership and the event have the ids that were drawn second and third after the n-th call; a
  -- membership that has the id already is left, and none is written then.
  pub record Wrote (n : ℕ) (db db' : Db) : Type 0 where
    pub org_id : String
    pub org_uuid : env.cast_uuid o.id ≡ some org_id
    pub org_fresh : any (λ (row : OrganizationRow). row.id == org_id) db.organizations ≡ false
    pub organizations : db'.organizations ≡ db.organizations ++ organization_row org_id o ∷ []
    pub membership_id : String
    pub membership_drawn : env.cast_uuid (env.ids (n + 1)) ≡ some membership_id
    pub memberships :
        ((any (λ (row : MembershipRow). row.id == membership_id) db.memberships ≡ true)
          × (db'.memberships ≡ db.memberships))
        ⊎ (db'.memberships
            ≡ db.memberships ++ administrator_row env membership_id p org_id now ∷ [])
    pub event : AuditRow
    pub event_drawn : env.cast_uuid (env.ids (n + 3)) ≡ some event.id
    pub audit_events : db'.audit_events ≡ db.audit_events ++ event ∷ []
    pub event_action : event.action ≡ "organization.created"
    pub event_entity : event.entity_id ≡ o.id
    pub event_after : event.after_value ≡ response
    pub keys : db'.idempotency_keys ≡ (finished db).idempotency_keys
    pub was_pending :
        nat_eq (affected env principal_id create_organization_scope key uuid 201 response now db) 1
        ≡ true
    pub others : SameOthers db db'

  module _ (db db1 db2 db3 db4 : Db) (n : ℕ) (membership_id event_id : String)
      (membership_drawn : membership_id ≡ env.ids (n + 1))
      (event_drawn : event_id ≡ env.ids (n + 3)) (i : Inserted env o db db1)
      (a : Appointed env membership_id principal_id o.id now db1 db2)
      (l : Logged env (created_event env event_id principal_id o response now) db2 db3)
      (c : db4 ≡ finished db3)
      (pending : nat_eq
          (affected env principal_id create_organization_scope key uuid 201 response now db3)
          1
        ≡ true) where
    -- Only the memberships change in the second step.
    second : db2 ≡ record db1 { memberships = db2.memberships }
    second = elim a.left [ inl (_, e) ↦ rw e refl | inr (_, _, e) ↦ rw e refl ]

    -- A table that no step but those named writes.
    untouched {ℓ} :
        {X : Type ℓ} (f : Db → X)
        → f db1 ≡ f db
        → f (record db1 { memberships = db2.memberships }) ≡ f db1
        → f (record db2 { audit_events = db2.audit_events ++ l.row ∷ [] }) ≡ f db2
        → f db3 ≡ f db
    untouched f e1 e2 e3 = ap f l.left ∙ e3 ∙ ap f second ∙ e2 ∙ e1

    same_keys : db3.idempotency_keys ≡ db.idempotency_keys
    same_keys =
        untouched (λ d. d.idempotency_keys) (ap (λ (d : Db). d.idempotency_keys) i.left) refl refl

    same_others : SameOthers db db4
    same_others = record {
      sites =
          ap (λ (d : Db). d.sites) c
          ∙ untouched (λ d. d.sites) (ap (λ (d : Db). d.sites) i.left) refl refl;
      principals =
          ap (λ (d : Db). d.principals) c
          ∙ untouched (λ d. d.principals) (ap (λ (d : Db). d.principals) i.left) refl refl;
      auth_flows =
          ap (λ (d : Db). d.auth_flows) c
          ∙ untouched (λ d. d.auth_flows) (ap (λ (d : Db). d.auth_flows) i.left) refl refl;
      web_sessions =
          ap (λ (d : Db). d.web_sessions) c
          ∙ untouched (λ d. d.web_sessions) (ap (λ (d : Db). d.web_sessions) i.left) refl refl;
    }

    same_members : db4.memberships ≡ db2.memberships
    same_members = ap (λ (d : Db). d.memberships) c ∙ ap (λ (d : Db). d.memberships) l.left

    first_members : db1.memberships ≡ db.memberships
    first_members = ap (λ (d : Db). d.memberships) i.left

    members :
        ((any (λ (row : MembershipRow). row.id == a.id) db.memberships ≡ true)
          × (db4.memberships ≡ db.memberships))
        ⊎ (db4.memberships ≡ db.memberships ++ administrator_row env a.id p i.id now ∷ [])
    members = elim a.left [
      | inl (taken, e) ↦ inl (
        rw (← first_members) taken,
        same_members ∙ ap (λ (d : Db). d.memberships) e ∙ first_members,
      )
      | inr (_, _, e) ↦ inr (
          same_members ∙ ap (λ (d : Db). d.memberships) e ∙ λ j.
          first_members j
          ++ administrator_row env a.id (some-injective _ _ (sym a.principal_uuid ∙ uuid) j)
              (some-injective _ _ (sym a.organization_uuid ∙ i.uuid) j) now
            ∷ [])
    ]

    assemble : Wrote n db db4
    assemble = record {
      org_id = i.id;
      org_uuid = i.uuid;
      org_fresh = i.fresh;
      organizations =
          ap (λ (d : Db). d.organizations) c
          ∙ ap (λ (d : Db). d.organizations) l.left
          ∙ ap (λ (d : Db). d.organizations) second
          ∙ ap (λ (d : Db). d.organizations) i.left;
      membership_id = a.id;
      membership_drawn = ap env.cast_uuid (sym membership_drawn) ∙ a.uuid;
      memberships = members;
      event = l.row;
      event_drawn = ap env.cast_uuid (sym event_drawn) ∙ l.uuid;
      audit_events =
          ap (λ (d : Db). d.audit_events) c
          ∙ ap (λ (d : Db). d.audit_events) l.left
          ∙ ap (λ (rows : List AuditRow). rows ++ l.row ∷ [])
              (ap (λ (d : Db). d.audit_events) second ∙ ap (λ (d : Db). d.audit_events) i.left);
      event_action = l.action;
      event_entity = l.entity.1;
      event_after = l.after_value;
      keys =
          ap (λ (d : Db). d.idempotency_keys) c
          ∙ ap (λ ks. (finished (record db { idempotency_keys = ks })).idempotency_keys) same_keys;
      was_pending =
          ap
            (λ ks.
              nat_eq
                (affected env principal_id create_organization_scope key uuid 201 response now
                  (record db { idempotency_keys = ks }))
                1)
            (sym same_keys)
          ∙ pending;
      others = same_others;
    }

  -- The writes of a body that returned.
  pub Ran-write :
      (w w' : World) (r : Created)
      → Ran (write env principal_id key o now) w r w'
      → (r ≡ (to_result env o, false)) × Wrote w.calls w.db w'.db
  unfolding write append
  Ran-write w w' r ran =
      let (u1, v1, r1, k1) = Ran-bind _ _ w r w' ran in
      let (membership_id, v2, r2, k2) = Ran-bind _ _ v1 r w' k1 in
      let (u3, v3, r3, k3) = Ran-bind _ _ v2 r w' k2 in
      let (event_id, v4, r4, k4) = Ran-bind _ _ v3 r w' k3 in
      let (u5, v5, r5, k5) = Ran-bind _ _ v4 r w' k4 in
      let (u6, v6, r6, k6) = Ran-bind _ _ v5 r w' k5 in
      let (same, last) = Ran-pure _ r v6 w' k6 in
      let c1 = Ran-execute_calls env _ w u1 v1 (Ran-wrap _ _ w u1 v1 r1) in
      let (m, c2) = Ran-draw_id_calls env v1 membership_id v2 r2 in
      let c3 = Ran-execute_calls env _ v2 u3 v3 (Ran-wrap _ _ v2 u3 v3 r3) in
      let (e, _) = Ran-draw_id_calls env v3 event_id v4 r4 in
      let third : v3.calls ≡ w.calls + 3 =
        c3 ∙ (let two = c2 ∙ ap (λ n. n + 1) c1 in ap (λ n. n + 1) two ∙ omega arith) in
      let (left, pending) =
        Ran-complete env principal_id create_organization_scope key uuid 201 response now v5 v6
          r6 in
      (
        sym same,
        subst (λ d. Wrote w.calls w.db d) (ap (λ (v : World). v.db) last)
            (assemble w.db v1.db v3.db v5.db v6.db w.calls membership_id event_id
              (m ∙ ap env.ids c1) (e ∙ ap env.ids third)
              (inserted env o w.db v1.db (Ran-execute env _ w u1 v1 (Ran-wrap _ _ w u1 v1 r1)))
              (subst (λ d. Appointed env membership_id principal_id o.id now d v3.db)
                (Ran-draw_id env v1 membership_id v2 r2)
                (appointed env membership_id principal_id o.id now v2.db v3.db
                  (Ran-execute env _ v2 u3 v3 (Ran-wrap _ _ v2 u3 v3 r3))))
              (subst
                (λ d. Logged env (created_event env event_id principal_id o response now) d v5.db)
                (Ran-draw_id env v3 event_id v4 r4)
                (logged env (created_event env event_id principal_id o response now) v4.db v5.db
                  (Ran-execute env _ v4 u5 v5 (Ran-wrap _ _ v4 u5 v5 r5))))
              left pending),
      )
