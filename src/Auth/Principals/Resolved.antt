-- ===== src/Auth/Principals/Resolved.antt =====
-- Which permissions a resolved principal has.
use skawld_maintenance.Prelude.{
  String, Bool, true, ◌≡◌, sym, ap, ◌∙◌, ◌↔◌, ◌⊎◌, inl, inr, some, List, [], any, select, Memᴰ,
  Bool-cases, eq_iff, ◌==◌, mem_select_iff, Option-cases, some-injective,
}
use mathlib.Core.Path.{subst}
use skawld_maintenance.Identity.Authorization.{
  Principal, Permission, has, permission_organization_create,
}
use skawld_maintenance.Identity.Authorization.Access.{has_iff, any-eq_iff}
use skawld_maintenance.Database.{Env, World, execute}
use skawld_maintenance.Database.Runs.{
  Ran, Ran-bind, Ran-wrap, Ran-execute, Ran-pure, not-Ran-fail, some_inj,
}
use skawld_maintenance.Database.Schema.{Db, MembershipRow}
use skawld_maintenance.Auth.Principals.{
  IdentityClaims, Gathered, gather_all, order_by_time, select_memberships, with_bootstrap,
  principal_of, resolve_principal,
}
use skawld_maintenance.Auth.Principals.Granted.{Grants, put_iff, gather_all_iff, order_iff}

module _ (env : Env) (sort : List String → List String) (bootstrap_subjects : List String) where
  -- A permission that a bootstrap subject has.
  abbrev pub Bootstrapped : String → Permission → Type 0
  Bootstrapped subject q = (q ≡ permission_organization_create) × Memᴰ subject bootstrap_subjects

  bootstrap_iff :
      (subject : String) (permissions : List Permission) (q : Permission)
      → Memᴰ q (with_bootstrap bootstrap_subjects subject permissions)
        ↔ (Memᴰ q permissions ⊎ Bootstrapped subject q)
  bootstrap_iff subject permissions q =
      elim (Bool-cases (any (λ x. x == subject) bootstrap_subjects)) [
        | inl e ↦
            let mem = (any-eq_iff subject bootstrap_subjects).0 e in
            let f = put_iff permission_organization_create permissions q in
            rw e (
              λ m. elim (f.0 m) [ inl same ↦ inr (same, mem) | inr old ↦ inl old ],
              λ h. f.1 (elim h [ inl old ↦ inr old | inr (same, _) ↦ inl same ]),
            )
        | inr e ↦ rw e (
          λ m. inl m,
          λ h. elim h [
            | inl old ↦ old
            | inr (_, mem) ↦ cc (sym e ∙ (any-eq_iff subject bootstrap_subjects).1 mem)
          ],
        )
      ]

  -- What a resolution that returns has read.
  pub record IsResolved (claims : IdentityClaims) (p : Principal) (db : Db) : Type 0 where
    pub id : String
    pub uuid : String
    pub cast : env.cast_uuid id ≡ some uuid
    pub result :
        p
        ≡ principal_of sort bootstrap_subjects id claims (
            gather_all
              (record { organization_id = ""; site_set = []; permissions = [] })
              (order_by_time
                (select (λ (m : MembershipRow). m.principal_id == uuid) db.memberships)))

  selected_rows :
      (id : String) (db db' : Db) (rows : List MembershipRow)
      → select_memberships env id db ≡ some (rows, db')
      → (uuid : String) × (env.cast_uuid id ≡ some uuid)
        × (rows
            ≡ order_by_time
                (select (λ (m : MembershipRow). m.principal_id == uuid) db'.memberships))
  unfolding select_memberships
  selected_rows id db db' rows h = elim (Option-cases (env.cast_uuid id)) [
    | inl bad ↦ cc (rw (bad, select_memberships) at h)
    | inr (uuid, good) ↦
        let (same, kept) = some_inj (rw (good, select_memberships) at h) in
        (
          uuid,
          good,
          sym same
              ∙ ap
                  (λ (d : Db).
                    order_by_time
                      (select (λ (m : MembershipRow). m.principal_id == uuid) d.memberships))
                  kept,
        )
  ]

  abbrev nobody : Gathered
  nobody = record { organization_id = ""; site_set = []; permissions = [] }

  abbrev rows_of : String → Db → List MembershipRow
  rows_of uuid db =
      order_by_time (select (λ (m : MembershipRow). m.principal_id == uuid) db.memberships)

  resolved_lem :
      (claims : IdentityClaims) (p : Principal) (id uuid : String) (rows : List MembershipRow)
      (db db' : Db)
      → env.cast_uuid id ≡ some uuid
      → p ≡ principal_of sort bootstrap_subjects id claims (gather_all nobody rows)
      → rows ≡ rows_of uuid db
      → db ≡ db'
      → IsResolved claims p db'
  resolved_lem claims p id uuid rows db db' cast result made kept = record {
    id = id;
    uuid = uuid;
    cast = cast;
    result =
        result
        ∙ ap (λ rs. principal_of sort bootstrap_subjects id claims (gather_all nobody rs))
            (made ∙ ap (rows_of uuid) kept);
  }

  granted_iff :
      (uuid : String) (db : Db) (q : Permission)
      → Memᴰ q (gather_all nobody (rows_of uuid db)).permissions
        ↔ ((m : MembershipRow) × Memᴰ m db.memberships × (m.principal_id ≡ uuid) × Grants m.role q)
  granted_iff uuid db q =
      let mine : MembershipRow → Bool = λ m. m.principal_id == uuid in
      let f = gather_all_iff (rows_of uuid db) nobody q in
      (
        λ h. elim (f.0 h) [
          | inl m ↦ elim m [ ]
          | inr (m, t, g) ↦
              let (t', own) =
                (mem_select_iff mine db.memberships m).0
                  ((order_iff (select mine db.memberships) m).0 t) in
              (m, t', (eq_iff m.principal_id uuid).0 own, g)
        ],
        λ (m, t, own, g). f.1 (
            inr (
              m,
              (order_iff (select mine db.memberships) m).1 (
                  (mem_select_iff mine db.memberships m).1 (t, (eq_iff m.principal_id uuid).1 own)),
              g,
            )),
      )

  pub Ran-resolve_principal :
      (claims : IdentityClaims) (w : World) (p : Principal) (w' : World)
      → Ran (resolve_principal env sort bootstrap_subjects claims) w p w'
      → IsResolved claims p w'.db
  unfolding resolve_principal
  Ran-resolve_principal claims w p w' ran = elim (Bool-cases (claims.subject == "")) [
    | inl empty ↦ absurd (not-Ran-fail _ p w w' (rw (empty, resolve_principal) at ran))
    | inr named ↦
        let (now, v1, r1, k1) = Ran-bind _ _ w p w' (rw (named, resolve_principal) at ran) in
        let (drawn, v2, r2, k2) = Ran-bind _ _ v1 p w' k1 in
        let (id, v3, r3, k3) = Ran-bind _ _ v2 p w' k2 in
        let (rows, v4, r4, k4) = Ran-bind _ _ v3 p w' k3 in
        let (same, next) = Ran-pure _ p v4 w' k4 in
        let (uuid, cast, made) = selected_rows id v3.db v4.db rows (
          Ran-execute env (select_memberships env id) v3 rows v4 (
            Ran-wrap "load principal memberships" (execute env (select_memberships env id)) v3 rows
              v4 r4)) in
        resolved_lem claims p id uuid rows v4.db w'.db cast (sym same) made
          (ap (λ (v : World). v.db) next)
  ]

  -- A resolved principal whose id is a uuid has a permission exactly if some membership under the
  -- uuid, in whatever
  -- organization, has a role that grants it, or it is the permission to create organizations and the
  -- subject is a bootstrap subject.
  pub resolve_principal-has_iff :
      (claims : IdentityClaims) (w : World) (p : Principal) (w' : World)
      → Ran (resolve_principal env sort bootstrap_subjects claims) w p w'
      → (u : String) → env.cast_uuid p.id ≡ some u
      → (q : Permission)
      → (has p q ≡ true) ↔ (
          ((m : MembershipRow) × Memᴰ m w'.db.memberships × (m.principal_id ≡ u) × Grants m.role q)
          ⊎ Bootstrapped claims.subject q)
  unfolding principal_of
  resolve_principal-has_iff claims w p w' ran u uuid q =
      let r = Ran-resolve_principal claims w p w' ran in
      let same : r.uuid ≡ u =
        some-injective
          (sym r.cast ∙ ap env.cast_uuid (sym (ap (λ (x : Principal). x.id) r.result)) ∙ uuid) in
      let f = has_iff p q in
      let b =
        bootstrap_iff claims.subject (gather_all nobody (rows_of r.uuid w'.db)).permissions q in
      let keys : p.permissions
          ≡ with_bootstrap bootstrap_subjects claims.subject
              (gather_all nobody (rows_of r.uuid w'.db)).permissions =
        ap (λ (x : Principal). x.permissions) r.result in
      let g = granted_iff r.uuid w'.db q in
      (
        λ h. elim (b.0 (subst (Memᴰ q) keys (f.0 h))) [
          | inl m ↦ let (x, t, own, grant) = g.0 m in inl (x, t, own ∙ same, grant)
          | inr boot ↦ inr boot
        ],
        λ h. f.1 (
            subst (Memᴰ q) (sym keys) (
              b.1 (elim h [
                | inl (x, t, own, grant) ↦ inl (g.1 (x, t, own ∙ sym same, grant))
                | inr boot ↦ inr boot
              ]))),
      )
