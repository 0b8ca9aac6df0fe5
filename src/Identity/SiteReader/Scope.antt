-- ===== src/Identity/SiteReader/Scope.antt =====
-- A site that is returned is one that the principal may see, and the other way around.
use skawld_maintenance.Prelude.{
  String, true, ◌&&◌, ◌≡◌, refl, sym, ap, ◌∙◌, ◌≢◌, ◌⊎◌, inl, inr, Option, none, some, List, [],
  ◌∷◌, ◌==◌, find, Memᴰ, arith, eq_iff, Bool-cases, find_sound, find-and, and_iff,
}
use mathlib.Core.Path.{subst}
use skawld_maintenance.Errors.{Result, ok, err, sentinel, site_not_found, is_no_rows}
use skawld_maintenance.Identity.Authorization.{Principal, can_access_site, elements}
use skawld_maintenance.Identity.Authorization.Access.{MayAccess, can_access_site_iff, any-eq_iff}
use skawld_maintenance.Identity.Service.{Site}
use skawld_maintenance.Database.{Env, World, answered, with_uuid, tick, query_row}
use skawld_maintenance.Database.Runs.{Ran, Gives, Ran-query_row, answer_query_row, some_inj, ok_inj}
use skawld_maintenance.Database.Schema.{Db, SiteRow}
use skawld_maintenance.Identity.SiteReader.{
  cast_all, cast_array, in_scope, is_visible, select_site, to_site, authorized, get,
}

module _ (env : Env) (principal : Principal) (site_id : String) where
  -- The row that a returned site is made from.
  pub record IsFound (db : Db) (result : Site) : Type 0 where
    pub row : SiteRow
    pub mem : Memᴰ row db.sites
    pub named : env.cast_uuid site_id ≡ some row.id
    pub made : result ≡ to_site row
    pub allowed : MayAccess principal row.organization_id row.id

  authorized_lem :
      (r : Result SiteRow) (v : World) (site : Site) (w' : World)
      → Gives (authorized principal (r, v)) site w'
      → (row : SiteRow) × (r ≡ ok row)
        × (site ≡ to_site row)
        × (can_access_site principal row.organization_id row.id ≡ true)
        × (v ≡ w')
  unfolding authorized
  authorized_lem (err e) v site w' h = elim (Bool-cases (is_no_rows e)) [
    | inl granted ↦ cc (ap (λ (x : Result Site × World). x.0) (rw (granted, authorized) at h))
    | inr denied ↦ cc (ap (λ (x : Result Site × World). x.0) (rw (denied, authorized) at h))
  ]
  authorized_lem (ok row) v site w' h =
      elim (Bool-cases (can_access_site principal row.organization_id row.id)) [
        | inl granted ↦
            let (same, next) = ok_inj (rw (granted, authorized) at h) in
            (row, refl, sym same, granted, next)
        | inr denied ↦ cc (ap (λ (x : Result Site × World). x.0) (rw (denied, authorized) at h))
      ]

  -- What the statement selects is in the table, under the id that was asked for.
  selected_at :
      (i o : Option String) (sc : Option (Option (List String))) (db db' : Db) (row : SiteRow)
      → (with_uuid {A = Option SiteRow × Db} i λ id. with_uuid o λ organization.
          with_uuid sc λ scope. some (find (is_visible id organization scope) db.sites, db))
        ≡ some (some row, db')
      → Memᴰ row db.sites × (i ≡ some row.id) × (db ≡ db')
  selected_at none o sc db db' row h = cc h
  selected_at (some id) none sc db db' row h = cc h
  selected_at (some id) (some organization) none db db' row h = cc h
  selected_at (some id) (some organization) (some scope) db db' row h =
      let (found, same) = some_inj h in
      let (m, t) = find_sound (is_visible id organization scope) db.sites found in
      (m, ap some (sym ((eq_iff row.id id).0 ((and_iff (row.id == id) _).0 t).0)), same)

  selected_lem :
      (db db' : Db) (row : SiteRow)
      → select_site env site_id principal db ≡ some (some row, db')
      → Memᴰ row db.sites × (env.cast_uuid site_id ≡ some row.id) × (db ≡ db')
  unfolding select_site
  selected_lem db db' row h =
      selected_at (env.cast_uuid site_id) (env.cast_uuid principal.organization_id)
        (cast_array env.cast_uuid (env.encode_array principal.site_ids)) db db' row h

  -- A site that is returned is the one that was asked for, is in the table, and is one that the
  -- principal may access; no table is changed.
  pub get_safe :
      (w : World) (site : Site) (w' : World)
      → Ran (get env principal site_id) w site w'
      → IsFound w.db site × (w'.db ≡ w.db)
  unfolding get
  get_safe w site w' ran =
      let (row, good, made, allowed, next) = authorized_lem _ _ site w' ran in
      let query : Ran (query_row env (select_site env site_id principal)) w row w' =
        λ i. (good i, next i) in
      let (m, named, same) =
        selected_lem w.db w'.db row
          (Ran-query_row env (select_site env site_id principal) w row w' query) in
      (
        record {
          row = row;
          mem = m;
          named = named;
          made = made;
          allowed = (can_access_site_iff principal row.organization_id row.id).0 allowed;
        },
        sym same,
      )

  none_visible : (i o : String) (xs : List SiteRow) → find (is_visible i o none) xs ≡ none
  unfolding in_scope
  none_visible i o [] = refl
  none_visible i o (row ∷ xs) = ground (arith, none_visible i o xs)

  scope_of_mem :
      (xs : List String) (s : String) → (xs ≡ []) ⊎ Memᴰ s xs → in_scope (some xs) s ≡ true
  unfolding in_scope
  scope_of_mem [] s h = refl
  scope_of_mem (x ∷ xs) s (inl e) = cc e
  scope_of_mem (x ∷ xs) s (inr m) = (any-eq_iff s (x ∷ xs)).1 m

  module _ {id organization : String} (w : World) (answers : env.fate w.calls ≡ answered)
      (id_eq : env.cast_uuid site_id ≡ some id)
      (organization_eq : env.cast_uuid principal.organization_id ≡ some organization) where
    -- Where pgx sends a nil slice as NULL, the server answers and both ids are uuids, a principal of
    -- an organization whose `site_ids` is nil is refused the site, although `CanAccessSite` grants it
    -- each named site of its organization.
    pub nil_scope_denies :
        env.encode_array none ≡ none
        → principal.site_ids ≡ none
        → principal.organization_id ≢ ""
        → (s : String) → s ≢ ""
        → (can_access_site principal principal.organization_id s ≡ true)
          × ((get env principal site_id w).0 ≡ err (sentinel site_not_found))
    unfolding get select_site authorized is_no_rows
    nil_scope_denies encodes nil member s named = (
      (can_access_site_iff principal principal.organization_id s).1 record {
        member = member;
        same_organization = refl;
        named = named;
        in_scope = inl (ap elements nil);
      },
      rw
          (answer_query_row env (select_site env site_id principal) w none w.db answers
            (rw (id_eq, organization_eq, nil, encodes, none_visible, select_site) refl))
          refl,
    )

    -- Where the server answers, the id asked for is a uuid, and the ids of the principal's
    -- organization and scope are uuids in canonical form that are sent as they are, a principal with a
    -- scope gets the first site of the table under the id, if it may access it.
    pub get_finds :
        (xs : List String)
        → principal.site_ids ≡ some xs
        → env.encode_array (some xs) ≡ some xs
        → cast_all env.cast_uuid xs ≡ some xs
        → organization ≡ principal.organization_id
        → (row : SiteRow) → find (λ r. r.id == id) w.db.sites ≡ some row
        → MayAccess principal row.organization_id row.id
        → get env principal site_id w ≡ (ok (to_site row), tick w)
    unfolding get select_site authorized
    get_finds xs scope encodes canonical own row found allowed =
        let inside : in_scope (some xs) row.id ≡ true =
          scope_of_mem xs row.id
            (subst (λ o. (elements o ≡ []) ⊎ Memᴰ row.id (elements o)) scope allowed.in_scope) in
        let mine : (row.organization_id == organization) ≡ true =
          (eq_iff row.organization_id organization).1 (sym allowed.same_organization ∙ sym own) in
        let visible =
          find-and (λ (r : SiteRow). r.id == id)
            (λ r. r.organization_id == organization && in_scope (some xs) r.id) w.db.sites found
            (rw (mine, inside) refl) in
        rw
          (answer_query_row env (select_site env site_id principal) w (some row) w.db answers
            (rw (id_eq, organization_eq, scope, encodes, canonical, visible, select_site) refl))
          (rw ((can_access_site_iff principal row.organization_id row.id).1 allowed) refl)
