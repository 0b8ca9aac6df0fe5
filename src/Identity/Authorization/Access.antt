-- ===== src/Identity/Authorization/Access.antt =====
-- Permission lookup and site scopes decide what they say.
use skawld_maintenance.Prelude.{
  String, ◌≡◌, ◌≢◌, ◌↔◌, ◌⊎◌, inl, inr, true, List, [], ◌∷◌, Memᴰ, arith, eq_iff, ◌==◌, any,
  Bool-cases, sym, refl, ◌∙◌, is_empty, if◌then◌else◌,
}
use skawld_maintenance.Identity.Authorization.{
  Principal, Permission, elements, has, lists_site, can_access_site,
}

pub any-eq_iff : (t : String) (xs : List String) → (any (λ q. q == t) xs ≡ true) ↔ Memᴰ t xs
any-eq_iff t xs = (to xs, from xs)
  where
    to : (xs : List String) → any (λ q. q == t) xs ≡ true → Memᴰ t xs
    to [] h = cc
    to (x ∷ xs) h = elim (Bool-cases (x == t)) [
      | inl e ↦ Memᴰ.head (sym ((eq_iff x t).0 e))
      | inr e ↦ Memᴰ.tail (to xs (ground arith))
    ]

    from : (xs : List String) → Memᴰ t xs → any (λ q. q == t) xs ≡ true
    from [] m = elim m [ ]
    from (x ∷ xs) (Memᴰ.head e) = ground (arith, eq_iff x t)
    from (x ∷ xs) (Memᴰ.tail m) = ground (arith, from xs m)

pub lists_site-eq-any : (xs : List String) (t : String) → lists_site xs t ≡ any (λ q. q == t) xs
unfolding lists_site
lists_site-eq-any [] t = refl
lists_site-eq-any (x ∷ xs) t = ground (arith, lists_site-eq-any xs t)

-- A principal has a permission exactly if the permission is a key of its map.
pub has_iff :
    (p : Principal) (permission : Permission)
    → (has p permission ≡ true) ↔ Memᴰ permission p.permissions
unfolding has
has_iff p permission = any-eq_iff permission p.permissions

-- What site access means: the principal's own organization, and one of its sites where it is
-- limited to some.
pub record MayAccess (p : Principal) (organization_id site_id : String) : Type 0 where
  pub member : p.organization_id ≢ ""
  pub same_organization : p.organization_id ≡ organization_id
  pub named : site_id ≢ ""
  pub in_scope : (elements p.site_ids ≡ []) ⊎ Memᴰ site_id (elements p.site_ids)

scope_iff :
    (xs : List String) (t : String)
    → ((if is_empty xs then true else lists_site xs t) ≡ true) ↔ ((xs ≡ []) ⊎ Memᴰ t xs)
scope_iff [] t = (λ _. inl refl, λ _. refl)
scope_iff (x ∷ xs) t = (
  λ h. inr ((any-eq_iff t (x ∷ xs)).0 (sym (lists_site-eq-any (x ∷ xs) t) ∙ h)),
  λ h. lists_site-eq-any (x ∷ xs) t ∙ elim h [ inl e ↦ cc | inr m ↦ (any-eq_iff t (x ∷ xs)).1 m ],
)

-- Site access is granted exactly if the principal may access the site.
pub can_access_site_iff :
    (p : Principal) (organization_id site_id : String)
    → (can_access_site p organization_id site_id ≡ true) ↔ MayAccess p organization_id site_id
unfolding can_access_site
can_access_site_iff p organization_id site_id =
    let scope = scope_iff (elements p.site_ids) site_id in
    (
      λ h. record {
        member = ground (arith, eq_iff p.organization_id "");
        same_organization = ground (arith, eq_iff p.organization_id organization_id);
        named = ground (arith, eq_iff site_id "");
        in_scope = scope.0 (ground arith);
      },
      λ m. ground (
        arith,
        eq_iff p.organization_id "",
        eq_iff p.organization_id organization_id,
        eq_iff site_id "",
        m.member,
        m.same_organization,
        m.named,
        scope.1 m.in_scope,
      ),
    )
