-- ===== src/HttpServer/Access.antt =====
-- What the API answers, and to whom.
use skawld_maintenance.Prelude.{
  String, Bool, true, ◌≡◌, ◌≢◌, refl, sym, ap, ◌∙◌, ◌⊎◌, inl, inr, none, some, List, arith, eq_iff,
  ◌==◌, Bool-cases, Option-cases, some-injective,
}
use skawld_maintenance.Errors.{err, Failure}
use skawld_maintenance.Identity.Authorization.{Principal}
use skawld_maintenance.Identity.Service.{Site, SiteReader}
use skawld_maintenance.Identity.Service
use skawld_maintenance.Identity.SiteReader.{get}
use skawld_maintenance.Identity.SiteReader.Scope.{IsFound, get_safe}
use skawld_maintenance.Database.{Env, World}
use skawld_maintenance.Database.Runs.{Ran, not-Ran-fail}
use skawld_maintenance.Http.{Request, Response, attempt, attempt_cases, attempt_status, reply, site}
use skawld_maintenance.HttpServer.{
  Context, Dependencies, principal_from_context, with_principal, write_problem, write_json,
  set_header, site_failed, get_site, security_headers,
}
use skawld_maintenance.HttpServer.Routes.{
  api, ApiRoute, routes, api_routes, Libraries, serve_mounted, serve_api, new,
}
use skawld_maintenance.Auth.Oidc.{Provider, Service}
use skawld_maintenance.Auth.Login.{authenticated}
use skawld_maintenance.Auth.Middleware.{unauthorized, middleware, authenticator}

-- The four headers that every answer carries.
abbrev secured : Response × World → Response × World
secured (answer, w) = (
  set_header "X-Content-Type-Options" "nosniff" (
      set_header "X-Frame-Options" "DENY" (
        set_header "Referrer-Policy" "no-referrer" (
          set_header "Content-Security-Policy" "default-src 'none'; frame-ancestors 'none'"
            answer))),
  w,
)

site_failed-not-200 : (e : Failure) → (site_failed e).status ≢ 200
unfolding site_failed write_problem
site_failed-not-200 e h = ground arith

differs : {x y : Response × World} → x ≡ y → y.0.status ≢ 200 → x.0.status ≢ 200
differs e other h = other (ap (λ (x : Response × World). x.0.status) (sym e) ∙ h)

module _ (reader : SiteReader) (is_uuid : String → Bool) (c : Context) (r : Request)
    (w : World) where
  service_get_lem :
      (p : Principal) (id : String) (x : Site) (w' : World)
      → Ran (Service.get_site (some reader) p id) w x w'
      → (p.organization_id ≢ "") × Ran (reader p id) w x w'
  unfolding Service.get_site
  service_get_lem p id x w' ran = elim (Bool-cases (p.organization_id == "")) [
    | inl nobody ↦ absurd (not-Ran-fail _ x w w' (rw (nobody, Service.get_site) at ran))
    | inr member ↦ (
      λ e. cc (sym member ∙ (eq_iff p.organization_id "").1 e),
      rw (member, Service.get_site) at ran,
    )
  ]

  -- A site is answered to a principal of an organization, and comes from the reader.
  get_site_lem :
      (get_site is_uuid (some reader) c r w).0.status ≡ 200
      → (p : Principal) × (x : Site) × (w' : World) × (principal_from_context c ≡ some p)
        × (is_uuid (c.url_param "siteID") ≡ true)
        × (p.organization_id ≢ "")
        × Ran (reader p (c.url_param "siteID")) w x w'
        × (get_site is_uuid (some reader) c r w ≡ (write_json 200 (site x), w'))
  unfolding get_site write_problem
  get_site_lem h = elim (Option-cases (principal_from_context c)) [
    | inl missing ↦
        let a : get_site is_uuid (some reader) c r w
            ≡ (write_problem 401 "Unauthorized" "principal is missing", w) =
          rw (missing, get_site) refl in
        absurd (differs a (omega arith) h)
    | inr (p, known) ↦ elim (Bool-cases (is_uuid (c.url_param "siteID"))) [
      | inr bad ↦
          let a : get_site is_uuid (some reader) c r w
              ≡ (write_problem 400 "Invalid Request" "site ID must be a UUID", w) =
            rw (known, bad, get_site) refl in
          absurd (differs a (omega arith) h)
      | inl good ↦
          let m = Service.get_site (some reader) p (c.url_param "siteID") in
          let a : get_site is_uuid (some reader) c r w
              ≡ attempt m (λ e. reply (site_failed e)) (λ x. reply (write_json 200 (site x))) w =
            rw (known, good, get_site) refl in
          let (x, w', ran, b) =
            attempt_status m (λ e. reply (site_failed e)) (λ x. reply (write_json 200 (site x))) w
              200 (λ e v. site_failed-not-200 e)
              (ap (λ (x : Response × World). x.0.status) (sym a) ∙ h) in
          let (member, read) = service_get_lem p (c.url_param "siteID") x w' ran in
          (p, x, w', known, good, member, read, a ∙ b)
    ]
  ]

module _ (env : Env) (sort : List String → List String) {Token : Type 0} (provider : Provider Token)
    (s : Service) (l : Libraries) (d : Dependencies)
    (own : d.auth ≡ authenticator env sort provider s) (r : Request)
    (routed : l.router.find routes r ≡ some api) (w : World) where
  abbrev served : Principal → World → Response × World
  served p =
      serve_mounted env l d (l.router.find_mounted api_routes r)
        (with_principal record { principal = none; url_param = λ s. "" } p) r

  -- A request that chi leads to the API either is answered 401, with the world as a failed
  -- authentication left it, or is served by the route that chi finds for it, or as one that has none,
  -- for the principal that was authenticated, with the headers for security on the answer.
  pub api_cases :
      ((e : Failure) × (v : World) × (authenticated env sort provider s r w ≡ (err e, v))
        × (new env l d r w ≡ secured (unauthorized, v)))
      ⊎ ((p : Principal) × (v : World) × Ran (authenticated env sort provider s r) w p v
          × (new env l d r w ≡ secured (served p v)))
  unfolding new serve_api security_headers middleware
  api_cases =
      let m = authenticated env sort provider s r in
      let a : new env l d r w ≡ secured (attempt m (λ _. reply unauthorized) served w) =
        rw (routed, own) refl in
      elim (attempt_cases m (λ _. reply unauthorized) served w) [
        | inr (e, v, failed, answer) ↦ inl (e, v, failed, a ∙ ap secured answer)
        | inl (p, v, ran, answer) ↦ inr (p, v, ran, a ∙ ap secured answer)
      ]

  module _ (reads : d.sites ≡ some (get env)) (params : String → String)
      (found : l.router.find_mounted api_routes r ≡ some (ApiRoute.site, params)) where
    -- What an answer with a site comes from: the principal that the request authenticated, which belongs
    -- to an organization, and a site of the table under the id in the path that this principal may
    -- access.
    pub record IsSiteAnswer (x : Response × World) : Type 0 where
      pub principal : Principal
      pub v : World
      pub authentic : Ran (authenticated env sort provider s r) w principal v
      pub known : principal.id ≢ ""
      pub member : principal.organization_id ≢ ""
      pub uuid : l.is_uuid (params "siteID") ≡ true
      pub result : Site
      pub visible : IsFound env principal (params "siteID") v.db result
      pub answer : x.0 ≡ (secured (write_json 200 (site result), v)).0
      pub kept : x.1.db ≡ v.db

    given_lem :
        (p q : Principal)
        → principal_from_context (with_principal record { principal = none; url_param = params } p)
          ≡ some q
        → (p ≡ q) × (p.id ≢ "")
    unfolding principal_from_context with_principal
    given_lem p q h = elim (Bool-cases (p.id == "")) [
      | inl nobody ↦ cc (rw (nobody, principal_from_context, with_principal) at h)
      | inr named ↦ (
        some-injective (rw (named, principal_from_context, with_principal) at h),
        λ e. cc (sym named ∙ (eq_iff p.id "").1 e),
      )
    ]

    -- A request that chi leads to the site handler and that is answered 200 has authenticated, as a
    -- principal with an id and an organization, the id in its path is a uuid, and the body is the site
    -- of the table under that id, which the principal may access; the tables are as the authentication
    -- left them.
    pub site_visible : (new env l d r w).0.status ≡ 200 → IsSiteAnswer (new env l d r w)
    unfolding with_principal
    site_visible h = elim api_cases [
      | inl (e, v, failed, answer) ↦ absurd (differs answer (omega arith) h)
      | inr (p, v, ran, answer) ↦
          let c : Context = record { principal = some p; url_param = params } in
          let b : served p v ≡ get_site l.is_uuid (some (get env)) c r v = rw (found, reads) refl in
          let all = answer ∙ ap secured b in
          let (q, x, w', known, uuid, member, read, e) =
            get_site_lem (get env) l.is_uuid c r v
              (ap (λ (x : Response × World). x.0.status) (sym all) ∙ h) in
          let (same, named) = given_lem p q known in
          let (visible, kept) = get_safe env q (params "siteID") v x w' read in
          record {
            principal = q;
            v = v;
            authentic = rw (← same) ran;
            known = rw (← same) named;
            member = member;
            uuid = uuid;
            result = x;
            visible = visible;
            answer = ap (λ (x : Response × World). x.0) (all ∙ ap secured e);
            kept = ap (λ (x : Response × World). x.1.db) (all ∙ ap secured e) ∙ kept;
          }
    ]
