-- ===== src/Identity/SiteReader.antt =====
-- internal/identity/adapter/postgres/site_reader.go: one site of the principal's organization, as
-- far as the principal may see it.
pub mod Scope
use skawld_maintenance.Prelude.{
  String, Bool, true, false, ◌&&◌, not, Option, none, some, List, [], ◌∷◌, ◌==◌, any, find,
  is_empty, if◌then◌else◌,
}
use skawld_maintenance.Errors.{Result, Failure, ok, err, sentinel, site_not_found, is_no_rows}
use skawld_maintenance.Identity.Authorization.{Principal, can_access_site}
use skawld_maintenance.Identity.Service.{Site}
use skawld_maintenance.Database.{
  Env, World, Exec, Statement, with_uuid, pure, fail, wrap, query_row, ◌>>=◌,
}
use skawld_maintenance.Database.Schema.{Db, SiteRow}

-- The cast of a text array to uuid[]: it is refused when an element is.
unfoldable pub cast_all : (String → Option String) → List String → Option (List String)
cast_all cast [] = some []
cast_all cast (s ∷ rest) =
    with_uuid (cast s) λ u. with_uuid (cast_all cast rest) λ us. some (u ∷ us)

-- The cast of an array parameter, in which `none` is NULL.
abbrev pub cast_array :
    (String → Option String) → Option (List String) → Option (Option (List String))
cast_array cast none = some none
cast_array cast (some xs) = with_uuid (cast_all cast xs) λ us. some (some us)

-- `cardinality(a) = 0 OR id = ANY(a)`, which is not true when `a` is NULL.
unfoldable pub in_scope : Option (List String) → String → Bool
in_scope none id = false
in_scope (some us) id = if is_empty us then true else any (λ u. u == id) us

-- The WHERE clause, on casted parameters.
abbrev pub is_visible : String → String → Option (List String) → SiteRow → Bool
is_visible id organization_id scope row =
    row.id == id && (row.organization_id == organization_id && in_scope scope row.id)

unfoldable pub select_site : Env → String → Principal → Statement (Option SiteRow)
select_site env site_id principal db = with_uuid (env.cast_uuid site_id) λ id.
    with_uuid (env.cast_uuid principal.organization_id) λ organization_id.
      with_uuid (cast_array env.cast_uuid (env.encode_array principal.site_ids))
        λ scope. some (find (is_visible id organization_id scope) db.sites, db)

-- `Scan` into the result
abbrev pub to_site : SiteRow → Site
to_site row = record {
  id = row.id;
  organization_id = row.organization_id;
  code = row.code;
  name = row.name;
  timezone = row.timezone;
  status = row.status;
}

-- The end of `Get`: what is made of the row or of the error.
unfoldable pub authorized : Principal → Result SiteRow × World → Result Site × World
unfolding pure fail wrap
authorized principal (err e, w) =
    if is_no_rows e then fail (sentinel site_not_found) w else wrap "get authorized site" (fail e) w
authorized principal (ok row, w) =
    if not (can_access_site principal row.organization_id row.id)
    then fail (sentinel site_not_found) w
    else pure (to_site row) w

-- `SiteReader.Get`
unfoldable pub get : Env → Principal → String → Exec Site
unfolding query_row select_site in_scope authorized
get env principal site_id w =
    authorized principal (query_row env (select_site env site_id principal) w)
