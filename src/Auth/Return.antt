-- ===== src/Auth/Return.antt =====
-- internal/platform/auth/oidc.go: where a login returns to.
use skawld_maintenance.Prelude.{
  String, Bool, true, false, ◌||◌, not, ◌≡◌, ◌⊎◌, inl, inr, refl, ◌==◌, Option, none, some, arith,
  eq_iff, Bool-cases, if◌then◌else◌,
}
use skawld_maintenance.Prelude.Text.{has_prefix}

-- What the program reads of a parsed URL: `IsAbs`, `Host`, `Path` and `RequestURI`.
pub record ParsedUrl : Type 0 where
  pub is_abs : Bool
  pub host : String
  pub path : String
  pub request_uri : String

-- The test of `safeReturnTo` on a URL that parsed.
abbrev pub is_foreign : ParsedUrl → Bool
is_foreign u =
    u.is_abs || not (u.host == "") || not (has_prefix "/" u.path) || has_prefix "//" u.path

abbrev pub return_target : Option ParsedUrl → String
return_target none = "/"
return_target (some u) = if is_foreign u then "/" else u.request_uri

module _ (parse_url : String → Option ParsedUrl) where
  -- `safeReturnTo`; `none` is an error of url.Parse.
  unfoldable pub safe_return_to : String → String
  safe_return_to raw = if raw == "" then "/" else return_target (parse_url raw)

  -- A local target: the root, or the request URI of a URL with neither scheme nor host, whose path
  -- is absolute and does not start with two slashes.
  pub record IsRelative (target : String) (u : ParsedUrl) : Type 0 where
    pub raw : String
    pub parsed : parse_url raw ≡ some u
    pub no_scheme : u.is_abs ≡ false
    pub no_host : u.host ≡ ""
    pub absolute : has_prefix "/" u.path ≡ true
    pub one_slash : has_prefix "//" u.path ≡ false
    pub same : target ≡ u.request_uri

  abbrev pub IsLocal : String → Type 0
  IsLocal target = (target ≡ "/") ⊎ ((u : ParsedUrl) × IsRelative target u)

  return_target-IsLocal :
      (raw : String) (o : Option ParsedUrl) → parse_url raw ≡ o → IsLocal (return_target o)
  return_target-IsLocal raw none e = inl refl
  return_target-IsLocal raw (some u) e = elim (Bool-cases (is_foreign u)) [
    | inl foreign ↦ inl (rw foreign refl)
    | inr local ↦ inr (
      u,
      record {
        raw = raw;
        parsed = e;
        no_scheme = ground arith;
        no_host = ground (arith, eq_iff u.host "");
        absolute = ground arith;
        one_slash = ground arith;
        same = rw local refl;
      },
    )
  ]

  -- Whatever a login asks to return to, the target is local.
  pub safe_return_to-IsLocal : (raw : String) → IsLocal (safe_return_to raw)
  unfolding safe_return_to
  safe_return_to-IsLocal raw = elim (Bool-cases (raw == "")) [
    | inl e ↦ inl (rw e refl)
    | inr e ↦ rw e (return_target-IsLocal raw (parse_url raw) refl)
  ]
