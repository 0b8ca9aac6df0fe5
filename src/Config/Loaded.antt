-- ===== src/Config/Loaded.antt =====
-- `Load`: which environments it accepts, and what it reads from a list of subjects.
use skawld_maintenance.Prelude.{
  String, ◌≡◌, refl, sym, ◌≢◌, ◌↔◌, inl, inr, Option, none, some, List, [], ◌∷◌, ◌++◌, ◌==◌, arith,
  eq_iff, Bool-cases, some-injective, Memᴰ,
}
use skawld_maintenance.Prelude.Text.{trim_space, IsTrimmed, trim_space-IsTrimmed}
use skawld_maintenance.Config.Settings.{Os}
use skawld_maintenance.Config.Checks.{validate}
use skawld_maintenance.Config.Load.{
  loaded, load, getenv, check_parses, parse_error, text_error, check_all_parse, int_names,
  duration_names, validate_environment_values, env_csv, trimmed_items,
}
use mathlib.Core.Path.{subst}
use skawld_maintenance.Config.Valid.{append-nil_iff}
use skawld_maintenance.Config.Accepted.{IsValid, Visits, config_validate_iff}

module _ (os : Os) where
  -- If a variable is set, its text parses.
  abbrev pub Parses : {A : Type 0} → (String → Option A) → String → Type 0
  Parses {A} parse name =
      (raw : String) → os.lookup_env name ≡ some raw → (v : A) × (parse raw ≡ some v)

  module _ {A : Type 0} (parse : String → Option A) where
    parse_error_iff :
        (name : String) (o : Option A) → (parse_error name o ≡ []) ↔ ((v : A) × (o ≡ some v))
    parse_error_iff name none = (λ h. cc h, λ (v, e). cc e)
    parse_error_iff name (some v) = (λ h. (v, refl), λ h. refl)

    text_error_iff :
        (name : String) (o : Option String)
        → (text_error parse name o ≡ [])
          ↔ ((raw : String) → o ≡ some raw → (v : A) × (parse raw ≡ some v))
    text_error_iff name none = (λ h raw e. cc e, λ h. refl)
    text_error_iff name (some raw) =
        let f = parse_error_iff name (parse raw) in
        (
          λ h raw' e. subst (λ x. (v : A) × (parse x ≡ some v)) (some-injective e) (f.0 h),
          λ h. f.1 (h raw refl),
        )

    check_all_parse_iff :
        (names : List String)
        → (check_all_parse os parse names ≡ [])
          ↔ ((name : String) → Memᴰ name names → Parses parse name)
    unfolding check_all_parse
    check_all_parse_iff [] = (λ h name m. elim m [ ], λ h. refl)
    check_all_parse_iff (n ∷ names) =
        let f = append-nil_iff (check_parses os parse n) (check_all_parse os parse names) in
        let g = text_error_iff n (os.lookup_env n) in
        let k = check_all_parse_iff names in
        (
          λ h name m. elim m [
            | Memᴰ.head e ↦ subst (Parses parse) (sym e) (g.0 (f.0 h).0)
            | Memᴰ.tail t ↦ k.0 (f.0 h).1 name t
          ],
          λ h. f.1 (g.1 (h n (Memᴰ.head refl)), k.1 (λ name m. h name (Memᴰ.tail m))),
        )

  -- Every variable that must be a number, a duration or a Boolean is one where it is set.
  pub record IsWellFormed : Type 0 where
    pub ints : (name : String) → Memᴰ name int_names → Parses os.atoi name
    pub durations : (name : String) → Memᴰ name duration_names → Parses os.parse_duration name
    pub secure : Parses os.parse_bool "SESSION_COOKIE_SECURE"

  -- Where `range` visits the entries of a map, `Load` reports no error when the configuration that it read is valid and every number, duration
  -- and Boolean that is set parses; and only then.
  pub load_iff :
      (role : String)
      → Visits os.range
      → ((load os role).1 ≡ []) ↔ (IsValid os (load os role).0 × IsWellFormed)
  unfolding load validate_environment_values
  load_iff role visits =
      let ints = check_all_parse os os.atoi int_names in
      let durations = check_all_parse os os.parse_duration duration_names in
      let secure = check_parses os os.parse_bool "SESSION_COOKIE_SECURE" in
      let f = append-nil_iff (validate os (loaded os role)) (ints ++ durations ++ secure) in
      let g = append-nil_iff (ints ++ durations) secure in
      let k = append-nil_iff ints durations in
      let i = check_all_parse_iff os.atoi int_names in
      let d = check_all_parse_iff os.parse_duration duration_names in
      let s =
        text_error_iff os.parse_bool "SESSION_COOKIE_SECURE"
          (os.lookup_env "SESSION_COOKIE_SECURE") in
      let v = config_validate_iff os visits (loaded os role) in
      (
        λ h.
            let (x, y) = f.0 h in
            let (p, q) = g.0 y in
            let (a, b) = k.0 p in
            (v.0 x, record { ints = i.0 a; durations = d.0 b; secure = s.0 q }),
        λ (x, w). f.1 (v.1 x, g.1 (k.1 (i.1 w.ints, d.1 w.durations), s.1 w.secure)),
      )

  items_lem : (xs : List String) (s : String) → Memᴰ s (trimmed_items xs) → IsTrimmed s × (s ≢ "")
  unfolding trimmed_items
  items_lem [] s m = elim m [ ]
  items_lem (item ∷ rest) s m = elim (Bool-cases (trim_space item == "")) [
    | inl blank ↦ items_lem rest s (rw blank at m)
    | inr given ↦ elim (rw (given, trimmed_items) at m) [
      | Memᴰ.head e ↦ (
        subst IsTrimmed (sym e) (trim_space-IsTrimmed item),
        λ empty. ground (arith, eq_iff (trim_space item) ""),
      )
      | Memᴰ.tail t ↦ items_lem rest s t
    ]
  ]

  -- The items that are read from a comma-separated variable have no white space around them and are
  -- not empty.
  pub env_csv_lem :
      (name : String) (items : List String)
      → env_csv os name ≡ some items
      → (s : String) → Memᴰ s items
      → IsTrimmed s × (s ≢ "")
  unfolding env_csv
  env_csv_lem name items h s m = elim (Bool-cases (trim_space (getenv os name) == "")) [
    | inl blank ↦ cc (rw (blank, env_csv) at h)
    | inr given ↦
        let same = some-injective (rw (given, env_csv) at h) in
        items_lem _ s (subst (Memᴰ s) (sym same) m)
  ]
