-- ===== src/Package/Root.antt =====
-- tools/package/main.go: the search for the repository's root, and that it ends.
use skawld_maintenance.Prelude.{
  ℕ, zero, suc, ◌<◌, ◌≤◌, String, ◌==◌, Bool, true, false, ◌≡◌, ◌≢◌, refl, sym, ap, ◌∙◌, ◌⊎◌, inl,
  inr, Option, none, some, List, [], ◌∷◌, arith, eq_iff, Bool-cases, if◌then◌else◌,
}
use skawld_maintenance.Errors.{Failure, ok, err, text, wrapped, driver}
use skawld_maintenance.Package.Machine.{Act, Machine, Stat, present, missing, unreadable, Run, fail}

abbrev pub exists : Stat → Bool
exists (present regular) = true
exists missing = false
exists unreadable = false

abbrev pub out_of_fuel : Failure
out_of_fuel = text "the search took more steps than were given"

module _ (os : Machine) where
  -- `os.Stat` of the module's file gives no error.
  abbrev pub has_module : List Act → String → Bool
  has_module acts current = exists (os.stat acts (os.join (current ∷ "go.mod" ∷ [])))

  -- The loop of `repositoryRoot`, for at most so many rounds.
  unfoldable pub search_root : ℕ → String → Run String
  search_root zero current acts = (err out_of_fuel, acts)
  search_root (suc fuel) current acts =
      let rest = search_root fuel (os.dir current) acts in
      if has_module acts current
      then (ok current, acts)
      else if os.dir current == current
      then (err (text "go.mod not found in current directory or parents"), acts)
      else rest

  abbrev pub search_from : ℕ → Option String → Run String
  search_from fuel none = fail (wrapped "get working directory" driver)
  search_from fuel (some current) = search_root fuel current

  -- `repositoryRoot`
  unfoldable pub repository_root : ℕ → Run String
  unfolding search_root
  repository_root fuel = search_from fuel os.getwd

  -- The n-th directory above.
  abbrev pub above : ℕ → String → String
  above zero current = current
  above (suc n) current = above n (os.dir current)

  -- The nearest directory with a module, this one or one above it.
  pub record IsRoot (acts : List Act) (current root : String) : Type 0 where
    pub steps : ℕ
    pub reached : root ≡ above steps current
    pub there : has_module acts root ≡ true
    pub nearest : (n : ℕ) → n < steps → has_module acts (above n current) ≡ false

  -- The directories up to one that is its own parent, none of which has a module.
  pub record IsBare (acts : List Act) (current : String) : Type 0 where
    pub steps : ℕ
    pub top : os.dir (above steps current) ≡ above steps current
    pub bare : (n : ℕ) → n ≤ steps → has_module acts (above n current) ≡ false

  -- filepath.Dir of a path that is not its own parent is less deep.
  module _ (depth : String → ℕ)
      (shallower : (p : String) → os.dir p ≢ p → depth (os.dir p) < depth p) where
    IsRoot-further :
        (acts : List Act) (current root : String)
        → has_module acts current ≡ false
        → IsRoot acts (os.dir current) root
        → IsRoot acts current root
    IsRoot-further acts current root here r = record {
      steps = suc r.steps;
      reached = r.reached;
      there = r.there;
      nearest = nearer;
    }
      where
        nearer : (n : ℕ) → n < suc r.steps → has_module acts (above n current) ≡ false
        nearer zero h = here
        nearer (suc n) h = r.nearest n (omega arith)

    IsBare-further :
        (acts : List Act) (current : String)
        → has_module acts current ≡ false
        → IsBare acts (os.dir current)
        → IsBare acts current
    IsBare-further acts current here b = record { steps = suc b.steps; top = b.top; bare = nearer }
      where
        nearer : (n : ℕ) → n ≤ suc b.steps → has_module acts (above n current) ≡ false
        nearer zero h = here
        nearer (suc n) h = b.bare n (omega arith)

    search_root_cases :
        (fuel : ℕ) (current : String) (acts : List Act)
        → depth current < fuel
        → ((root : String) × (search_root fuel current acts ≡ (ok root, acts))
            × IsRoot acts current root)
          ⊎ ((search_root fuel current acts
                ≡ (err (text "go.mod not found in current directory or parents"), acts))
              × IsBare acts current)
    unfolding search_root
    search_root_cases zero current acts h = absurd (omega arith)
    search_root_cases (suc fuel) current acts h = elim (Bool-cases (has_module acts current)) [
      | inl here ↦ inl (
        current,
        rw (here, search_root) refl,
        record { steps = 0; reached = refl; there = here; nearest = λ n l. absurd (omega arith) },
      )
      | inr away ↦ elim (Bool-cases (os.dir current == current)) [
        | inl top ↦ inr (
          rw (away, top, search_root) refl,
          record {
            steps = 0;
            top = (eq_iff (os.dir current) current).0 top;
            bare = λ n l. let e : n ≡ 0 = omega arith in rw e away;
          },
        )
        | inr lower ↦
            let less =
              shallower current (λ e. cc (sym lower ∙ (eq_iff (os.dir current) current).1 e)) in
            elim (search_root_cases fuel (os.dir current) acts (omega arith)) [
              | inl (root, e, is) ↦
                  inl (
                    root,
                    rw (away, lower, search_root) e,
                    IsRoot-further acts current root away is,
                  )
              | inr (e, is) ↦
                  inr (rw (away, lower, search_root) e, IsBare-further acts current away is)
            ]
      ]
    ]

    -- If filepath.Dir makes a path that is not its own parent less deep, a search with more rounds than
    -- the working directory is deep ends: it returns the nearest directory with a go.mod, the working
    -- directory or one above it, or fails because there is none up to a directory that is its own
    -- parent. It never runs out of rounds.
    pub repository_root_cases :
        (fuel : ℕ) (current : String) (acts : List Act)
        → os.getwd ≡ some current
        → depth current < fuel
        → ((root : String) × (repository_root fuel acts ≡ (ok root, acts))
            × IsRoot acts current root)
          ⊎ ((repository_root fuel acts
                ≡ (err (text "go.mod not found in current directory or parents"), acts))
              × IsBare acts current)
    unfolding repository_root
    repository_root_cases fuel current acts e h =
        let a : repository_root fuel acts ≡ search_root fuel current acts =
          ap (λ o. search_from fuel o acts) e in
        elim (search_root_cases fuel current acts h) [
          | inl (root, found, is) ↦ inl (root, a ∙ found, is)
          | inr (lost, is) ↦ inr (a ∙ lost, is)
        ]
