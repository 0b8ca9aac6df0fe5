-- ===== src/Package/Environment.antt =====
-- tools/package/main.go: the targets, and the environment that each is built in.
use skawld_maintenance.Prelude.{
  String, ◌<>◌, Bool, true, false, ◌||◌, ◌≡◌, ◌↔◌, refl, sym, ap, ◌∙◌, inl, inr, List, [], ◌∷◌,
  ◌++◌, Memᴰ, not, select, mem_select_iff, mem-append_cases, mem-append_left, if◌then◌else◌, arith,
  Bool-cases,
}
use skawld_maintenance.Prelude.Text.{has_prefix, has_prefix-append, has_prefix-apart, apart}

-- `target`
pub record Target : Type 0 where
  pub goos : String
  pub goarch : String
  pub format : String

abbrev pub targets : List Target
targets =
    record { goos = "windows"; goarch = "amd64"; format = "zip" }
    ∷ record { goos = "windows"; goarch = "arm64"; format = "zip" }
    ∷ record { goos = "darwin"; goarch = "amd64"; format = "tar.gz" }
    ∷ record { goos = "darwin"; goarch = "arm64"; format = "tar.gz" }
    ∷ record { goos = "linux"; goarch = "amd64"; format = "tar.gz" }
    ∷ record { goos = "linux"; goarch = "arm64"; format = "tar.gz" }
    ∷ []

abbrev pub is_chosen : String → Bool
is_chosen entry =
    has_prefix "GOOS=" entry || has_prefix "GOARCH=" entry || has_prefix "CGO_ENABLED=" entry

-- The loop of `targetEnvironment`.
unfoldable pub inherit : List String → List String
inherit [] = []
inherit (entry ∷ rest) =
    let environment = inherit rest in if is_chosen entry then environment else entry ∷ environment

-- `targetEnvironment`, at what os.Environ gives
unfoldable pub target_environment : List String → Target → List String
unfolding inherit has_prefix
target_environment environ build_target =
    inherit environ
    ++ (("GOOS=" <> build_target.goos)
        ∷ ("GOARCH=" <> build_target.goarch)
        ∷ ("CGO_ENABLED=" <> "0")
        ∷ [])

-- The entries under a name.
abbrev pub under : String → List String → List String
under name = select (has_prefix name)

select-append_none :
    {A : Type 0} (p : A → Bool) (xs ys : List A)
    → ((x : A) → Memᴰ x xs → p x ≡ false)
    → select p (xs ++ ys) ≡ select p ys
select-append_none p [] ys h = refl
select-append_none p (x ∷ xs) ys h =
    rw (h x (Memᴰ.head refl), select-append_none p xs ys (λ y m. h y (Memᴰ.tail m))) refl

inherit_lem : (environ : List String) → inherit environ ≡ select (λ e. not (is_chosen e)) environ
unfolding inherit
inherit_lem [] = refl
inherit_lem (e ∷ rest) = ground (arith, inherit_lem rest)

-- A name that is chosen is not inherited.
chosen_only :
    (name : String) (environ : List String)
    → ((e : String) → has_prefix name e ≡ true → is_chosen e ≡ true)
    → (e : String) → Memᴰ e (inherit environ)
    → has_prefix name e ≡ false
chosen_only name environ chosen e m = elim (Bool-cases (has_prefix name e)) [
  | inr no_prefix ↦ no_prefix
  | inl prefix ↦
      let kept =
        ((mem_select_iff (λ e. not (is_chosen e)) environ e).0 (rw (← inherit_lem environ) m)).1 in
      cc (ap not (sym (chosen e prefix)) ∙ kept)
]

-- The three entries of a target are chosen, each under its own name only.
chosen_target :
    (x : String)
    → (is_chosen ("GOOS=" <> x) ≡ true)
      × (is_chosen ("GOARCH=" <> x) ≡ true)
      × (is_chosen ("CGO_ENABLED=" <> x) ≡ true)
chosen_target x = (
  ground (arith, has_prefix-append "GOOS=" x),
  ground (arith, has_prefix-append "GOARCH=" x),
  ground (arith, has_prefix-append "CGO_ENABLED=" x),
)

abbrev added : Target → List String
added t = ("GOOS=" <> t.goos) ∷ ("GOARCH=" <> t.goarch) ∷ ("CGO_ENABLED=" <> "0") ∷ []

added-under :
    (t : Target)
    → (under "GOOS=" (added t) ≡ (("GOOS=" <> t.goos) ∷ []))
      × (under "GOARCH=" (added t) ≡ (("GOARCH=" <> t.goarch) ∷ []))
      × (under "CGO_ENABLED=" (added t) ≡ ("CGO_ENABLED=0" ∷ []))
unfolding apart has_prefix
added-under t = (
  rw (has_prefix-append "GOOS=" t.goos, has_prefix-apart "GOOS=" "GOARCH=" t.goarch refl) refl,
  rw (has_prefix-append "GOARCH=" t.goarch, has_prefix-apart "GOARCH=" "GOOS=" t.goos refl) refl,
  rw
      (
        has_prefix-apart "CGO_ENABLED=" "GOOS=" t.goos refl,
        has_prefix-apart "CGO_ENABLED=" "GOARCH=" t.goarch refl,
      )
      refl,
)

-- The environment of a build has one entry for each of GOOS, GOARCH and CGO_ENABLED, which is the
-- target's (CGO_ENABLED is 0), and of the other entries those of the tool's own environment.
pub target_environment_lem :
    (environ : List String) (t : Target)
    → (under "GOOS=" (target_environment environ t) ≡ (("GOOS=" <> t.goos) ∷ []))
      × (under "GOARCH=" (target_environment environ t) ≡ (("GOARCH=" <> t.goarch) ∷ []))
      × (under "CGO_ENABLED=" (target_environment environ t) ≡ ("CGO_ENABLED=0" ∷ []))
      × ((e : String)
          → is_chosen e ≡ false
          → Memᴰ e (target_environment environ t) ↔ Memᴰ e environ)
unfolding target_environment has_prefix
target_environment_lem environ t = (
  select-append_none (has_prefix "GOOS=") (inherit environ) _
        (chosen_only "GOOS=" environ (λ e h. ground arith))
      ∙ (added-under t).0,
  select-append_none (has_prefix "GOARCH=") (inherit environ) _
        (chosen_only "GOARCH=" environ (λ e h. ground arith))
      ∙ (added-under t).1,
  select-append_none (has_prefix "CGO_ENABLED=") (inherit environ) _
        (chosen_only "CGO_ENABLED=" environ (λ e h. ground arith))
      ∙ (added-under t).2,
  λ e other. (to e other, from e other),
)
  where
    to : (e : String) → is_chosen e ≡ false → Memᴰ e (target_environment environ t) → Memᴰ e environ
    to e other m = elim (mem-append_cases (inherit environ) (added t) m) [
      | inl n ↦
          ((mem_select_iff (λ e. not (is_chosen e)) environ e).0 (rw (← inherit_lem environ) n)).0
      | inr (Memᴰ.head q) ↦ cc (sym other ∙ ap is_chosen q ∙ (chosen_target t.goos).0)
      | inr (Memᴰ.tail (Memᴰ.head q)) ↦ cc (sym other ∙ ap is_chosen q ∙ (chosen_target t.goarch).1)
      | inr (Memᴰ.tail (Memᴰ.tail (Memᴰ.head q))) ↦
          cc (sym other ∙ ap is_chosen q ∙ (chosen_target "0").2)
      | inr (Memᴰ.tail (Memᴰ.tail (Memᴰ.tail n))) ↦ elim n [ ]
    ]

    from :
        (e : String) → is_chosen e ≡ false → Memᴰ e environ → Memᴰ e (target_environment environ t)
    from e other m = mem-append_left (inherit environ) _ (
        rw (inherit_lem environ)
          ((mem_select_iff (λ e. not (is_chosen e)) environ e).1 (m, rw other refl)))
