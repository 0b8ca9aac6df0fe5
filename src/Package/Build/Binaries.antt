-- ===== src/Package/Build/Binaries.antt =====
-- The binaries of a target.
use skawld_maintenance.Prelude.{
  true, false, String, ℕ, List, [], ◌∷◌, ◌<>◌, ◌++◌, ◌≡◌, refl, ap, ◌∙◌, sym, Memᴰ,
}
use mathlib.Core.Path.{subst}
use skawld_maintenance.Package.Machine.{
  Act, Machine, Stat, present, missing, unreadable, Run, act, Grows, Extends, Done, Done-bind,
  not-Done-fail,
}
use skawld_maintenance.Package.Growth.{
  Grows-pure, Grows-bind, Grows-act, Grows-state, Grows-Done, Done-act, Extends-trans, grows_rules,
}
use skawld_maintenance.Package.Environment.{Target}
use skawld_maintenance.Package.Build.{
  build_command, check_binary, build_binary, build_binaries, extension,
}

module _ (os : Machine) (root version commit : String) (built_at : ℕ) where
  module _ (staging : String) (t : Target) where
    check_binary-Grows : (binary path : String) (s : Stat) → Grows (check_binary os binary path s)
    check_binary-Grows binary path (present true) = search (grows_rules) depth 5
    check_binary-Grows binary path (present false) = search (grows_rules) depth 5
    check_binary-Grows binary path missing = search (grows_rules) depth 5
    check_binary-Grows binary path unreadable = search (grows_rules) depth 5

    build_binary-Grows :
        (binary : String) → Grows (build_binary os root staging version commit built_at t binary)
    build_binary-Grows binary = Grows-bind _ _ (Grows-act os _ _) λ _.
        let path = os.join (staging ∷ (binary <> extension t) ∷ []) in
        Grows-state (λ acts. check_binary os binary path (os.stat acts path))
          (λ k. check_binary-Grows binary path (os.stat k path))

    pub build_binaries-Grows :
        (names : List String)
        → Grows (build_binaries os root staging version commit built_at t names)
    unfolding build_binaries
    build_binaries-Grows [] = Grows-pure tt
    build_binaries-Grows (b ∷ bs) =
        Grows-bind _ _ (build_binary-Grows b) (λ _. build_binaries-Grows bs)

    abbrev pub output_of : String → String
    output_of binary = os.join (staging ∷ (binary <> extension t) ∷ [])

    -- The command that builds the binary succeeded, and right after it a regular file was where the
    -- binary was to be put.
    pub record IsBuilt (binary : String) (k : List Act) : Type 0 where
      pub before : List Act
      pub succeeded :
          os.succeeds before (build_command os root staging version commit built_at t binary) ≡ true
      pub regular :
          os.stat
            (before ++ (build_command os root staging version commit built_at t binary ∷ []))
            (output_of binary)
          ≡ present true
      pub after :
          Extends
            (before ++ (build_command os root staging version commit built_at t binary ∷ []))
            k

    pub IsBuilt-further :
        {binary : String} {k k' : List Act} → Extends k k' → IsBuilt binary k → IsBuilt binary k'
    IsBuilt-further more b = record {
      before = b.before;
      succeeded = b.succeeded;
      regular = b.regular;
      after = Extends-trans b.after more;
    }

    check_binary_lem :
        (binary path : String) (s : Stat) (k k' : List Act)
        → Done (check_binary os binary path s) k tt k'
        → s ≡ present true
    check_binary_lem binary path (present true) k k' h = refl
    check_binary_lem binary path (present false) k k' h = absurd (not-Done-fail _ k tt k' h)
    check_binary_lem binary path missing k k' h = absurd (not-Done-fail _ k tt k' h)
    check_binary_lem binary path unreadable k k' h = absurd (not-Done-fail _ k tt k' h)

    build_binary_lem :
        (b : String) (k k' : List Act)
        → Done (build_binary os root staging version commit built_at t b) k tt k'
        → IsBuilt b k'
    build_binary_lem b k k' h =
        let path = output_of b in
        let checked : Run Unit = λ acts. check_binary os b path (os.stat acts path) acts in
        let command = build_command os root staging version commit built_at t b in
        let (_, j, built, rest) =
          Done-bind (act os ("build " <> b <> " for " <> t.goos <> "/" <> t.goarch) command)
            (λ _. checked) k tt k' h in
        let (good, e) = Done-act os _ command k j built in
        let more =
          Grows-Done checked
            (Grows-state (λ acts. check_binary os b path (os.stat acts path))
              (λ k. check_binary-Grows b path (os.stat k path)))
            j tt k' rest in
        record {
          before = k;
          succeeded = good;
          regular =
              ap (λ x. os.stat x path) (sym e) ∙ check_binary_lem b path (os.stat j path) j k' rest;
          after = subst (λ x. Extends x k') e more;
        }

    -- Every binary was built, for the target.
    pub build_binaries_lem :
        (names : List String) (k k' : List Act)
        → Done (build_binaries os root staging version commit built_at t names) k tt k'
        → (b : String) → Memᴰ b names
        → IsBuilt b k'
    unfolding build_binaries
    build_binaries_lem [] k k' h b m = elim m [ ]
    build_binaries_lem (c ∷ names) k k' h b m =
        let one = build_binary os root staging version commit built_at t in
        let more = build_binaries os root staging version commit built_at t names in
        let (_, j, first, rest) = Done-bind (one c) (λ _. more) k tt k' h in
        elim m [
          | Memᴰ.tail n ↦ build_binaries_lem names j k' rest b n
          | Memᴰ.head e ↦
              IsBuilt-further (Grows-Done more (build_binaries-Grows names) j tt k' rest)
                (subst (λ c. IsBuilt c j) (sym e) (build_binary_lem c k j first))
        ]
