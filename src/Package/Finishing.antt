-- ===== src/Package/Finishing.antt =====
-- A run of the packaging tool returns on a machine where every operation succeeds.
use skawld_maintenance.Prelude.{
  ℕ, ◌-◌, ◌%◌, ◌++◌, Bool, true, false, ◌&&◌, ◌||◌, String, ◌<>◌, ◌==◌, ◌≡◌, ◌≢◌, refl, sym, ap,
  ◌∙◌, ◌⊎◌, inl, inr, some, List, [], ◌∷◌, Memᴰ, Bool-cases, eq_iff, and_iff, arith,
}
use mathlib.Core.Path.{subst}
use skawld_maintenance.Prelude.Text.{trim_space}
use skawld_maintenance.Package.Machine.{
  Act, act, remove_all, Machine, Stat, present, missing, Run, Visit, ◌>>=◌, ◌>>◌, deferred, Done,
}
use skawld_maintenance.Package.Endings.{
  Ends, Ends-pure, Ends-deferred, Ends-state, Ends-bind, Ends-act, Done-then, all-Done,
}
use skawld_maintenance.Package.Root.{repository_root}
use skawld_maintenance.Package.Environment.{Target, targets}
use skawld_maintenance.Package.Files.{write_checksums}
use skawld_maintenance.Package.Files.Ended.{
  IsBelow, copy_file-Ends, write_zip-Ends, write_tar_gzip-Ends, write_checksums-Ends,
}
use skawld_maintenance.Package.Build.{
  safe_version, contains_line_end, extension, binaries, check_binary, build_binary, build_command,
  build_binaries, write_archive, build_target_archive, build_archives, release, prepare,
  release_dir_of, package_at, package_parsed, run,
}

-- A machine on which every operation succeeds, a walk gives only paths below its directory's parent,
-- and a regular file is where a command that builds a binary was to put it, right after it.
pub record IsWorking (os : Machine) : Type 0 where
  pub all : (k : List Act) (a : Act) → os.succeeds k a ≡ true
  pub walks :
      (k : List Act) (p : String) (v : Visit) → Memᴰ v (os.walk k p) → IsBelow os all (os.dir p) v
  pub regular :
      (k : List Act) (root staging version commit : String) (built_at : ℕ) (t : Target)
      (binary : String)
      → os.stat
          (k ++ (build_command os root staging version commit built_at t binary ∷ []))
          (os.join (staging ∷ (binary <> extension t) ∷ []))
        ≡ present true

-- The formats of the targets are the two that can be written.
abbrev are_known : List Target → Bool
are_known [] = true
are_known (t ∷ ts) = (t.format == "zip" || t.format == "tar.gz") && are_known ts

module _ (os : Machine) (working : IsWorking os) (root version commit : String) (built_at : ℕ) where
  build_binaries-Ends :
      (staging : String) (t : Target) (names : List String)
      → Ends (build_binaries os root staging version commit built_at t names)
  unfolding build_binaries
  build_binaries-Ends staging t [] = Ends-pure tt
  build_binaries-Ends staging t (b ∷ bs) =
      let path = os.join (staging ∷ (b <> extension t) ∷ []) in
      let command = build_command os root staging version commit built_at t b in
      let building = act os ("build " <> b <> " for " <> t.goos <> "/" <> t.goarch) command in
      let checked : Run Unit = λ acts. check_binary os b path (os.stat acts path) acts in
      Ends-bind (build_binary os root staging version commit built_at t b)
        (λ _. build_binaries os root staging version commit built_at t bs)
        record {
          at = λ k.
              let (_, k', done) =
                (subst (λ s. Ends (check_binary os b path s))
                    (sym (working.regular k root staging version commit built_at t b))
                    (Ends-pure tt)).at
                  (k ++ (command ∷ [])) in
              (
                tt,
                k',
                Done-then building (λ _. checked) k tt (k ++ (command ∷ [])) tt k'
                    (all-Done os working.all _ command k) done,
              );
        }
        (λ _. build_binaries-Ends staging t bs)

  write_archive-Ends :
      (t : Target) (path staging : String)
      → (t.format == "zip" || t.format == "tar.gz") ≡ true
      → Ends (write_archive os t path staging built_at)
  write_archive-Ends t path staging h = elim (Bool-cases (t.format == "zip")) [
    | inl zip ↦ rw zip (write_zip-Ends os working.all working.walks path staging built_at)
    | inr other ↦
        let tar : (t.format == "tar.gz") ≡ true = ground arith in
        rw (other, tar) (write_tar_gzip-Ends os working.all working.walks path staging built_at)
  ]

  build_target-Ends :
      (temporary_root release_dir : String) (t : Target)
      → (t.format == "zip" || t.format == "tar.gz") ≡ true
      → Ends (build_target_archive os root temporary_root release_dir version commit built_at t)
  unfolding build_target_archive
  build_target-Ends temporary_root release_dir t known =
      Ends-bind _ _ (Ends-act os working.all _ _) λ _.
        Ends-bind _ _ (build_binaries-Ends _ t binaries) λ _.
          Ends-bind _ _ (copy_file-Ends os working.all _ _) λ _.
            Ends-bind _ _ (copy_file-Ends os working.all _ _) λ _.
              Ends-bind _ _ (copy_file-Ends os working.all _ _)
                λ _. Ends-bind _ _ (write_archive-Ends t _ _ known) λ _. Ends-pure _

  build_archives-Ends :
      (temporary_root release_dir : String) (archives : List String) (ts : List Target)
      → are_known ts ≡ true
      → Ends (build_archives os root temporary_root release_dir version commit built_at archives ts)
  unfolding build_archives
  build_archives-Ends temporary_root release_dir archives [] known = Ends-pure archives
  build_archives-Ends temporary_root release_dir archives (t ∷ ts) known =
      let (here, rest) =
        (and_iff (t.format == "zip" || t.format == "tar.gz") (are_known ts)).0 known in
      Ends-bind _ _ (build_target-Ends temporary_root release_dir t here)
        (λ path. build_archives-Ends temporary_root release_dir (archives ++ (path ∷ [])) ts rest)

  release-Ends : (release_dir : String) → Ends (release os root release_dir version commit built_at)
  release-Ends release_dir = Ends-bind _ _ (Ends-act os working.all _ _) λ _.
      Ends-bind _ _ (Ends-act os working.all _ _) λ _.
        Ends-state
          (λ acts. deferred (remove_all (os.temporary acts)) (
            build_archives os root (os.temporary acts) release_dir version commit built_at []
              targets
            >>= write_checksums os release_dir))
          λ k. Ends-deferred _ _ (
            Ends-bind _ _ (build_archives-Ends (os.temporary k) release_dir [] targets refl)
              (write_checksums-Ends os working.all release_dir))

  prepare-Ends :
      (clean : Bool) (dir : String) (s : Stat)
      → (s ≡ missing) ⊎ ((clean ≡ true) × (regular : Bool) × (s ≡ present regular))
      → Ends (prepare os clean dir s)
  prepare-Ends clean dir s (inl e) =
      subst (λ s. Ends (prepare os clean dir s)) (sym e) (Ends-pure tt)
  prepare-Ends clean dir s (inr (forced, regular, e)) =
      subst (λ s. Ends (prepare os clean dir s)) (sym e) (rw forced (Ends-act os working.all _ _))

  -- From the search for the root on.
  package-Ends :
      (fuel : ℕ) (output : String) (clean : Bool) (k : List Act)
      → Done (repository_root os fuel) k root k
      → let s = os.stat k (release_dir_of os root output version) in
        (s ≡ missing) ⊎ ((clean ≡ true) × (regular : Bool) × (s ≡ present regular))
        → (k' : List Act) × Done (package_at os fuel version commit output clean built_at) k tt k'
  package-Ends fuel output clean k found free =
      let dir = release_dir_of os root output version in
      let after : Run Unit =
        prepare os clean dir (os.stat k dir) >> release os root dir version commit built_at in
      let (_, k', done) =
        (Ends-bind (prepare os clean dir (os.stat k dir))
            (λ _. release os root dir version commit built_at)
            (prepare-Ends clean dir (os.stat k dir) free) (λ _. release-Ends dir)).at
          k in
      (
        k',
        Done-then (repository_root os fuel)
            (λ root acts.
              let dir = release_dir_of os root output version in
              (prepare os clean dir (os.stat acts dir)
                  >> release os root dir version commit built_at)
                acts)
            k root k tt k' found done,
      )

module _ (os : Machine) (working : IsWorking os) (version commit : String) where
  -- On a machine where every operation succeeds, a binary is a regular file right after the command
  -- that builds it, and walks stay below
  -- their directory's parent, a run returns that has a version of safe characters, a commit that is
  -- not blank and has one line, a time that is empty or parses, a root that is found, and a release
  -- directory that is missing, or there and to be replaced.
  pub run_finishes :
      (fuel : ℕ) (built_at output root : String) (clean : Bool) (k : List Act)
      → safe_version version ≡ true
      → trim_space commit ≢ ""
      → contains_line_end commit ≡ false
      → (built_at ≡ "") ⊎ ((time : ℕ) × (os.parse_time built_at ≡ some time))
      → Done (repository_root os fuel) k root k
      → let s = os.stat k (release_dir_of os root output version) in
        (s ≡ missing) ⊎ ((clean ≡ true) × (regular : Bool) × (s ≡ present regular))
        → (k' : List Act) × Done (run os fuel version commit built_at output clean) k tt k'
  unfolding run
  run_finishes fuel built_at output root clean k safe given line time found free =
      let fine : (trim_space commit == "" || contains_line_end commit) ≡ false =
        ground (arith, eq_iff (trim_space commit) "") in
      elim (Bool-cases (built_at == "")) [
        | inl now ↦
            rw (safe, fine, now, run)
              (package-Ends os working root version commit (os.now - os.now % 1000000000) fuel
                output clean k found free)
        | inr set ↦ elim time [
          | inl e ↦ cc (sym set ∙ (eq_iff built_at "").1 e)
          | inr (t, e) ↦
              let (k', done) =
                package-Ends os working root version commit t fuel output clean k found free in
              (
                k',
                rw (safe, fine, set, run)
                    (ap (λ o. package_parsed os fuel version commit output clean o k) e ∙ done),
              )
        ]
      ]
