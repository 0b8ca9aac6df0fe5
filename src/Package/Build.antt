-- ===== src/Package/Build.antt =====
-- tools/package/main.go: the archive of a target, and `run`. What is printed is left out.
pub mod Binaries
pub mod Built
use Prim.Native.Char.{code}
use skawld_maintenance.Prelude.{
  ℕ, ◌-◌, ◌%◌, ◌*◌, String, ◌<>◌, ◌==◌, Bool, true, false, ◌&&◌, ◌||◌, not, Option, none, some,
  List, [], ◌∷◌, ◌++◌, leb, nat_eq, if◌then◌else◌,
}
use skawld_maintenance.Prelude.Text.{trim_space}
use skawld_maintenance.Errors.{Failure, Result, text, wrapped, driver}
use skawld_maintenance.Package.Machine.{
  Act, remove_all, mkdir_all, mkdir_temp, go_build, Machine, Stat, present, missing, unreadable,
  Run, pure, fail, deferred, ◌>>=◌, ◌>>◌, act,
}
use skawld_maintenance.Package.Root.{repository_root}
use skawld_maintenance.Package.Environment.{Target, targets, target_environment}
use skawld_maintenance.Package.Files.{copy_file, write_zip, write_tar_gzip, write_checksums}

abbrev pub build_info_package : String
build_info_package = "github.com/ZekromNguyen/skawld-maintenance/internal/platform/buildinfo"

abbrev pub is_alphanumeric : ℕ → Bool
is_alphanumeric c =
    (leb b'A' c && leb c b'Z') || (leb b'a' c && leb c b'z') || (leb b'0' c && leb c b'9')

-- `[A-Za-z0-9._-]*`
unfoldable pub is_tail : String → Bool
is_tail String.[] = true
is_tail (String.◌∷◌ c s) =
    (is_alphanumeric (code c)
      || nat_eq (code c) b'.'
      || nat_eq (code c) b'_'
      || nat_eq (code c) b'-')
    && is_tail s

-- `safeVersion.MatchString`
unfoldable pub safe_version : String → Bool
unfolding is_tail
safe_version String.[] = false
safe_version (String.◌∷◌ c s) = is_alphanumeric (code c) && is_tail s

-- strings.ContainsAny at the two characters that end a line
unfoldable pub contains_line_end : String → Bool
contains_line_end String.[] = false
contains_line_end (String.◌∷◌ c s) = nat_eq (code c) 13 || nat_eq (code c) 10 || contains_line_end s

-- strings.Join with a space
abbrev pub join_words : List String → String
join_words [] = ""
join_words (w ∷ []) = w
join_words (w ∷ (v ∷ rest)) = w <> " " <> join_words (v ∷ rest)

abbrev pub binaries : List String
binaries = "api" ∷ "worker" ∷ "migrate" ∷ []

abbrev pub package_name : String → Target → String
package_name version t = "skawld-maintenance_" <> version <> "_" <> t.goos <> "_" <> t.goarch

abbrev pub extension : Target → String
extension t = if t.goos == "windows" then ".exe" else ""

module _ (os : Machine) where
  abbrev pub ldflags : String → String → ℕ → String
  ldflags version commit built_at = join_words (
      "-s"
      ∷ "-w"
      ∷ "-X"
      ∷ (build_info_package <> ".version=" <> version)
      ∷ "-X"
      ∷ (build_info_package <> ".commit=" <> commit)
      ∷ "-X"
      ∷ (build_info_package <> ".builtAt=" <> os.format_time built_at)
      ∷ [])

  -- The command that builds a binary.
  abbrev pub build_command : String → String → String → String → ℕ → Target → String → Act
  build_command root staging version commit built_at t binary =
      go_build root
        ("build"
          ∷ "-trimpath"
          ∷ "-buildvcs=false"
          ∷ ("-ldflags=" <> ldflags version commit built_at)
          ∷ "-o"
          ∷ os.join (staging ∷ (binary <> extension t) ∷ [])
          ∷ ("./cmd/" <> binary)
          ∷ [])
        (target_environment os.environ t)

  abbrev pub check_binary : String → String → Stat → Run Unit
  check_binary binary path (present regular) =
      if not regular
      then fail (text ("packaged binary " <> path <> " is not a regular file"))
      else pure tt
  check_binary binary path missing = fail (wrapped ("inspect packaged binary " <> binary) driver)
  check_binary binary path unreadable = fail (wrapped ("inspect packaged binary " <> binary) driver)

  -- One round of the loop over the binaries.
  abbrev pub build_binary : String → String → String → String → ℕ → Target → String → Run Unit
  build_binary root staging version commit built_at t binary =
      act os ("build " <> binary <> " for " <> t.goos <> "/" <> t.goarch)
        (build_command root staging version commit built_at t binary)
      >> λ acts.
          let path = os.join (staging ∷ (binary <> extension t) ∷ []) in
          check_binary binary path (os.stat acts path) acts

  unfoldable pub build_binaries :
      String → String → String → String → ℕ → Target → List String → Run Unit
  unfolding act
  build_binaries root staging version commit built_at t [] acts = pure tt acts
  build_binaries root staging version commit built_at t (binary ∷ rest) acts =
      (build_binary root staging version commit built_at t binary >>= λ _.
      build_binaries root staging version commit built_at t rest)
        acts

  -- The switch on the format.
  abbrev pub write_archive : Target → String → String → ℕ → Run Unit
  write_archive t archive_path staging built_at =
      if t.format == "zip"
      then write_zip os archive_path staging built_at
      else if t.format == "tar.gz"
      then write_tar_gzip os archive_path staging built_at
      else fail (text ("unsupported archive format " <> t.format))

  abbrev pub archive_of : String → String → Target → String
  archive_of release_dir version t =
      os.join (release_dir ∷ (package_name version t <> "." <> t.format) ∷ [])

  -- `buildTargetArchive`
  unfoldable pub build_target_archive :
      String → String → String → String → String → ℕ → Target → Run String
  unfolding build_binaries copy_file write_zip write_tar_gzip
  build_target_archive root temporary_root release_dir version commit built_at t =
      let staging = os.join (temporary_root ∷ package_name version t ∷ []) in
      let archive_path = archive_of release_dir version t in
      act os "create staging directory" (mkdir_all (os.join (staging ∷ "contracts" ∷ [])))
      >> (build_binaries root staging version commit built_at t binaries
          >> (copy_file os (os.join (root ∷ "deployments" ∷ "packages" ∷ "README.txt" ∷ []))
                (os.join (staging ∷ "README.txt" ∷ []))
              >> (copy_file os (os.join (root ∷ ".env.example" ∷ []))
                    (os.join (staging ∷ ".env.example" ∷ []))
                  >> (copy_file os (os.join (root ∷ "api" ∷ "openapi.yaml" ∷ []))
                        (os.join (staging ∷ "contracts" ∷ "openapi.yaml" ∷ []))
                      >> (write_archive t archive_path staging built_at >> pure archive_path)))))

  -- The loop of `run` over the targets.
  unfoldable pub build_archives :
      String → String → String → String → String → ℕ → List String → List Target → Run (List String)
  unfolding build_target_archive
  build_archives root temporary_root release_dir version commit built_at archives [] acts =
      pure archives acts
  build_archives root temporary_root release_dir version commit built_at archives (t ∷ rest) acts =
      (build_target_archive root temporary_root release_dir version commit built_at t >>= λ path.
      build_archives root temporary_root release_dir version commit built_at
        (archives ++ (path ∷ [])) rest)
        acts

  -- `run` from the release directory on, when it may be made.
  abbrev pub release : String → String → String → String → ℕ → Run Unit
  release root release_dir version commit build_time =
      act os "create release directory" (mkdir_all release_dir)
      >> (act os "create temporary directory" (mkdir_temp "skawld-maintenance-package-*") >> λ acts.
          deferred (remove_all (os.temporary acts))
            (build_archives root (os.temporary acts) release_dir version commit build_time []
                targets
              >>= write_checksums os release_dir)
            acts)

  -- What is done about a release directory that is there.
  abbrev pub prepare : Bool → String → Stat → Run Unit
  prepare clean release_dir (present regular) =
      if not clean
      then fail (text (release_dir <> " already exists; pass -clean to replace it"))
      else act os "clean release directory" (remove_all release_dir)
  prepare clean release_dir missing = pure tt
  prepare clean release_dir unreadable = fail (wrapped "inspect release directory" driver)

  abbrev pub release_dir_of : String → String → String → String
  release_dir_of root output version =
      os.join
        ((if not (os.is_abs output) then os.join (root ∷ output ∷ []) else output) ∷ version ∷ [])

  -- `run` from the search for the root on.
  abbrev pub package_at : ℕ → String → String → String → Bool → ℕ → Run Unit
  package_at fuel version commit output clean build_time = repository_root os fuel >>= λ root acts.
      (prepare clean (release_dir_of root output version)
            (os.stat acts (release_dir_of root output version))
          >> release root (release_dir_of root output version) version commit build_time)
        acts

  abbrev pub package_parsed : ℕ → String → String → String → Bool → Option ℕ → Run Unit
  package_parsed fuel version commit output clean none = fail (wrapped "parse built-at" driver)
  package_parsed fuel version commit output clean (some time) =
      package_at fuel version commit output clean time

  -- `run`, whose search for the root has a bounded number of rounds.
  unfoldable pub run : ℕ → String → String → String → String → Bool → Run Unit
  unfolding safe_version contains_line_end repository_root build_archives write_checksums act
      trim_space deferred
  run fuel version commit built_at output clean =
      if not (safe_version version)
      then fail (text ("version " <> version <> " contains unsupported characters"))
      else if trim_space commit == "" || contains_line_end commit
      then fail (text "commit must be a non-empty single-line value")
      else if not (built_at == "")
      then package_parsed fuel version commit output clean (os.parse_time built_at)
      else package_at fuel version commit output clean (os.now - os.now % 1000000000)
