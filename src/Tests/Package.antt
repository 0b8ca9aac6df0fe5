-- ===== src/Tests/Package.antt =====
-- A machine on which every operation succeeds, and a release on it.
use skawld_maintenance.Prelude.{
  ℕ, ◌<◌, ◌++◌, ◌||◌, Bool, String, ◌<>◌, ◌==◌, ◌≡◌, ◌≢◌, ◌↔◌, refl, sym, ◌⊎◌, inl, inr, Bool-cases,
  eq_iff, true, false, none, some, List, [], ◌∷◌, Memᴰ, arith, if◌then◌else◌,
}
use skawld_maintenance.Prelude.Text.{trim_space}
use skawld_maintenance.Errors.{err, ok, text}
use skawld_maintenance.Package.Machine.{
  Act, go_build, Machine, Visit, present, missing, visited, Done,
}
use skawld_maintenance.Package.Root.{
  repository_root, search_root, IsRoot, IsBare, repository_root_cases,
}
use skawld_maintenance.Package.Environment.{
  Target, target_environment, under, is_chosen, target_environment_lem,
}
use skawld_maintenance.Package.Build.{
  safe_version, contains_line_end, build_command, extension, run,
}
use skawld_maintenance.Package.Files.Ended.{IsBelow}
use skawld_maintenance.Package.Finishing.{IsWorking, run_finishes}

abbrev path_of : List String → String
path_of [] = ""
path_of (p ∷ []) = p
path_of (p ∷ (q ∷ rest)) = p <> "/" <> path_of (q ∷ rest)

-- "" is its own parent and the parent of every path; it has the module, and no release is there.
abbrev machine : Machine
machine = record {
  succeeds = λ acts a. true;
  stat = λ acts path.
      if path == "dist/v1"
      then missing
      else if path == "home/go.mod"
      then missing
      else present true;
  temporary = λ acts. "tmp";
  walk = λ acts path. visited path true ∷ visited "README.txt" false ∷ [];
  digest = λ acts path. "00";
  getwd = some "home";
  environ = "HOME=/root" ∷ "GOOS=plan9" ∷ [];
  now = 1500000000;
  parse_time = λ s. none;
  format_time = λ n. "now";
  join = path_of;
  dir = λ path. "";
  base = λ path. path;
  rel = λ parent path. some path;
  to_slash = λ path. path;
  is_abs = λ path. true;
  sort = λ xs. xs;
}

abbrev depth : String → ℕ
depth path = if path == "" then 0 else 1

linux : Target
linux = record { goos = "linux"; goarch = "arm64"; format = "tar.gz" }

target_environment_lem_example :
    (under "GOOS=" (target_environment machine.environ linux) ≡ (("GOOS=" <> linux.goos) ∷ []))
    × (under "GOARCH=" (target_environment machine.environ linux)
        ≡ (("GOARCH=" <> linux.goarch) ∷ []))
    × (under "CGO_ENABLED=" (target_environment machine.environ linux) ≡ ("CGO_ENABLED=0" ∷ []))
    × ((e : String)
        → is_chosen e ≡ false
        → Memᴰ e (target_environment machine.environ linux) ↔ Memᴰ e machine.environ)
target_environment_lem_example = target_environment_lem machine.environ linux

abbrev done : List Act
done = (run machine 2 "v1" "abc" "" "dist" false []).1

shallower : (p : String) → "" ≢ p → 0 < depth p
shallower p other = elim (Bool-cases (p == "")) [
  | inl e ↦ absurd (other (sym ((eq_iff p "").0 e)))
  | inr e ↦ rw e (omega arith)
]

repository_root_cases_example :
    ((root : String) × (repository_root machine 2 [] ≡ (ok root, []))
      × IsRoot machine [] "home" root)
    ⊎ ((repository_root machine 2 []
          ≡ (err (text "go.mod not found in current directory or parents"), []))
        × IsBare machine [] "home")
repository_root_cases_example =
    repository_root_cases machine depth shallower 2 "home" [] refl (omega arith)

abbrev fifth : List String → String
fifth (_ ∷ _ ∷ _ ∷ _ ∷ _ ∷ path ∷ _) = path
fifth _ = ""

-- Where a command puts its binary.
abbrev output : Act → String
output (go_build dir arguments environment) = fifth arguments
output _ = ""

abbrev is_built : List Act → String → Bool
is_built [] path = false
is_built (a ∷ acts) path = output a == path || is_built acts path

is_built_last : (k : List Act) (a : Act) → is_built (k ++ (a ∷ [])) (output a) ≡ true
is_built_last [] a = rw ((eq_iff (output a) (output a)).1 refl) refl
is_built_last (b ∷ k) a = rw (is_built_last k a) (ground arith)

-- A machine with the module and the binaries that were built.
abbrev full : Machine
full = record machine {
  stat = λ acts path.
      if path == "home/go.mod"
      then present true
      else if is_built acts path
      then present true
      else missing;
}

full_regular :
    (k : List Act) (root staging version commit : String) (built_at : ℕ) (t : Target)
    (binary : String)
    → full.stat
        (k ++ (build_command full root staging version commit built_at t binary ∷ []))
        (full.join (staging ∷ (binary <> extension t) ∷ []))
      ≡ present true
full_regular k root staging version commit built_at t binary =
    let command = build_command full root staging version commit built_at t binary in
    elim (Bool-cases (output command == "home/go.mod")) [
      | inl e ↦ rw e refl
      | inr e ↦ rw (e, is_built_last k command) refl
    ]

full_walks :
    (k : List Act) (p : String) (v : Visit)
    → Memᴰ v (full.walk k p)
    → IsBelow full (λ k a. refl) (full.dir p) v
full_walks k p v (Memᴰ.head e) = record {
  path = p;
  is_dir = true;
  relative = p;
  call = e;
  inside = refl;
}
full_walks k p v (Memᴰ.tail (Memᴰ.head e)) = record {
  path = "README.txt";
  is_dir = false;
  relative = "README.txt";
  call = e;
  inside = refl;
}
full_walks k p v (Memᴰ.tail (Memᴰ.tail m)) = elim m [ ]

full-IsWorking : IsWorking full
full-IsWorking = record { all = λ k a. refl; walks = full_walks; regular = full_regular }

full_root : Done (repository_root full 2) [] "home" []
unfolding repository_root search_root
full_root = refl

run_finishes_example : (k' : List Act) × Done (run full 2 "v1" "abc" "" "dist" false) [] tt k'
unfolding safe_version trim_space contains_line_end
run_finishes_example =
    run_finishes full full-IsWorking "v1" "abc" 2 "" "dist" "home" false [] refl
      (λ e. cc ((eq_iff "abc" "").1 e)) refl (inl refl) full_root (inl refl)
