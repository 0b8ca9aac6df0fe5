-- ===== src/Package/Files/Growing.antt =====
-- The file operations of the packaging tool only add to what was attempted.
use skawld_maintenance.Prelude.{
  Bool, true, false, String, ℕ, List, [], ◌∷◌, Option, none, some, if◌then◌else◌,
}
use skawld_maintenance.Errors.{Result, ok, err}
use skawld_maintenance.Package.Machine.{
  Machine, Run, Visit, broken, visited, close_file, create_file, close_zip, close_tar, close_gzip,
  ◌>>=◌, Grows, capture, try,
}
use skawld_maintenance.Package.Growth.{
  Grows-pure, Grows-bind, Grows-act, Grows-capture, Grows-state, grows_rules,
}
use skawld_maintenance.Package.Files.{
  copied, copy_file, after_entry, visit_zip, visit_tar, visit_relative, visit_one, visit_all,
  walk_package, join_errors, write_zip, write_tar_gzip,
}

module _ (os : Machine) where
  copied-Grows : (source destination : String) (b : Bool) → Grows (copied os source destination b)
  copied-Grows source destination true = search (grows_rules) depth 5
  copied-Grows source destination false = search (grows_rules) depth 5

  pub copy_file-Grows : (source destination : String) → Grows (copy_file os source destination)
  unfolding copy_file
  copy_file-Grows source destination = search (grows_rules, copied-Grows) depth 9

  pub after_entry-Grows :
      (destination path : String) (is_dir written : Bool)
      → Grows (after_entry os destination path is_dir written)
  after_entry-Grows destination path is_dir false = search (grows_rules) depth 5
  after_entry-Grows destination path true true = search (grows_rules) depth 5
  after_entry-Grows destination path false true = search (grows_rules) depth 9

  pub visit_zip-Grows :
      (destination : String) (modified : ℕ) (path name : String) (is_dir : Bool)
      → Grows (visit_zip os destination modified path name is_dir)
  unfolding visit_zip
  visit_zip-Grows destination modified path name is_dir =
      search (grows_rules, after_entry-Grows) depth 9

  pub visit_tar-Grows :
      (destination : String) (modified : ℕ) (path name : String) (is_dir : Bool)
      → Grows (visit_tar os destination modified path name is_dir)
  unfolding visit_tar
  visit_tar-Grows destination modified path name is_dir =
      search (grows_rules, after_entry-Grows) depth 9

  module _ (visit : String → String → Bool → Run Unit)
      (grows : (path name : String) (is_dir : Bool) → Grows (visit path name is_dir)) where
    pub visit_one-Grows : (parent : String) (v : Visit) → Grows (visit_one os parent visit v)
    visit_one-Grows parent broken = search (grows_rules) depth 5
    visit_one-Grows parent (visited path is_dir) = go (os.rel parent path)
      where
        go : (o : Option String) → Grows (visit_relative os o path is_dir visit)
        go none = search (grows_rules) depth 5
        go (some relative) = grows path (os.to_slash relative) is_dir

    pub visit_all-Grows : (parent : String) (vs : List Visit) → Grows (visit_all os parent visit vs)
    unfolding visit_all
    visit_all-Grows parent [] = Grows-pure tt
    visit_all-Grows parent (v ∷ vs) =
        Grows-bind _ _ (visit_one-Grows parent v) (λ _. visit_all-Grows parent vs)

    pub walk_package-Grows : (source : String) → Grows (walk_package os source visit)
    unfolding walk_package
    walk_package-Grows source =
        Grows-state (λ acts. visit_all os (os.dir source) visit (os.walk acts source))
          λ k. visit_all-Grows (os.dir source) (os.walk k source)

  join_errors-Grows : (r : Result (Unit {0})) (b : Bool) → Grows (join_errors os r b)
  join_errors-Grows (ok tt) true = search (grows_rules) depth 5
  join_errors-Grows (ok tt) false = search (grows_rules) depth 5
  join_errors-Grows (err e) b = search (grows_rules) depth 5

  -- The ends of the two archive writers.
  pub zip_end-Grows :
      (destination : String) (walked : Result (Unit {0}))
      → Grows (
          try os (close_zip destination) >>= λ closed.
          try os (close_file destination) >>= λ file_closed.
          join_errors os walked (if closed then file_closed else false))
  zip_end-Grows destination walked = search (grows_rules, join_errors-Grows) depth 9

  pub tar_end-Grows :
      (destination : String) (modified : ℕ) (walked : Result (Unit {0}))
      → Grows (
          try os (close_tar destination) >>= λ tar_closed.
          try os (close_gzip destination modified) >>= λ gzip_closed.
          try os (close_file destination) >>= λ file_closed.
          join_errors os walked
            (if tar_closed then (if gzip_closed then file_closed else false) else false))
  tar_end-Grows destination modified walked = search (grows_rules, join_errors-Grows) depth 9

  module _ (destination source : String) (modified : ℕ) where
    -- What follows the creation of an archive.
    abbrev pub zip_rest : Run Unit
    zip_rest = capture (walk_package os source (visit_zip os destination modified)) >>= λ walked.
        try os (close_zip destination) >>= λ closed.
        try os (close_file destination) >>= λ file_closed.
        join_errors os walked (if closed then file_closed else false)

    abbrev pub tar_rest : Run Unit
    tar_rest = capture (walk_package os source (visit_tar os destination modified)) >>= λ walked.
        try os (close_tar destination) >>= λ tar_closed.
        try os (close_gzip destination modified) >>= λ gzip_closed.
        try os (close_file destination) >>= λ file_closed.
        join_errors os walked
          (if tar_closed then (if gzip_closed then file_closed else false) else false)

    zip_rest-Grows : Grows zip_rest
    zip_rest-Grows =
        Grows-bind _ _
          (Grows-capture _ (walk_package-Grows _ (visit_zip-Grows destination modified) source))
          (zip_end-Grows destination)

    tar_rest-Grows : Grows tar_rest
    tar_rest-Grows =
        Grows-bind _ _
          (Grows-capture _ (walk_package-Grows _ (visit_tar-Grows destination modified) source))
          (tar_end-Grows destination modified)

    pub write_zip-Grows : Grows (write_zip os destination source modified)
    unfolding write_zip
    write_zip-Grows =
        Grows-bind _ _ (Grows-act os "create zip" (create_file destination)) λ _. zip_rest-Grows

    pub write_tar_gzip-Grows : Grows (write_tar_gzip os destination source modified)
    unfolding write_tar_gzip
    write_tar_gzip-Grows =
        Grows-bind _ _ (Grows-act os "create tar archive" (create_file destination))
          λ _. tar_rest-Grows
