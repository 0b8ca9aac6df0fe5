-- ===== src/Package/Files/Ended.antt =====
-- The file operations of the packaging tool return on a machine where every operation succeeds.
use skawld_maintenance.Prelude.{
  ℕ, Bool, true, false, String, ◌≡◌, refl, sym, some, List, [], ◌∷◌, Memᴰ, if◌then◌else◌,
}
use mathlib.Core.Path.{subst}
use skawld_maintenance.Errors.{Result, ok}
use skawld_maintenance.Package.Machine.{
  Act, Machine, Run, Visit, visited, ◌>>=◌, close_file, close_zip, close_tar, close_gzip, try,
}
use skawld_maintenance.Package.Endings.{
  Ends, Ends-pure, Ends-deferred, Ends-state, Ends-bind, Ends-capture, Ends-try, Ends-act, Ends-raw,
}
use skawld_maintenance.Package.Files.{
  join_errors, copied, copy_file, after_entry, visit_zip, visit_tar, visit_relative, visit_one,
  visit_all, walk_package, write_zip, write_tar_gzip, hashed, write_checksum, write_lines,
  write_checksums,
}

module _ (os : Machine) (all : (k : List Act) (a : Act) → os.succeeds k a ≡ true) where
  pub copy_file-Ends : (source destination : String) → Ends (copy_file os source destination)
  unfolding copy_file
  copy_file-Ends source destination = Ends-bind _ _ (Ends-act os all _ _) λ _. Ends-deferred _ _ (
      Ends-bind _ _ (Ends-act os all _ _)
        λ _. Ends-try os all _ (copied os source destination) (Ends-act os all _ _))

  after_entry-Ends :
      (destination path : String) (is_dir : Bool)
      → Ends (after_entry os destination path is_dir true)
  after_entry-Ends destination path true = Ends-pure tt
  after_entry-Ends destination path false =
      Ends-bind _ _ (Ends-raw os all _) λ _. Ends-deferred _ _ (Ends-raw os all _)

  visit_zip-Ends :
      (destination : String) (modified : ℕ) (path name : String) (is_dir : Bool)
      → Ends (visit_zip os destination modified path name is_dir)
  unfolding visit_zip
  visit_zip-Ends destination modified path name is_dir = Ends-bind _ _ (Ends-raw os all _) λ _.
      Ends-try os all _ (after_entry os destination path is_dir)
        (after_entry-Ends destination path is_dir)

  visit_tar-Ends :
      (destination : String) (modified : ℕ) (path name : String) (is_dir : Bool)
      → Ends (visit_tar os destination modified path name is_dir)
  unfolding visit_tar
  visit_tar-Ends destination modified path name is_dir = Ends-bind _ _ (Ends-raw os all _) λ _.
      Ends-try os all _ (after_entry os destination path is_dir)
        (after_entry-Ends destination path is_dir)

  -- A call of the walk that is no error, at a path that is below the parent.
  pub record IsBelow (parent : String) (v : Visit) : Type 0 where
    pub path : String
    pub is_dir : Bool
    pub relative : String
    pub call : v ≡ visited path is_dir
    pub inside : os.rel parent path ≡ some relative

  module _
      (walks : (k : List Act) (p : String) (v : Visit)
        → Memᴰ v (os.walk k p)
        → IsBelow (os.dir p) v) where
    module _ (visit : String → String → Bool → Run Unit)
        (ends : (path name : String) (is_dir : Bool) → Ends (visit path name is_dir)) where
      visit_one-Ends :
          (parent : String) (v : Visit) → IsBelow parent v → Ends (visit_one os parent visit v)
      visit_one-Ends parent v is =
          subst (λ v. Ends (visit_one os parent visit v)) (sym is.call)
            (subst (λ o. Ends (visit_relative os o is.path is.is_dir visit)) (sym is.inside)
              (ends is.path (os.to_slash is.relative) is.is_dir))

      visit_all-Ends :
          (parent : String) (vs : List Visit)
          → ((v : Visit) → Memᴰ v vs → IsBelow parent v)
          → Ends (visit_all os parent visit vs)
      unfolding visit_all
      visit_all-Ends parent [] below = Ends-pure tt
      visit_all-Ends parent (v ∷ vs) below =
          Ends-bind _ _ (visit_one-Ends parent v (below v (Memᴰ.head refl)))
            (λ _. visit_all-Ends parent vs (λ u m. below u (Memᴰ.tail m)))

      walk_package-Ends : (source : String) → Ends (walk_package os source visit)
      unfolding walk_package
      walk_package-Ends source =
          Ends-state (λ acts. visit_all os (os.dir source) visit (os.walk acts source))
            λ k. visit_all-Ends (os.dir source) (os.walk k source) (walks k source)

    -- The ends of the two writers, from each closing on.
    abbrev close_last : String → Result (Unit {0}) → Bool → Run Unit
    close_last destination walked a =
        try os (close_file destination) >>= λ b. join_errors os walked (if a then b else false)

    abbrev close_both : String → Result (Unit {0}) → Run Unit
    close_both destination walked = try os (close_zip destination) >>= close_last destination walked

    abbrev close_tarball : String → Result (Unit {0}) → Bool → Bool → Run Unit
    close_tarball destination walked a b = try os (close_file destination) >>= λ c.
        join_errors os walked (if a then (if b then c else false) else false)

    abbrev close_stream : String → ℕ → Result (Unit {0}) → Bool → Run Unit
    close_stream destination modified walked a =
        try os (close_gzip destination modified) >>= close_tarball destination walked a

    abbrev close_three : String → ℕ → Result (Unit {0}) → Run Unit
    close_three destination modified walked =
        try os (close_tar destination) >>= close_stream destination modified walked

    pub write_zip-Ends :
        (destination source : String) (modified : ℕ)
        → Ends (write_zip os destination source modified)
    unfolding write_zip
    write_zip-Ends destination source modified = Ends-bind _ _ (Ends-act os all _ _) λ _.
        Ends-capture _ (close_both destination)
          (walk_package-Ends _ (visit_zip-Ends destination modified) source)
          λ _.
            Ends-try os all (close_zip destination) (λ a. close_last destination (ok tt) a)
              (Ends-try os all (close_file destination)
                (λ b. join_errors os (ok tt) (if true then b else false)) (Ends-pure tt))

    pub write_tar_gzip-Ends :
        (destination source : String) (modified : ℕ)
        → Ends (write_tar_gzip os destination source modified)
    unfolding write_tar_gzip
    write_tar_gzip-Ends destination source modified = Ends-bind _ _ (Ends-act os all _ _) λ _.
        Ends-capture _ (close_three destination modified)
          (walk_package-Ends _ (visit_tar-Ends destination modified) source)
          λ _.
            Ends-try os all (close_tar destination)
              (λ a. close_stream destination modified (ok tt) a)
              (Ends-try os all (close_gzip destination modified)
                (λ b. close_tarball destination (ok tt) true b)
                (Ends-try os all (close_file destination)
                  (λ c.
                    join_errors os (ok tt) (if true then (if true then c else false) else false))
                  (Ends-pure tt)))

  hashed-Ends : (path : String) → Ends (hashed os path)
  hashed-Ends path = record { at = λ k. (os.digest k path, k, refl) }

  write_checksum-Ends : (manifest path : String) → Ends (write_checksum os manifest path)
  write_checksum-Ends manifest path = Ends-bind _ _ (Ends-act os all _ _) λ _. Ends-try os all _ _ (
      Ends-try os all _ _ (
        Ends-bind _ _ (Ends-pure tt)
          λ _. Ends-bind _ _ (hashed-Ends path) λ _. Ends-act os all _ _))

  write_lines-Ends :
      (manifest : String) (paths : List String) → Ends (write_lines os manifest paths)
  unfolding write_lines
  write_lines-Ends manifest [] = Ends-pure tt
  write_lines-Ends manifest (p ∷ ps) =
      Ends-bind _ _ (write_checksum-Ends manifest p) (λ _. write_lines-Ends manifest ps)

  pub write_checksums-Ends :
      (release_dir : String) (archives : List String)
      → Ends (write_checksums os release_dir archives)
  unfolding write_checksums
  write_checksums-Ends release_dir archives =
      Ends-bind _ _ (Ends-act os all _ _)
        λ _. Ends-deferred _ _ (write_lines-Ends _ (os.sort archives))
