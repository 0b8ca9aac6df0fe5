-- ===== src/Package/Files.antt =====
-- tools/package/main.go: the copies, the archives and the manifest of checksums.
pub mod Growing
pub mod Ended
pub mod Visits
pub mod Entries
pub mod Checksums
use skawld_maintenance.Prelude.{
  ℕ, String, ◌<>◌, Bool, true, false, not, Option, none, some, List, [], ◌∷◌, if◌then◌else◌,
}
use skawld_maintenance.Errors.{Failure, Result, ok, err, text, wrapped, driver}
use skawld_maintenance.Package.Machine.{
  Act, remove_all, open_file, create_file, close_file, describe, close_zip, close_tar, close_gzip,
  copy, entry, write, Header, Visit, broken, visited, Machine, Run, pure, fail, capture, deferred,
  ◌>>=◌, ◌>>◌, try, act, raw, check, raw,
}

module _ (os : Machine) where
  abbrev pub copied : String → String → Bool → Run Unit
  copied source destination done =
      if not done
      then (try os (close_file destination)
          >> fail (wrapped ("copy package file " <> source) driver))
      else act os ("close package file " <> destination) (close_file destination)

  -- `copyFile`
  unfoldable pub copy_file : String → String → Run Unit
  unfolding act
  copy_file source destination =
      act os ("open package file " <> source) (open_file source)
      >> deferred (close_file source) (
          act os ("create package file " <> destination) (create_file destination)
          >> (try os (copy source destination) >>= copied source destination))

  -- The end of a visit: a file is copied into the archive.
  abbrev pub visit_file : String → String → Run Unit
  visit_file destination path =
      raw os (open_file path) >> deferred (close_file path) (raw os (copy path destination))

  abbrev pub after_entry : String → String → Bool → Bool → Run Unit
  after_entry destination path is_dir written =
      if not written then fail driver else if is_dir then pure tt else visit_file destination path

  -- The function that `writeZip` visits with.
  unfoldable pub visit_zip : String → ℕ → String → String → Bool → Run Unit
  unfolding raw
  visit_zip destination modified path archive_name is_dir =
      raw os (describe path)
      >> (try os (
            entry destination record {
              name = if is_dir then archive_name <> "/" else archive_name;
              modified = modified;
              deflate = not is_dir;
            })
          >>= after_entry destination path is_dir)

  -- The function that `writeTarGzip` visits with.
  unfoldable pub visit_tar : String → ℕ → String → String → Bool → Run Unit
  unfolding raw
  visit_tar destination modified path archive_name is_dir =
      raw os (describe path)
      >> (try os
            (entry destination record { name = archive_name; modified = modified; deflate = false })
          >>= after_entry destination path is_dir)

  -- The function that `walkPackage` gives to filepath.Walk, at one call.
  abbrev pub visit_relative :
      Option String → String → Bool → (String → String → Bool → Run Unit) → Run Unit
  visit_relative none path is_dir visit = fail driver
  visit_relative (some relative) path is_dir visit = visit path (os.to_slash relative) is_dir

  abbrev pub visit_one : String → (String → String → Bool → Run Unit) → Visit → Run Unit
  visit_one parent visit broken = fail driver
  visit_one parent visit (visited path is_dir) =
      visit_relative (os.rel parent path) path is_dir visit

  -- filepath.Walk: the calls in order, up to the first error.
  unfoldable pub visit_all : String → (String → String → Bool → Run Unit) → List Visit → Run Unit
  visit_all parent visit [] acts = pure tt acts
  visit_all parent visit (v ∷ rest) acts =
      (visit_one parent visit v >>= λ _. visit_all parent visit rest) acts

  -- `walkPackage`
  unfoldable pub walk_package : String → (String → String → Bool → Run Unit) → Run Unit
  unfolding visit_all
  walk_package source visit acts = visit_all (os.dir source) visit (os.walk acts source) acts

  -- errors.Join, of a result and of operations that succeeded or not; the first error stands for all.
  abbrev pub join_errors : Result (Unit {0}) → Bool → Run Unit
  join_errors (ok tt) true = pure tt
  join_errors (ok tt) false = fail driver
  join_errors (err e) closed = fail e

  -- `writeZip`
  unfoldable pub write_zip : String → String → ℕ → Run Unit
  unfolding act raw visit_zip walk_package capture
  write_zip destination source modified =
      act os "create zip" (create_file destination)
      >> (capture (walk_package source (visit_zip destination modified)) >>= λ walked.
          try os (close_zip destination) >>= λ closed.
          try os (close_file destination) >>= λ file_closed.
          join_errors walked (if closed then file_closed else false))

  -- `writeTarGzip`
  unfoldable pub write_tar_gzip : String → String → ℕ → Run Unit
  unfolding act raw visit_tar walk_package capture
  write_tar_gzip destination source modified =
      act os "create tar archive" (create_file destination)
      >> (capture (walk_package source (visit_tar destination modified)) >>= λ walked.
          try os (close_tar destination) >>= λ tar_closed.
          try os (close_gzip destination modified) >>= λ gzip_closed.
          try os (close_file destination) >>= λ file_closed.
          join_errors walked
            (if tar_closed then (if gzip_closed then file_closed else false) else false))

  -- The digest of an archive as it is when it has been read.
  abbrev pub hashed : String → Run String
  hashed path acts = (ok (os.digest acts path), acts)

  abbrev pub checksum_line : String → String → String
  checksum_line digest path = digest <> "  " <> os.base path <> "\n"

  -- One round of the loop of `writeChecksums`.
  abbrev pub write_checksum : String → String → Run Unit
  write_checksum manifest path =
      act os "open archive for checksum" (open_file path)
      >> (try os (copy path "sha256") >>= λ read. try os (close_file path) >>= λ closed.
          check os "hash archive" (if read then closed else false)
          >> (hashed path >>= λ digest.
              act os "write checksum manifest" (write manifest (checksum_line digest path))))

  unfoldable pub write_lines : String → List String → Run Unit
  unfolding act
  write_lines manifest [] acts = pure tt acts
  write_lines manifest (path ∷ rest) acts =
      (write_checksum manifest path >>= λ _. write_lines manifest rest) acts

  -- `writeChecksums`
  unfoldable pub write_checksums : String → List String → Run Unit
  unfolding write_lines
  write_checksums release_dir archives =
      let manifest = os.join (release_dir ∷ "SHA256SUMS" ∷ []) in
      act os "create checksum manifest" (create_file manifest)
      >> deferred (close_file manifest) (write_lines manifest (os.sort archives))
