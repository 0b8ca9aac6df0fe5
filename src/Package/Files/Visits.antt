-- ===== src/Package/Files/Visits.antt =====
-- A call of the walk that was no error entered its path in the archive.
use skawld_maintenance.Prelude.{
  ℕ, Bool, true, false, not, String, ◌<>◌, ◌≡◌, refl, ◌∙◌, Option, none, some, List, [], ◌∷◌, Memᴰ,
  if◌then◌else◌,
}
use skawld_maintenance.Package.Machine.{
  Act, Header, describe, entry, Machine, Run, Visit, visited, broken, ◌>>=◌, try, raw, Grows, Done,
  Done-bind, not-Done-fail,
}
use skawld_maintenance.Package.Growth.{
  Grows-Done, Happened, Happened-further, Happened-last, Done-try,
}
use skawld_maintenance.Package.Files.{
  visit_zip, visit_tar, after_entry, visit_one, visit_relative, visit_all,
}
use skawld_maintenance.Package.Files.Growing.{after_entry-Grows, visit_all-Grows}

-- The headers of the two formats.
abbrev pub zip_header : ℕ → String → Bool → Header
zip_header modified name is_dir = record {
  name = if is_dir then name <> "/" else name;
  modified = modified;
  deflate = not is_dir;
}

abbrev pub tar_header : ℕ → String → Bool → Header
tar_header modified name is_dir = record { name = name; modified = modified; deflate = false }

module _ (os : Machine) where
  after_entry_lem :
      (destination path : String) (is_dir b : Bool) (k k' : List Act)
      → Done (after_entry os destination path is_dir b) k tt k'
      → b ≡ true
  after_entry_lem destination path is_dir true k k' h = refl
  after_entry_lem destination path is_dir false k k' h = absurd (not-Done-fail _ k tt k' h)

  -- A try at an entry, and what follows it.
  entered_lem :
      (destination path : String) (is_dir : Bool) (a : Act) (k k' : List Act)
      → Done (try os a >>= after_entry os destination path is_dir) k tt k'
      → Happened os a k'
  entered_lem destination path is_dir a k k' h =
      let (b, i, tried, last) =
        Done-bind (try os a) (after_entry os destination path is_dir) k tt k' h in
      let (same, e) = Done-try os a k b i tried in
      Happened-further os
        (Grows-Done (after_entry os destination path is_dir b)
          (after_entry-Grows os destination path is_dir b) i tt k' last)
        (Happened-last os a k i (same ∙ after_entry_lem destination path is_dir b i k' last) e)

  module _ (destination : String) (modified : ℕ) where
    pub visit_zip_lem :
        (path name : String) (is_dir : Bool) (k k' : List Act)
        → Done (visit_zip os destination modified path name is_dir) k tt k'
        → Happened os (entry destination (zip_header modified name is_dir)) k'
    unfolding visit_zip
    visit_zip_lem path name is_dir k k' h =
        let a = entry destination (zip_header modified name is_dir) in
        let (_, j, _, rest) =
          Done-bind (raw os (describe path))
            (λ _. try os a >>= after_entry os destination path is_dir) k tt k' h in
        entered_lem destination path is_dir a j k' rest

    pub visit_tar_lem :
        (path name : String) (is_dir : Bool) (k k' : List Act)
        → Done (visit_tar os destination modified path name is_dir) k tt k'
        → Happened os (entry destination (tar_header modified name is_dir)) k'
    unfolding visit_tar
    visit_tar_lem path name is_dir k k' h =
        let a = entry destination (tar_header modified name is_dir) in
        let (_, j, _, rest) =
          Done-bind (raw os (describe path))
            (λ _. try os a >>= after_entry os destination path is_dir) k tt k' h in
        entered_lem destination path is_dir a j k' rest

  -- A call of the walk was no error, and its path, relative to the parent, is in the archive.
  pub record IsEntered (header : String → Bool → Header) (destination parent : String) (v : Visit)
      (k : List Act) : Type 0 where
    pub path : String
    pub is_dir : Bool
    pub relative : String
    pub call : v ≡ visited path is_dir
    pub inside : os.rel parent path ≡ some relative
    pub entered : Happened os (entry destination (header (os.to_slash relative) is_dir)) k

  module _ (header : String → Bool → Header) (destination : String)
      (visit : String → String → Bool → Run Unit)
      (grows : (path name : String) (is_dir : Bool) → Grows (visit path name is_dir))
      (enters : (path name : String) (is_dir : Bool) (k k' : List Act)
        → Done (visit path name is_dir) k tt k'
        → Happened os (entry destination (header name is_dir)) k') where
    visit_one_lem :
        (parent : String) (v : Visit) (k k' : List Act)
        → Done (visit_one os parent visit v) k tt k'
        → IsEntered header destination parent v k'
    visit_one_lem parent broken k k' h = absurd (not-Done-fail _ k tt k' h)
    visit_one_lem parent (visited path is_dir) k k' h = go (os.rel parent path) refl h
      where
        go :
            (o : Option String)
            → os.rel parent path ≡ o
            → Done (visit_relative os o path is_dir visit) k tt k'
            → IsEntered header destination parent (visited path is_dir) k'
        go none e h = absurd (not-Done-fail _ k tt k' h)
        go (some relative) e h = record {
          path = path;
          is_dir = is_dir;
          relative = relative;
          call = refl;
          inside = e;
          entered = enters path (os.to_slash relative) is_dir k k' h;
        }

    pub visit_all_lem :
        (parent : String) (vs : List Visit) (k k' : List Act)
        → Done (visit_all os parent visit vs) k tt k'
        → (v : Visit) → Memᴰ v vs
        → IsEntered header destination parent v k'
    unfolding visit_all
    visit_all_lem parent [] k k' h v m = elim m [ ]
    visit_all_lem parent (u ∷ vs) k k' h v m =
        let more = visit_all os parent visit vs in
        let (_, j, first, rest) = Done-bind (visit_one os parent visit u) (λ _. more) k tt k' h in
        elim m [
          | Memᴰ.tail n ↦ visit_all_lem parent vs j k' rest v n
          | Memᴰ.head e ↦
              let is = visit_one_lem parent u k j first in
              record {
                path = is.path;
                is_dir = is.is_dir;
                relative = is.relative;
                call = e ∙ is.call;
                inside = is.inside;
                entered =
                    Happened-further os
                      (Grows-Done more (visit_all-Grows os visit grows parent vs) j tt k' rest)
                      is.entered;
              }
        ]
