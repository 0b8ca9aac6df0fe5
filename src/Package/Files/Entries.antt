-- ===== src/Package/Files/Entries.antt =====
-- An archive that was written has an entry for each call of the walk over its directory.
use skawld_maintenance.Prelude.{
  ℕ, Bool, true, false, ◌++◌, String, ◌≡◌, refl, ap, ◌∙◌, List, [], ◌∷◌, Memᴰ, if◌then◌else◌,
}
use mathlib.Core.Path.{subst}
use skawld_maintenance.Errors.{Result, ok, err}
use skawld_maintenance.Package.Machine.{
  Act, Header, entry, create_file, close_file, close_zip, close_tar, close_gzip, Machine, Run,
  Visit, capture, ◌>>=◌, ◌>>◌, try, act, Grows, Extends, Done, Done-bind, Done-inj, not-Done-fail,
}
use skawld_maintenance.Package.Growth.{
  Grows-Done, Grows-capture, Done-act, Extends-refl, Extends-trans, Happened, Happened-further,
}
use skawld_maintenance.Package.Files.{
  visit_zip, visit_tar, walk_package, join_errors, write_zip, write_tar_gzip,
}
use skawld_maintenance.Package.Files.Growing.{
  visit_zip-Grows, visit_tar-Grows, walk_package-Grows, zip_end-Grows, tar_end-Grows,
}
use skawld_maintenance.Package.Files.Visits.{
  zip_header, tar_header, visit_zip_lem, visit_tar_lem, visit_all_lem, IsEntered,
}

module _ (os : Machine) where
  Done-capture :
      {A : Type 0} (m : Run A) (k : List Act) (r : Result A) (k' : List Act)
      → Done (capture m) k r k'
      → m k ≡ (r, k')
  unfolding capture
  Done-capture m k r k' h = λ i. ((Done-inj h).0 i, (Done-inj h).1 i)

  join_errors_lem :
      (walked : Result (Unit {0})) (b : Bool) (k k' : List Act)
      → Done (join_errors os walked b) k tt k'
      → walked ≡ ok tt
  join_errors_lem (ok tt) b k k' h = refl
  join_errors_lem (err e) b k k' h = absurd (not-Done-fail _ k tt k' h)

  -- An archive: it was created at some time after `base`, and what a walk over its directory gave then
  -- was entered in it.
  pub record IsArchived (header : String → Bool → Header) (destination source : String)
      (base k : List Act) : Type 0 where
    pub before : List Act
    pub since : Extends base before
    pub created : os.succeeds before (create_file destination) ≡ true
    pub after : Extends (before ++ (create_file destination ∷ [])) k
    pub entries :
        (v : Visit)
        → Memᴰ v (os.walk (before ++ (create_file destination ∷ [])) source)
        → IsEntered os header destination (os.dir source) v k

  pub IsArchived-further :
      {header : String → Bool → Header} {destination source : String} {base k k' : List Act}
      → Extends k k'
      → IsArchived header destination source base k
      → IsArchived header destination source base k'
  IsArchived-further more is = record {
    before = is.before;
    since = is.since;
    created = is.created;
    after = Extends-trans is.after more;
    entries = λ v i.
        let e = is.entries v i in
        record {
          path = e.path;
          is_dir = e.is_dir;
          relative = e.relative;
          call = e.call;
          inside = e.inside;
          entered = Happened-further os more e.entered;
        };
  }

  pub IsArchived-since :
      {header : String → Bool → Header} {destination source : String} {base base' k : List Act}
      → Extends base base'
      → IsArchived header destination source base' k
      → IsArchived header destination source base k
  IsArchived-since less is = record {
    before = is.before;
    since = Extends-trans less is.since;
    created = is.created;
    after = is.after;
    entries = is.entries;
  }

  module _ (destination source : String) (modified : ℕ) where
    zip_end_lem :
        (walked : Result (Unit {0})) (k k' : List Act)
        → Done
            (try os (close_zip destination) >>= λ closed.
              try os (close_file destination) >>= λ file_closed.
              join_errors os walked (if closed then file_closed else false))
            k
            tt
            k'
        → walked ≡ ok tt
    zip_end_lem walked k k' h =
        let (closed, j, _, rest) =
          Done-bind (try os (close_zip destination))
            (λ closed. try os (close_file destination) >>= λ file_closed.
              join_errors os walked (if closed then file_closed else false))
            k tt k' h in
        let (file_closed, i, _, last) =
          Done-bind (try os (close_file destination))
            (λ file_closed. join_errors os walked (if closed then file_closed else false)) j tt k'
            rest in
        join_errors_lem walked _ i k' last

    tar_end_lem :
        (walked : Result (Unit {0})) (k k' : List Act)
        → Done
            (try os (close_tar destination) >>= λ tar_closed.
              try os (close_gzip destination modified) >>= λ gzip_closed.
              try os (close_file destination) >>= λ file_closed.
              join_errors os walked
                (if tar_closed then (if gzip_closed then file_closed else false) else false))
            k
            tt
            k'
        → walked ≡ ok tt
    tar_end_lem walked k k' h =
        let joined : Bool → Bool → Bool → Run Unit =
          λ a b c. join_errors os walked (if a then (if b then c else false) else false) in
        let (a, j, _, rest) =
          Done-bind (try os (close_tar destination))
            (λ a. try os (close_gzip destination modified) >>= λ b.
              try os (close_file destination) >>= λ c. joined a b c)
            k tt k' h in
        let (b, i, _, more) =
          Done-bind (try os (close_gzip destination modified))
            (λ b. try os (close_file destination) >>= λ c. joined a b c) j tt k' rest in
        let (c, l, _, last) =
          Done-bind (try os (close_file destination)) (λ c. joined a b c) i tt k' more in
        join_errors_lem walked _ l k' last

    -- What both writers do: the archive is created, its directory walked, and all is closed.
    archived_lem :
        (header : String → Bool → Header) (visit : String → String → Bool → Run Unit)
        (grows : (path name : String) (is_dir : Bool) → Grows (visit path name is_dir))
        (enters : (path name : String) (is_dir : Bool) (k k' : List Act)
          → Done (visit path name is_dir) k tt k'
          → Happened os (entry destination (header name is_dir)) k')
        (message : String) (finish : Result (Unit {0}) → Run Unit)
        (finish-Grows : (walked : Result (Unit {0})) → Grows (finish walked))
        (finish_lem : (walked : Result (Unit {0})) (k k' : List Act)
          → Done (finish walked) k tt k'
          → walked ≡ ok tt)
        (k k' : List Act)
        → Done
            (act os message (create_file destination)
              >> (capture (walk_package os source visit) >>= finish))
            k
            tt
            k'
        → IsArchived header destination source k k'
    unfolding walk_package
    archived_lem header visit grows enters message finish finish-Grows finish_lem k k' h =
        let walk = walk_package os source visit in
        let (_, j, made, rest) =
          Done-bind (act os message (create_file destination)) (λ _. capture walk >>= finish) k tt
            k' h in
        let (walked, i, captured, last) = Done-bind (capture walk) finish j tt k' rest in
        let good : Done walk j tt i =
          Done-capture walk j walked i captured
          ∙ ap (λ (r : Result (Unit {0})). (r, i)) (finish_lem walked i k' last) in
        let (created, e) = Done-act os message (create_file destination) k j made in
        let walked_all =
          subst
            (λ x.
              (v : Visit)
              → Memᴰ v (os.walk x source)
              → IsEntered os header destination (os.dir source) v i)
            e
            (visit_all_lem os header destination visit grows enters (os.dir source)
              (os.walk j source) j i good) in
        let grown =
          Grows-Done (capture walk) (Grows-capture walk (walk_package-Grows os visit grows source))
            j walked i captured in
        let is : IsArchived header destination source k i = record {
          before = k;
          since = Extends-refl k;
          created = created;
          after = subst (λ x. Extends x i) e grown;
          entries = walked_all;
        } in
        IsArchived-further (Grows-Done (finish walked) (finish-Grows walked) i tt k' last) is

    -- An archive that was written is one.
    pub write_zip-IsArchived :
        (k k' : List Act)
        → Done (write_zip os destination source modified) k tt k'
        → IsArchived (zip_header modified) destination source k k'
    unfolding write_zip
    write_zip-IsArchived =
        archived_lem (zip_header modified) (visit_zip os destination modified)
          (visit_zip-Grows os destination modified) (visit_zip_lem os destination modified)
          "create zip" _ (zip_end-Grows os destination) zip_end_lem

    pub write_tar_gzip-IsArchived :
        (k k' : List Act)
        → Done (write_tar_gzip os destination source modified) k tt k'
        → IsArchived (tar_header modified) destination source k k'
    unfolding write_tar_gzip
    write_tar_gzip-IsArchived =
        archived_lem (tar_header modified) (visit_tar os destination modified)
          (visit_tar-Grows os destination modified) (visit_tar_lem os destination modified)
          "create tar archive" _ (tar_end-Grows os destination modified) tar_end_lem
