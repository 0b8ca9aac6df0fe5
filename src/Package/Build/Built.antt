-- ===== src/Package/Build/Built.antt =====
-- What has been done when the archives are there.
use skawld_maintenance.Prelude.{
  Bool, if◌then◌else◌, String, ℕ, List, [], ◌∷◌, ◌++◌, ◌==◌, ◌≡◌, sym, ap, ◌∙◌, inl, inr, map, Memᴰ,
  Bool-cases,
}
use mathlib.Core.Path.{subst}
use mathlib.Core.List.{append-nil, append_assoc}
use skawld_maintenance.Package.Machine.{
  Header, Act, mkdir_all, Machine, Run, pure, ◌>>◌, act, Grows, Extends, Done, Done-bind, Done-pure,
  not-Done-fail,
}
use skawld_maintenance.Package.Growth.{
  Grows-pure, Grows-fail, Grows-if, Grows-bind, Grows-act, Grows-Done, Extends-trans,
}
use skawld_maintenance.Package.Environment.{Target}
use skawld_maintenance.Package.Files.{copy_file}
use skawld_maintenance.Package.Files.Growing.{
  copy_file-Grows, write_zip-Grows, write_tar_gzip-Grows,
}
use skawld_maintenance.Package.Build.{
  binaries, package_name, build_binaries, write_archive, archive_of, build_target_archive,
  build_archives,
}
use skawld_maintenance.Package.Files.Visits.{zip_header, tar_header}
use skawld_maintenance.Package.Files.Entries.{
  IsArchived, IsArchived-further, IsArchived-since, write_zip-IsArchived, write_tar_gzip-IsArchived,
}
use skawld_maintenance.Package.Build.Binaries.{IsBuilt, build_binaries-Grows, build_binaries_lem}

module _ (os : Machine) (root version commit : String) (built_at : ℕ) where
  module _ (temporary_root release_dir : String) where
    abbrev staging_of : Target → String
    staging_of t = os.join (temporary_root ∷ package_name version t ∷ [])

    -- The headers of the target's format.
    abbrev pub header_of : Target → String → Bool → Header
    header_of t = if t.format == "zip" then zip_header built_at else tar_header built_at

    -- The binaries of a target were built, and after them its archive was made of the staging directory.
    pub record IsPackaged (t : Target) (k : List Act) : Type 0 where
      pub ready : List Act
      pub built :
          (b : String)
          → Memᴰ b binaries
          → IsBuilt os root version commit built_at (staging_of t) t b ready
      pub archived :
          IsArchived os (header_of t) (archive_of os release_dir version t) (staging_of t) ready k

    pub further : {t : Target} {k k' : List Act} → Extends k k' → IsPackaged t k → IsPackaged t k'
    further more p = record {
      ready = p.ready;
      built = p.built;
      archived = IsArchived-further os more p.archived;
    }

    write_archive-Grows :
        (t : Target) (path staging : String) → Grows (write_archive os t path staging built_at)
    write_archive-Grows t path staging =
        Grows-if (t.format == "zip") _ _ (write_zip-Grows os path staging built_at) (
          Grows-if (t.format == "tar.gz") _ _ (write_tar_gzip-Grows os path staging built_at)
            (Grows-fail _))

    -- The format is one of the two, and the archive was made in it.
    write_archive-IsArchived :
        (t : Target) (path staging : String) (k k' : List Act)
        → Done (write_archive os t path staging built_at) k tt k'
        → IsArchived os (header_of t) path staging k k'
    write_archive-IsArchived t path staging k k' h = elim (Bool-cases (t.format == "zip")) [
      | inl zip ↦ rw zip (write_zip-IsArchived os path staging built_at k k' (rw zip at h))
      | inr other ↦ elim (Bool-cases (t.format == "tar.gz")) [
        | inl tar ↦
            rw other
              (write_tar_gzip-IsArchived os path staging built_at k k' (rw (other, tar) at h))
        | inr unknown ↦ absurd (not-Done-fail _ k tt k' (rw (other, unknown) at h))
      ]
    ]

    abbrev finish_archive : Target → Run String
    finish_archive t =
        write_archive os t (archive_of os release_dir version t) (staging_of t) built_at
        >> pure (archive_of os release_dir version t)

    abbrev copy_contract : Target → Run Unit
    copy_contract t =
        copy_file os (os.join (root ∷ "api" ∷ "openapi.yaml" ∷ []))
          (os.join (staging_of t ∷ "contracts" ∷ "openapi.yaml" ∷ []))

    abbrev copy_example : Target → Run Unit
    copy_example t =
        copy_file os (os.join (root ∷ ".env.example" ∷ []))
          (os.join (staging_of t ∷ ".env.example" ∷ []))

    abbrev copy_readme : Target → Run Unit
    copy_readme t =
        copy_file os (os.join (root ∷ "deployments" ∷ "packages" ∷ "README.txt" ∷ []))
          (os.join (staging_of t ∷ "README.txt" ∷ []))

    -- What follows the builds.
    abbrev copies : Target → Run String
    copies t = copy_readme t >> (copy_example t >> (copy_contract t >> finish_archive t))

    copies-Grows : (t : Target) → Grows (copies t)
    copies-Grows t = Grows-bind _ _ (copy_file-Grows os _ _) λ _.
        Grows-bind _ _ (copy_file-Grows os _ _) λ _.
          Grows-bind _ _ (copy_file-Grows os _ _)
            λ _. Grows-bind _ _ (write_archive-Grows t _ _) λ _. Grows-pure _

    copies_lem :
        (t : Target) (k : List Act) (path : String) (k' : List Act)
        → Done (copies t) k path k'
        → (path ≡ archive_of os release_dir version t)
          × IsArchived os (header_of t) (archive_of os release_dir version t) (staging_of t) k k'
    copies_lem t k path k' h =
        let archive = archive_of os release_dir version t in
        let writing = write_archive os t archive (staging_of t) built_at in
        let (_, k3, m3, h3) =
          Done-bind (copy_readme t) (λ _. copy_example t >> (copy_contract t >> finish_archive t)) k
            path k' h in
        let (_, k4, m4, h4) =
          Done-bind (copy_example t) (λ _. copy_contract t >> finish_archive t) k3 path k' h3 in
        let (_, k5, m5, h5) = Done-bind (copy_contract t) (λ _. finish_archive t) k4 path k' h4 in
        let (_, k6, written, h6) = Done-bind writing (λ _. pure archive) k5 path k' h5 in
        let (same, last) = Done-pure archive k6 path k' h6 in
        (
          sym same,
          subst (λ x. IsArchived os (header_of t) archive (staging_of t) k x) last
              (IsArchived-since os
                (Extends-trans (Grows-Done (copy_readme t) (copy_file-Grows os _ _) k tt k3 m3) (
                  Extends-trans (Grows-Done (copy_example t) (copy_file-Grows os _ _) k3 tt k4 m4)
                    (Grows-Done (copy_contract t) (copy_file-Grows os _ _) k4 tt k5 m5)))
                (write_archive-IsArchived t archive (staging_of t) k5 k6 written)),
        )

    abbrev staging_made : Target → Run Unit
    staging_made t =
        act os "create staging directory" (mkdir_all (os.join (staging_of t ∷ "contracts" ∷ [])))

    abbrev build_all : Target → Run Unit
    build_all t = build_binaries os root (staging_of t) version commit built_at t binaries

    build_target-Grows :
        (t : Target)
        → Grows (build_target_archive os root temporary_root release_dir version commit built_at t)
    unfolding build_target_archive
    build_target-Grows t =
        Grows-bind (staging_made t) (λ _. build_all t >> copies t) (Grows-act os _ _)
          λ _.
            Grows-bind (build_all t) (λ _. copies t)
              (build_binaries-Grows os root version commit built_at (staging_of t) t binaries)
              λ _. copies-Grows t

    build_target_lem :
        (t : Target) (k : List Act) (path : String) (k' : List Act)
        → Done
            (build_target_archive os root temporary_root release_dir version commit built_at t)
            k
            path
            k'
        → (path ≡ archive_of os release_dir version t) × IsPackaged t k'
    unfolding build_target_archive
    build_target_lem t k path k' h =
        let (_, k1, _, h1) =
          Done-bind (staging_made t) (λ _. build_all t >> copies t) k path k' h in
        let (_, k2, built, h2) = Done-bind (build_all t) (λ _. copies t) k1 path k' h1 in
        let (same, created) = copies_lem t k2 path k' h2 in
        (
          same,
          record {
            ready = k2;
            built =
                build_binaries_lem os root version commit built_at (staging_of t) t binaries k1 k2
                  built;
            archived = created;
          },
        )

    abbrev pub archives_of : List Target → List String
    archives_of ts = map (archive_of os release_dir version) ts

    abbrev build_rest : List String → List Target → Run (List String)
    build_rest = build_archives os root temporary_root release_dir version commit built_at

    pub build_archives-Grows :
        (archives : List String) (ts : List Target) → Grows (build_rest archives ts)
    unfolding build_archives
    build_archives-Grows archives [] = Grows-pure archives
    build_archives-Grows archives (t ∷ ts) =
        Grows-bind _ _ (build_target-Grows t)
          (λ path. build_archives-Grows (archives ++ (path ∷ [])) ts)

    -- The loop over targets returns the path of each target's archive, in order, each packaged.
    pub build_archives_lem :
        (archives : List String) (ts : List Target) (k : List Act) (paths : List String)
        (k' : List Act)
        → Done (build_rest archives ts) k paths k'
        → (paths ≡ archives ++ archives_of ts) × ((t : Target) → Memᴰ t ts → IsPackaged t k')
    unfolding build_archives
    build_archives_lem archives [] k paths k' h =
        let (same, _) = Done-pure archives k paths k' h in
        (sym same ∙ sym (append-nil archives), λ t m. elim m [ ])
    build_archives_lem archives (t ∷ ts) k paths k' h =
        let one =
          build_target_archive os root temporary_root release_dir version commit built_at t in
        let more : String → Run (List String) = λ path. build_rest (archives ++ (path ∷ [])) ts in
        let (path, j, first, rest) = Done-bind one more k paths k' h in
        let (path_eq, packaged) = build_target_lem t k path j first in
        let (same, others) = build_archives_lem (archives ++ (path ∷ [])) ts j paths k' rest in
        (
          same
              ∙ append_assoc archives (path ∷ []) (archives_of ts)
              ∙ ap (λ (p : String). archives ++ (p ∷ archives_of ts)) path_eq,
          λ u m. elim m [
            | Memᴰ.head e ↦
                subst (λ u. IsPackaged u k') (sym e)
                  (further
                    (Grows-Done (more path) (build_archives-Grows (archives ++ (path ∷ [])) ts) j
                      paths k' rest)
                    packaged)
            | Memᴰ.tail n ↦ others u n
          ],
        )
