-- ===== src/Package/Release.antt =====
-- What a run of the packaging tool that returns has done.
use skawld_maintenance.Prelude.{
  ℕ, ◌-◌, ◌%◌, String, Bool, true, ◌≡◌, ◌≢◌, ◌⊎◌, some, List, [], ◌∷◌, Memᴰ,
}
use skawld_maintenance.Package.Machine.{Act, remove_all, Machine, missing, Done}
use skawld_maintenance.Package.Growth.{Happened}
use skawld_maintenance.Package.Root.{repository_root}
use skawld_maintenance.Package.Environment.{Target, targets}
use skawld_maintenance.Package.Files.Checksums.{IsListed}
use skawld_maintenance.Package.Build.{archive_of, release_dir_of}
use skawld_maintenance.Package.Build.Built.{IsPackaged}

module _ (os : Machine) (version commit : String) where
  -- Every target's archive was made, of binaries that were built for it, and after that the manifest
  -- got its digest.
  pub record IsReleased (root release_dir : String) (time : ℕ) (k : List Act) : Type 0 where
    pub temporary_root : String
    pub complete : List Act
    pub packaged :
        (t : Target)
        → Memᴰ t targets
        → IsPackaged os root version commit time temporary_root release_dir t complete
    pub listed :
        (t : Target)
        → Memᴰ t targets
        → IsListed os
            (os.join (release_dir ∷ "SHA256SUMS" ∷ []))
            (archive_of os release_dir version t)
            complete
            k

  module _ (sorts : (xs : List String) (x : String) → Memᴰ x xs → Memᴰ x (os.sort xs)) where
    -- What holds of the arguments and of the machine when a release begins.
    pub record IsRun (fuel : ℕ) (output : String) (clean : Bool) (time : ℕ) (k k' : List Act)
        : Type 0 where
      pub root : String
      pub j : List Act
      pub found : Done (repository_root os fuel) k root j
      pub free :
          (os.stat j (release_dir_of os root output version) ≡ missing)
          ⊎ ((clean ≡ true) × Happened os (remove_all (release_dir_of os root output version)) k')
      pub released : IsReleased root (release_dir_of os root output version) time k'

    -- The time that the archives carry: the argument, or now to the second.
    abbrev pub IsTime : String → ℕ → Type 0
    IsTime built_at time =
        ((built_at ≡ "") × (time ≡ os.now - os.now % 1000000000))
        ⊎ ((built_at ≢ "") × (os.parse_time built_at ≡ some time))
