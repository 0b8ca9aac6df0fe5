-- ===== src/Package/Files/Checksums.antt =====
-- The manifest of checksums has a line for each archive, with its digest after it was read.
use skawld_maintenance.Prelude.{
  Memᴰ, Bool, true, false, ◌≡◌, refl, ◌∙◌, ◌++◌, String, List, [], ◌∷◌, sym, if◌then◌else◌,
}
use mathlib.Core.Path.{subst}
use skawld_maintenance.Package.Machine.{
  Act, Extends, Machine, Run, create_file, open_file, close_file, copy, write, ◌>>=◌, ◌>>◌, Grows,
  Done, Done-bind, Done-inj, try, check, act, deferred,
}
use skawld_maintenance.Package.Growth.{
  Grows-pure, Grows-bind, Grows-act, Grows-deferred, Grows-Done, Done-deferred, Done-act, Done-try,
  Done-check, Grows-try, Grows-check, Happened, Happened-further, Happened-last, Extends-refl,
  Extends-trans, Extends-one, Extends-same, grows_rules,
}
use skawld_maintenance.Package.Files.{
  hashed, checksum_line, write_checksum, write_lines, write_checksums,
}

module _ (os : Machine) where
  hashed-Grows : (path : String) → Grows (hashed os path)
  hashed-Grows path = record { at = Extends-refl }

  write_checksum-Grows : (manifest path : String) → Grows (write_checksum os manifest path)
  write_checksum-Grows manifest path = search (grows_rules, hashed-Grows) depth 14

  write_lines-Grows :
      (manifest : String) (paths : List String) → Grows (write_lines os manifest paths)
  unfolding write_lines
  write_lines-Grows manifest [] = Grows-pure tt
  write_lines-Grows manifest (p ∷ ps) =
      Grows-bind _ _ (write_checksum-Grows manifest p) (λ _. write_lines-Grows manifest ps)

  module _ (manifest path : String) where
    -- The archive was read to its end after `base`, and right after that the line with its digest, as
    -- it was then, was written.
    pub record IsListed (base k : List Act) : Type 0 where
      pub before : List Act
      pub read : Happened os (copy path "sha256") before
      pub since : Extends base before
      pub written :
          os.succeeds before (write manifest (checksum_line os (os.digest before path) path)) ≡ true
      pub after :
          Extends
            (before ++ (write manifest (checksum_line os (os.digest before path) path) ∷ []))
            k

    pub IsListed-further :
        {base base' k k' : List Act}
        → Extends base base'
        → Extends k k'
        → IsListed base' k
        → IsListed base k'
    IsListed-further less more l = record {
      before = l.before;
      read = l.read;
      since = Extends-trans less l.since;
      written = l.written;
      after = Extends-trans l.after more;
    }

    was_read : (read closed : Bool) → (if read then closed else false) ≡ true → (read ≡ true)
    was_read true closed h = refl
    was_read false closed h = cc

    abbrev write_line : String → Run Unit
    write_line digest =
        act os "write checksum manifest" (write manifest (checksum_line os digest path))

    write_checksum_lem :
        (k k' : List Act) → Done (write_checksum os manifest path) k tt k' → IsListed k k'
    write_checksum_lem k k' h =
        let hashing : Run Unit = hashed os path >>= λ digest. write_line digest in
        let after_read : Bool → Bool → Run Unit =
          λ read closed. check os "hash archive" (if read then closed else false) >> hashing in
        let reading : Run Unit = try os (copy path "sha256") >>= λ read.
        try os (close_file path) >>= λ closed. after_read read closed in
        let (_, k1, h1', h1) =
          Done-bind (act os "open archive for checksum" (open_file path)) (λ _. reading) k tt k'
            h in
        let (read, k2, h2', h2) =
          Done-bind (try os (copy path "sha256"))
            (λ read. try os (close_file path) >>= λ closed. after_read read closed) k1 tt k' h1 in
        let (closed, k3, h3'', h3) =
          Done-bind (try os (close_file path)) (λ closed. after_read read closed) k2 tt k' h2 in
        let (_, k4, h3', h4) =
          Done-bind (check os "hash archive" (if read then closed else false)) (λ _. hashing) k3 tt
            k' h3 in
        let (digest, k5, same, h5) = Done-bind (hashed os path) write_line k4 tt k' h4 in
        let (drawn, stays) = Done-inj same in
        let (good, e) = Done-act os _ (write manifest (checksum_line os digest path)) k5 k' h5 in
        let (r, e2) = Done-try os (copy path "sha256") k1 read k2 h2' in
        let joined = Done-check os "hash archive" (if read then closed else false) k3 k4 h3' in
        let to_k3 = Grows-Done (try os (close_file path)) (Grows-try os _) k2 closed k3 h3'' in
        let to_k4 =
          Grows-Done (check os "hash archive" (if read then closed else false)) (Grows-check os _ _)
            k3 tt k4 h3' in
        let first =
          Grows-Done (act os "open archive for checksum" (open_file path)) (Grows-act os _ _) k tt
            k1 h1' in
        let line : String → Act = λ d. write manifest (checksum_line os d path) in
        record {
          before = k4;
          read =
              Happened-further os (Extends-trans to_k3 to_k4)
                (Happened-last os (copy path "sha256") k1 k2 (r ∙ was_read read closed joined) e2);
          since = Extends-trans first (
              Extends-trans (Extends-one (copy path "sha256") k1 k2 e2)
                (Extends-trans to_k3 to_k4));
          written = (λ i. os.succeeds (stays i) (line (drawn i))) ∙ good;
          after =
              Extends-same (k4 ++ (line (os.digest k4 path) ∷ [])) k'
                (e ∙ (λ i. sym stays i ++ (line (sym drawn i) ∷ [])));
        }

  write_lines_lem :
      (manifest : String) (paths : List String) (k k' : List Act)
      → Done (write_lines os manifest paths) k tt k'
      → (p : String) → Memᴰ p paths
      → IsListed manifest p k k'
  unfolding write_lines
  write_lines_lem manifest [] k k' h p m = elim m [ ]
  write_lines_lem manifest (q ∷ paths) k k' h p m =
      let more = write_lines os manifest paths in
      let one = write_checksum os manifest q in
      let (_, j, first, rest) = Done-bind one (λ _. more) k tt k' h in
      elim m [
        | Memᴰ.tail n ↦
            IsListed-further manifest p
              (Grows-Done one (write_checksum-Grows manifest q) k tt j first) (Extends-refl k')
              (write_lines_lem manifest paths j k' rest p n)
        | Memᴰ.head e ↦
            IsListed-further manifest p (Extends-refl k)
              (Grows-Done more (write_lines-Grows manifest paths) j tt k' rest)
              (subst (λ p. IsListed manifest p k j) (sym e)
                (write_checksum_lem manifest q k j first))
      ]

  pub write_checksums_lem :
      (release_dir : String) (archives : List String) (k k' : List Act)
      → Done (write_checksums os release_dir archives) k tt k'
      → (p : String) → Memᴰ p (os.sort archives)
      → IsListed (os.join (release_dir ∷ "SHA256SUMS" ∷ [])) p k k'
  unfolding write_checksums
  write_checksums_lem release_dir archives k k' h p m =
      let manifest = os.join (release_dir ∷ "SHA256SUMS" ∷ []) in
      let lines = write_lines os manifest (os.sort archives) in
      let creating = act os "create checksum manifest" (create_file manifest) in
      let (_, j, made, rest) =
        Done-bind creating (λ _. deferred (close_file manifest) lines) k tt k' h in
      let (i, written, last) = Done-deferred (close_file manifest) lines j tt k' rest in
      IsListed-further manifest p (Grows-Done creating (Grows-act os _ _) k tt j made)
        (Extends-one (close_file manifest) i k' last)
        (write_lines_lem manifest (os.sort archives) j i written p m)

  pub write_checksums-Grows :
      (release_dir : String) (archives : List String)
      → Grows (write_checksums os release_dir archives)
  unfolding write_checksums
  write_checksums-Grows release_dir archives =
      Grows-bind _ _ (Grows-act os _ _)
        λ _. Grows-deferred _ _ (write_lines-Grows _ (os.sort archives))
