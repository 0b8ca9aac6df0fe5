-- ===== src/Package/Machine.antt =====
-- What the packaging tool does to the machine, and programs that do it.
use skawld_maintenance.Prelude.{
  ℕ, String, ◌≡◌, refl, ap, Bool, true, false, Option, List, [], ◌∷◌, ◌++◌,
}
use skawld_maintenance.Errors.{Failure, wrapped, driver, Result, ok, err}

-- The header of an archive's entry, as far as the tool sets it.
pub record Header : Type 0 where
  pub name : String
  pub modified : ℕ
  pub deflate : Bool

-- An operation that may change the machine or fail. `go_build` has the directory, the arguments and
-- the environment; `describe` makes the header of a file; the writers of archives are known by the
-- path of the archive, and the one of a gzip stream has the time in its header.
pub data Act : Type 0 where
  remove_all mkdir_all mkdir_temp open_file create_file close_file describe close_zip close_tar :
      String → Act
  close_gzip : String → ℕ → Act
  go_build : String → List String → List String → Act
  copy : String → String → Act
  entry : String → Header → Act
  write : String → String → Act

-- os.Stat: a file, regular or not, none, or another error.
pub data Stat : Type 0 where
  present : Bool → Stat
  missing unreadable : Stat

-- A call of filepath.Walk's function: an error, or a path and whether it is a directory.
pub data Visit : Type 0 where
  broken : Visit
  visited : String → Bool → Visit

-- What the machine and the libraries answer, after the operations that were attempted. Times are
-- nanoseconds; `format_time` is RFC 3339.
pub record Machine : Type 0 where
  pub succeeds : List Act → Act → Bool
  pub stat : List Act → String → Stat
  pub temporary : List Act → String
  pub walk : List Act → String → List Visit
  pub digest : List Act → String → String
  pub getwd : Option String
  pub environ : List String
  pub now : ℕ
  pub parse_time : String → Option ℕ
  pub format_time : ℕ → String
  pub join : List String → String
  pub dir : String → String
  pub base : String → String
  pub rel : String → String → Option String
  pub to_slash : String → String
  pub is_abs : String → Bool
  pub sort : List String → List String

abbrev pub Run : Type 0 → Type 0
Run A = List Act → Result A × List Act

module _ {A : Type 0} where
  unfoldable pub pure : A → Run A
  pure a acts = (ok a, acts)

  unfoldable pub fail : Failure → Run A
  fail e acts = (err e, acts)

  -- The result of a program as a value.
  unfoldable pub capture : Run A → Run (Result A)
  capture m acts = let (r, acts') = m acts in (ok r, acts')

  -- `defer`, of an operation whose error is ignored.
  unfoldable pub deferred : Act → Run A → Run A
  deferred a m acts = let (r, acts') = m acts in (r, acts' ++ (a ∷ []))

module _ {A B : Type 0} where
  abbrev pub continue : Result A → (A → Run B) → Run B
  continue (ok a) f acts = f a acts
  continue (err e) f acts = (err e, acts)

  infixl 5 ◌>>=◌ ◌>>◌
  unfoldable pub ◌>>=◌ : Run A → (A → Run B) → Run B
  unfolding pure fail capture deferred
  ◌>>=◌ m f acts = let (r, acts') = m acts in continue r f acts'

  abbrev pub ◌>>◌ : Run A → Run B → Run B
  m >> n = m >>= λ _. n

module _ (os : Machine) where
  -- Whether an operation succeeded.
  unfoldable pub try : Act → Run Bool
  try a acts = (ok (os.succeeds acts a), acts ++ (a ∷ []))

  abbrev pub check : String → Bool → Run Unit
  check message true = pure tt
  check message false = fail (wrapped message driver)

  abbrev pub check_raw : Bool → Run Unit
  check_raw true = pure tt
  check_raw false = fail driver

  -- `if err := …; err != nil { return err }`
  unfoldable pub raw : Act → Run Unit
  unfolding try ◌>>=◌
  raw a = try a >>= check_raw

  -- `if err := …; err != nil { return fmt.Errorf("…: %w", err) }`
  unfoldable pub act : String → Act → Run Unit
  unfolding try ◌>>=◌
  act message a = try a >>= check message

-- The second history goes on from the first.
pub record Extends (k k' : List Act) : Type 0 where
  pub more : List Act
  pub same : k' ≡ k ++ more

module _ {A : Type 0} where
  -- The program returns `a`, and has attempted `acts'` then.
  abbrev pub Done : Run A → List Act → A → List Act → Type 0
  Done m acts a acts' = m acts ≡ (ok a, acts')

  pub Done-inj :
      {a b : A} {k k' : List Act}
      → ◌≡◌ {A = Result A × List Act} (ok a, k) (ok b, k')
      → (a ≡ b) × (k ≡ k')
  Done-inj h = (cc, cc)

  pub not-Done-fail :
      (e : Failure) (k : List Act) (a : A) (k' : List Act) → ¬ (Done (fail e) k a k')
  unfolding fail
  not-Done-fail e k a k' h = cc (ap (λ (x : Result A × List Act). x.0) h)

  pub Done-pure :
      (a : A) (k : List Act) (b : A) (k' : List Act) → Done (pure a) k b k' → (a ≡ b) × (k ≡ k')
  unfolding pure
  Done-pure a k b k' h = Done-inj h

  -- A program only adds to what was attempted.
  pub record Grows (m : Run A) : Type 0 where
    pub at : (k : List Act) → Extends k (m k).1

module _ {A B : Type 0} where
  pub Done-bind :
      (m : Run A) (f : A → Run B) (k : List Act) (b : B) (k' : List Act)
      → Done (m >>= f) k b k'
      → (a : A) × (j : List Act) × Done m k a j × Done (f a) j b k'
  unfolding ◌>>=◌
  Done-bind m f k b k' h = go (m k).0 (m k).1 refl h
    where
      go :
          (r : Result A) (j : List Act)
          → m k ≡ (r, j)
          → continue r f j ≡ (ok b, k')
          → (a : A) × (j : List Act) × (m k ≡ (ok a, j)) × (f a j ≡ (ok b, k'))
      go (ok a) j e h' = (a, j, e, h')
      go (err g) j e h' = cc (ap (λ (x : Result B × List Act). x.0) h')
