-- ===== src/Identity/Authorization/Approval.antt =====
-- An approval needs the permission and an authority that covers the request.
use Prim.Native.Char.{code}
use Prim.Native.String.{String}
use skawld_maintenance.Prelude.{
  ℕ, ◌≡◌, ◌↔◌, ◌⊎◌, inl, inr, true, none, List, [], ◌∷◌, Memᴰ, arith, ◌≤◌, ◌<◌, ◌+◌, eq_iff,
  Bool-cases, not, ◌&&◌, ◌==◌, false, refl,
}
use skawld_maintenance.Prelude.Text.{equal_fold}
use skawld_maintenance.Prelude.Int.{pos_part, neg_part}
use skawld_maintenance.Identity.Authorization.{
  Principal, Permission, ApprovalAuthority, ApprovalRequest, matches, some_matches, can_approve,
}
use skawld_maintenance.Identity.Authorization.Access.{has_iff}

-- The code points of a text, folded.
abbrev pub folded : (ℕ → ℕ) → String → List ℕ
folded fold String.[] = []
folded fold (String.◌∷◌ c s) = fold (code c) ∷ folded fold s

module _ (fold : ℕ → ℕ) where
  -- Two texts are equal under folding exactly if their folded code points are the same.
  pub equal_fold_iff :
      (s t : String) → (equal_fold fold s t ≡ true) ↔ (folded fold s ≡ folded fold t)
  unfolding equal_fold
  equal_fold_iff String.[] String.[] = ground arith
  equal_fold_iff String.[] (String.◌∷◌ d t) = ground arith
  equal_fold_iff (String.◌∷◌ c s) String.[] = ground arith
  equal_fold_iff (String.◌∷◌ c s) (String.◌∷◌ d t) = ground (arith, equal_fold_iff s t)

-- A field of an authority that is empty, or the one asked for, passes its test.
any_or_same : (x y : String) → (x ≡ "") ⊎ (x ≡ y) → (not (x == "") && not (x == y)) ≡ false
any_or_same x y h = ground (arith, eq_iff x "", eq_iff x y)

any_or_folded :
    (fold : ℕ → ℕ) (x y : String)
    → (x ≡ "") ⊎ (folded fold x ≡ folded fold y)
    → (not (x == "") && not (equal_fold fold x y)) ≡ false
any_or_folded fold x y h = ground (arith, eq_iff x "", equal_fold_iff fold x y)

module _ (fold : ℕ → ℕ) where
  -- What it means that an authority covers a request of a subject. An empty field of the authority
  -- stands for "any"; the period of validity is half open.
  pub record Covers (a : ApprovalAuthority) (subject_id : String) (r : ApprovalRequest)
      : Type 0 where
    pub unrevoked : a.revoked_at ≡ none
    pub subject : a.subject_id ≡ subject_id
    pub organization : a.organization_id ≡ r.organization_id
    pub site : (a.site_id ≡ "") ⊎ (a.site_id ≡ r.site_id)
    pub scope_kind : (a.scope_kind ≡ "") ⊎ (folded fold a.scope_kind ≡ folded fold r.scope_kind)
    pub scope : (a.scope_id ≡ "") ⊎ (a.scope_id ≡ r.scope_id)
    pub competency : (a.competency ≡ "") ⊎ (folded fold a.competency ≡ folded fold r.competency)
    pub risk : pos_part r.risk + neg_part a.maximum_risk ≤ pos_part a.maximum_risk + neg_part r.risk
    pub begun : (a.valid_from ≡ 0) ⊎ (a.valid_from ≤ r.at)
    pub unexpired : (a.valid_until ≡ 0) ⊎ (r.at < a.valid_until)

  -- An authority matches exactly the requests that it covers.
  pub matches_iff :
      (a : ApprovalAuthority) (subject_id : String) (r : ApprovalRequest)
      → (matches fold a subject_id r ≡ true) ↔ Covers a subject_id r
  unfolding matches
  matches_iff a subject_id r = (
    λ h. record {
      unrevoked = ground arith;
      subject = ground (arith, eq_iff a.subject_id subject_id);
      organization = ground (arith, eq_iff a.organization_id r.organization_id);
      site = ground (arith, eq_iff a.site_id "", eq_iff a.site_id r.site_id);
      scope_kind =
          ground (arith, eq_iff a.scope_kind "", equal_fold_iff fold a.scope_kind r.scope_kind);
      scope = ground (arith, eq_iff a.scope_id "", eq_iff a.scope_id r.scope_id);
      competency =
          ground (arith, eq_iff a.competency "", equal_fold_iff fold a.competency r.competency);
      risk = ground arith;
      begun = ground arith;
      unexpired = ground arith;
    },
    λ c.
        rw
          (
            c.unrevoked,
            (eq_iff a.subject_id subject_id).1 c.subject,
            (eq_iff a.organization_id r.organization_id).1 c.organization,
            any_or_same a.site_id r.site_id c.site,
            any_or_folded fold a.scope_kind r.scope_kind c.scope_kind,
            any_or_same a.scope_id r.scope_id c.scope,
            any_or_folded fold a.competency r.competency c.competency,
          )
          (ground (arith, c.risk, c.begun, c.unexpired)),
  )

  -- Some authority of the list covers the request.
  abbrev pub SomeCovers : List ApprovalAuthority → String → ApprovalRequest → Type 0
  SomeCovers authorities subject_id r =
      (a : ApprovalAuthority) × Memᴰ a authorities × Covers a subject_id r

  some_matches_sound :
      (authorities : List ApprovalAuthority) (subject_id : String) (r : ApprovalRequest)
      → some_matches fold authorities subject_id r ≡ true
      → SomeCovers authorities subject_id r
  unfolding some_matches
  some_matches_sound [] subject_id r h = cc
  some_matches_sound (a ∷ rest) subject_id r h = elim (Bool-cases (matches fold a subject_id r)) [
    | inl e ↦ (a, Memᴰ.head refl, (matches_iff a subject_id r).0 e)
    | inr e ↦
        let (b, listed, covers) = some_matches_sound rest subject_id r (ground arith) in
        (b, Memᴰ.tail listed, covers)
  ]

  some_matches_complete :
      (authorities : List ApprovalAuthority) (a : ApprovalAuthority) (subject_id : String)
      (r : ApprovalRequest)
      → Memᴰ a authorities
      → matches fold a subject_id r ≡ true
      → some_matches fold authorities subject_id r ≡ true
  unfolding some_matches
  some_matches_complete [] a subject_id r m h = elim m [ ]
  some_matches_complete (b ∷ rest) a subject_id r (Memᴰ.head e) h = rw (← e) (rw h refl)
  some_matches_complete (b ∷ rest) a subject_id r (Memᴰ.tail m) h =
      ground (arith, some_matches_complete rest a subject_id r m h)

  -- A principal can approve exactly if it has the permission and some authority in the list covers
  -- the request with the principal as its subject.
  pub can_approve_iff :
      (p : Principal) (permission : Permission) (authorities : List ApprovalAuthority)
      (r : ApprovalRequest)
      → (can_approve fold p permission authorities r ≡ true)
        ↔ (Memᴰ permission p.permissions × SomeCovers authorities p.id r)
  unfolding can_approve
  can_approve_iff p permission authorities r = (
    λ h. (
      (has_iff p permission).0 (ground arith),
      some_matches_sound authorities p.id r (ground arith),
    ),
    λ (m, (a, listed, covers)). ground (
      arith,
      (has_iff p permission).1 m,
      some_matches_complete authorities a p.id r listed ((matches_iff a p.id r).1 covers),
    ),
  )
