-- ===== src/Idempotency/Invariant.antt =====
-- Both operations keep the key table sound, however the server answers.
use skawld_maintenance.Prelude.{
  ℕ, String, ◌≡◌, refl, ap, sym, Option-cases, ◌⊎◌, inl, inr, Bool, true, false, List, [], ◌∷◌,
  ◌++◌, Memᴰ, arith, eq_iff, any, update, count-append, count-eq-zero, count-update, mem-update,
  if◌then◌else◌,
}
use mathlib.Core.Path.{subst}
use skawld_maintenance.Json.{Json}
use skawld_maintenance.Identity.Authorization.{Time}
use skawld_maintenance.Database.{Env, World}
use skawld_maintenance.Database.Keeps.{
  Keeps, Preserves, Leaves-with_uuid, Leaves-if, Leaves-some, keeps_rules,
}
use skawld_maintenance.Database.Schema.{Db, KeyRow}
use skawld_maintenance.Idempotency.{
  has_key, insert_key, select_key, answer, begin, new_row, complete_key, is_pending, completed_row,
  complete,
}
use skawld_maintenance.Idempotency.Completion.{IsSound, IsStated}

abbrev pub KeysSound : Db → Type 0
KeysSound db = IsSound db.idempotency_keys

mem-concat : (xs : List KeyRow) {x y : KeyRow} → Memᴰ y (xs ++ x ∷ []) → Memᴰ y xs ⊎ (y ≡ x)
mem-concat [] (Memᴰ.head e) = inr e
mem-concat [] (Memᴰ.tail m) = elim m [ ]
mem-concat (z ∷ xs) (Memᴰ.head e) = inl (Memᴰ.head e)
mem-concat (z ∷ xs) (Memᴰ.tail m) = elim (mem-concat xs m) [
  | inl n ↦ inl (Memᴰ.tail n)
  | inr e ↦ inr e
]

module _ (env : Env) (principal_id scope key : String) where
  pub IsSound-insert :
      (p : String) (h : List ℕ) (now : Time) (rows : List KeyRow)
      → IsSound rows
      → any (has_key p scope key) rows ≡ false
      → IsSound (rows ++ new_row env principal_id scope key p h now ∷ [])
  IsSound-insert p h now rows sound free = record {
    unique = λ p' s' k'. ground (
      arith,
      count-append (has_key p' s' k') rows (new_row env principal_id scope key p h now ∷ []),
      sound.unique p' s' k',
      count-eq-zero (has_key p scope key) rows free,
      eq_iff p p',
      eq_iff scope s',
      eq_iff key k',
    );
    stated = λ row m. elim (mem-concat rows m) [
      | inl old ↦ sound.stated row old
      | inr new ↦ inl (ap (λ (r : KeyRow). r.status) new)
    ];
  }

  insert_key-Preserves :
      (h : List ℕ) (now : Time) → Preserves KeysSound (insert_key env principal_id scope key h now)
  unfolding insert_key
  insert_key-Preserves h now = record {
    after = λ db sound. Leaves-with_uuid KeysSound (env.cast_uuid principal_id) _ λ p.
        Leaves-if KeysSound (any (has_key p scope key) db.idempotency_keys) _ _
          (λ taken. Leaves-some KeysSound 0 db sound)
          (λ free.
            Leaves-some KeysSound 1 _ (IsSound-insert p h now db.idempotency_keys sound free));
  }

  select_key-Preserves : Preserves KeysSound (select_key env principal_id scope key)
  unfolding select_key
  select_key-Preserves = record {
    after = λ db sound.
        Leaves-with_uuid KeysSound (env.cast_uuid principal_id) _
          λ p. Leaves-some KeysSound _ db sound;
  }

  answer-KeysSound :
      (h : List ℕ) (row : KeyRow) → Keeps KeysSound (answer env principal_id scope key h row)
  unfolding answer
  answer-KeysSound h row = elim (Option-cases row.response_status) [
    | inl e ↦ rw e (search keeps_rules)
    | inr (s, e) ↦ rw e (search keeps_rules)
  ]

  pub begin-KeysSound :
      (h : List ℕ) (now : Time) → Keeps KeysSound (begin env principal_id scope key h now)
  unfolding begin
  begin-KeysSound h now =
      search (keeps_rules, insert_key-Preserves, select_key-Preserves, answer-KeysSound) depth 9

  IsStated-after :
      (p : String) (status : ℕ) (body : Json) (now : Time) (b : Bool) (row : KeyRow)
      → IsStated row
      → IsStated (if b then completed_row env principal_id scope key status body now row else row)
  IsStated-after p status body now true row h = inr (refl, λ e. cc)
  IsStated-after p status body now false row h = h

  IsSound-update :
      (p : String) (status : ℕ) (body : Json) (now : Time) (rows : List KeyRow)
      → IsSound rows
      → IsSound (
          update
            (is_pending env principal_id scope key p)
            (completed_row env principal_id scope key status body now)
            rows)
  IsSound-update p status body now rows sound = record {
    unique = λ p' s' k'.
        rw
          (count-update (has_key p' s' k') (is_pending env principal_id scope key p)
            (completed_row env principal_id scope key status body now) (λ x. refl) rows)
          (sound.unique p' s' k');
    stated = λ row m.
        let (old, listed, e) =
          mem-update (is_pending env principal_id scope key p)
            (completed_row env principal_id scope key status body now) rows row m in
        subst IsStated (sym e) (
          IsStated-after p status body now (is_pending env principal_id scope key p old) old
            (sound.stated old listed));
  }

  complete_key-Preserves :
      (status : ℕ) (body : Json) (now : Time)
      → Preserves KeysSound (complete_key env principal_id scope key status body now)
  unfolding complete_key
  complete_key-Preserves status body now = record {
    after = λ db sound.
        Leaves-with_uuid KeysSound (env.cast_uuid principal_id) _ λ p.
          Leaves-some KeysSound _ _ (IsSound-update p status body now db.idempotency_keys sound);
  }

  pub complete-KeysSound :
      (status : ℕ) (body : Json) (now : Time)
      → Keeps KeysSound (complete env principal_id scope key status body now)
  unfolding complete
  complete-KeysSound status body now = search (keeps_rules, complete_key-Preserves)

  -- A key table in which no two rows have one key, and in which a completed row has its response
  -- status, stays one through `Begin`, whether it returns or fails, however the server answers.
  pub begin_sound :
      (h : List ℕ) (now : Time) (w : World)
      → KeysSound w.db
      → KeysSound (begin env principal_id scope key h now w).1.db
  begin_sound h now w sound = (begin-KeysSound h now).at w sound

  -- It stays one through `Complete`, whether it returns or fails, however the server answers.
  pub complete_sound :
      (status : ℕ) (body : Json) (now : Time) (w : World)
      → KeysSound w.db
      → KeysSound (complete env principal_id scope key status body now w).1.db
  complete_sound status body now w sound = (complete-KeysSound status body now).at w sound
