-- ===== src/Tests/Keys.antt =====
-- A key that is begun and completed.
use skawld_maintenance.Prelude.{
  ℕ, String, ◌≡◌, refl, ◌↔◌, ◌⊎◌, true, some, List, [], ◌∷◌, if◌then◌else◌, arith,
}
use skawld_maintenance.Json.{num}
use skawld_maintenance.Database.{World, in_tx}
use skawld_maintenance.Database.Laws.{IsUndone, IsDone, in_tx_atomic}
use skawld_maintenance.Idempotency.{begin, complete}
use skawld_maintenance.Idempotency.Bytes.{equal_bytes, equal_bytes_iff}
use skawld_maintenance.Idempotency.Laws.{view, begin_spec, begin-eq_spec, same_key}
use skawld_maintenance.Idempotency.Completion.{complete_spec, complete-eq_spec}
use skawld_maintenance.Idempotency.Invariant.{KeysSound, begin_sound, complete_sound}
use skawld_maintenance.Tests.{quiet, start}

abbrev hash : List ℕ
hash = 7 ∷ 8 ∷ []

no_keys : KeysSound start.db
no_keys = record { unique = λ p s k. omega arith; stated = λ row m. elim m [ ] }

abbrev begun : World
begun = (begin quiet "ann" "scope" "key" hash 5 start).1

begun_sound : KeysSound begun.db
begun_sound = begin_sound quiet "ann" "scope" "key" hash 5 start no_keys

ann_cast' : quiet.cast_uuid "ann" ≡ some "ann"
ann_cast' = refl

begin_sound_example : KeysSound (begin quiet "ann" "scope" "key" hash 5 start).1.db
begin_sound_example = begin_sound quiet "ann" "scope" "key" hash 5 start no_keys

completed_sound : KeysSound (complete quiet "ann" "scope" "key" 201 (num 1) 6 begun).1.db
completed_sound = complete_sound quiet "ann" "scope" "key" 201 (num 1) 6 begun begun_sound

begin-eq_spec_example :
    ((begin quiet "ann" "scope" "key" hash 5 start).0
      ≡ (begin_spec (view start.db "ann" "scope" "key") hash).0)
    × ((p' s' k' : String)
        → view (begin quiet "ann" "scope" "key" hash 5 start).1.db p' s' k' ≡ (
            if same_key "ann" "scope" "key" p' s' k'
            then (begin_spec (view start.db "ann" "scope" "key") hash).1
            else view start.db p' s' k'))
begin-eq_spec_example = begin-eq_spec quiet "ann" "scope" "key" ann_cast' hash 5 start refl refl

complete-eq_spec_example :
    ((complete quiet "ann" "scope" "key" 201 (num 1) 6 begun).0
      ≡ (complete_spec (view begun.db "ann" "scope" "key") 201 (num 1)).0)
    × ((p' s' k' : String)
        → view (complete quiet "ann" "scope" "key" 201 (num 1) 6 begun).1.db p' s' k' ≡ (
            if same_key "ann" "scope" "key" p' s' k'
            then (complete_spec (view begun.db "ann" "scope" "key") 201 (num 1)).1
            else view begun.db p' s' k'))
complete-eq_spec_example =
    complete-eq_spec quiet "ann" "scope" "key" ann_cast' 201 (num 1) 6 begun refl begun_sound

abbrev other_hash : List ℕ
other_hash = 7 ∷ 9 ∷ []

equal_bytes_iff_example : (equal_bytes hash other_hash ≡ true) ↔ (hash ≡ other_hash)
equal_bytes_iff_example = equal_bytes_iff hash other_hash

in_tx_atomic_example :
    IsUndone start (in_tx quiet (begin quiet "ann" "scope" "key" hash 5) start)
    ⊎ IsDone
        (begin quiet "ann" "scope" "key" hash 5)
        start
        (in_tx quiet (begin quiet "ann" "scope" "key" hash 5) start)
in_tx_atomic_example = in_tx_atomic quiet (begin quiet "ann" "scope" "key" hash 5) start
