-- ===== src/Identity/OrganizationStore/Once.antt =====
-- A creation is all or nothing.
use skawld_maintenance.Prelude.{
  ℕ, ◌+◌, String, ◌≡◌, refl, sym, ap, ◌∙◌, ◌⊎◌, inl, inr, true, false, not, ◌||◌, Option, none,
  some, List, Bool-cases,
}
use mathlib.Core.Path.{subst}
use skawld_maintenance.Identity.Authorization.{Time, Principal}
use skawld_maintenance.Database.{Env, World, tick, fail}
use skawld_maintenance.Database.Laws.{in_tx_atomic}
use skawld_maintenance.Database.Runs.{
  Ran, Ran-bind, Ran-pure, Ran-in_tx, not-Ran-fail, Ran-draw_id, Ran-draw_id_calls, Ran-read_clock,
}
use skawld_maintenance.Database.Schema.{Db}
use skawld_maintenance.Idempotency.{hash_request}
use skawld_maintenance.Idempotency.Laws.{view, completed}
use skawld_maintenance.Json.{Json}
use skawld_maintenance.Idempotency.Runs.{IsBegun, Ran-begin}
use skawld_maintenance.Idempotency.Replays.{Ran-begin_replay}
use skawld_maintenance.Identity.Organization.{
  Organization, NewResult, created, failed, new_organization,
}
use skawld_maintenance.Identity.Service.{
  CreateOrganization, CreateOrganizationResult, Created, encode_command, decode_result,
}
use skawld_maintenance.Identity.OrganizationStore.{
  OrganizationStore, create_organization_scope, create_in_tx, create, checked, replayed, to_result,
}
use skawld_maintenance.Identity.OrganizationStore.Writes.{Wrote, Ran-write}

module _ (env : Env) (principal : Principal) (key : String) (command : CreateOrganization) where
  abbrev pub request_hash : List ℕ
  request_hash = hash_request env (encode_command command)

  -- A creation that was carried out: the key was free, a new organization was made from the command
  -- under an id that was drawn, and all of its rows were written, with the ids that were drawn next.
  pub record IsCreated (db db' : Db) (r : CreateOrganizationResult) : Type 0 where
    pub now : Time
    pub begun_db : Db
    pub begun : IsBegun env principal.id create_organization_scope key request_hash now db begun_db
    pub number : ℕ
    pub organization : Organization
    pub made : new_organization (env.ids number) command.name now ≡ created organization
    pub result : r ≡ to_result env organization
    pub wrote : Wrote env principal.id key begun.uuid organization now (number + 1) begun_db db'

  made_of :
      (n : NewResult) (w : World) (o : Organization) (w' : World)
      → Ran (checked env n) w o w'
      → (n ≡ created o) × (w ≡ w')
  made_of (created o') w o w' h = let (same, next) = Ran-pure o' o w w' h in (ap created same, next)
  made_of (failed e) w o w' h = absurd (not-Ran-fail _ o w w' h)

  replay_lem :
      (d : Option CreateOrganizationResult) (w : World) (r : Created) (w' : World)
      → Ran (replayed env d) w r w'
      → (d ≡ some r.0) × (r.1 ≡ true) × (w ≡ w')
  replay_lem none w r w' h = absurd (not-Ran-fail _ r w w' h)
  replay_lem (some x) w r w' h =
      let (same, next) = Ran-pure (x, true) r w w' h in
      (ap (λ (c : Created). some c.0) same, ap (λ (c : Created). c.1) (sym same), next)

  -- The key is completed under the digest of this command, and its response is the result.
  pub record IsAnswered (db : Db) (r : CreateOrganizationResult) : Type 0 where
    pub p : String
    pub uuid : env.cast_uuid principal.id ≡ some p
    pub status : ℕ
    pub body : Option Json
    pub state : view db p create_organization_scope key ≡ completed request_hash status body
    pub decoded : decode_result body ≡ some r

  abbrev pub Outcome : Db → Db → Created → Type 0
  Outcome db db' r =
      ((r.1 ≡ true) × (db' ≡ db) × IsAnswered db r.0) ⊎ ((r.1 ≡ false) × IsCreated db db' r.0)

  -- A body that returned has replayed a response and changed nothing, or has created.
  Ran-create_in_tx :
      (w : World) (r : Created) (w' : World)
      → Ran (create_in_tx env principal key command) w r w'
      → Outcome w.db w'.db r
  unfolding create_in_tx
  Ran-create_in_tx w r w' ran =
      let (now, v1, r1, k1) = Ran-bind _ _ w r w' ran in
      let (stored, v2, r2, k2) = Ran-bind _ _ v1 r w' k1 in
      elim (Bool-cases stored.replay) [
        | inl old ↦
            let (given, flag, same) = replay_lem _ v2 r w' (rw old at k2) in
            let (kept, answer) =
              Ran-begin_replay env principal.id create_organization_scope key request_hash now v1
                stored v2 r2 old in
            let start = (Ran-read_clock env w now v1 r1).0 in
            inl (
              flag,
              ap (λ (v : World). v.db) (sym same) ∙ kept ∙ start,
              subst (λ d. IsAnswered d r.0) start
                  record {
                    p = answer.p;
                    uuid = answer.uuid;
                    status = stored.response_status;
                    body = stored.response_body;
                    state = answer.state;
                    decoded = given;
                  },
            )
        | inr new ↦
            let (id, v3, r3, k3) = Ran-bind _ _ v2 r w' (rw new at k2) in
            let (o, v4, r4, k4) = Ran-bind _ _ v3 r w' k3 in
            let (made, next) = made_of _ v3 o v4 r4 in
            let b =
              subst
                (λ d.
                  IsBegun env principal.id create_organization_scope key request_hash now d v2.db)
                (Ran-read_clock env w now v1 r1).0
                (Ran-begin env principal.id create_organization_scope key request_hash now v1 stored
                  v2 r2 new) in
            let (drawn, one_more) = Ran-draw_id_calls env v2 id v3 r3 in
            let count : v4.calls ≡ v2.calls + 1 =
              ap (λ (v : World). v.calls) (sym next) ∙ one_more in
            let (result, wrote) = Ran-write env principal.id key b.uuid o now v4 w' r k4 in
            inr (
              ap (λ (c : Created). c.1) result,
              record {
                now = now;
                begun_db = v2.db;
                begun = b;
                number = v2.calls;
                organization = o;
                made = ap (λ s. new_organization s command.name now) (sym drawn) ∙ made;
                result = ap (λ (c : Created). c.0) result;
                wrote =
                    subst (λ n. Wrote env principal.id key b.uuid o now n v2.db w'.db) count
                      (subst (λ d. Wrote env principal.id key b.uuid o now v4.calls d w'.db)
                        (ap (λ (v : World). v.db) (sym next) ∙ Ran-draw_id env v2 id v3 r3) wrote);
              },
            )
      ]

  -- A creation that returns either changed no table and replayed the response of the key, which was
  -- completed under the digest of the same command; or it found the key free, and wrote a new
  -- organization under the id drawn, the caller's membership as its administrator under the id drawn
  -- next (unless a membership has that id already), its audit event and its response.
  pub create-Outcome :
      (store : OrganizationStore) (w : World) (r : Created) (w' : World)
      → Ran (create env store principal key command) w r w'
      → Outcome w.db w'.db r
  unfolding create
  create-Outcome store w r w' ran =
      elim (Bool-cases (not store.pool || not store.ids || not store.clock)) [
        | inl missing ↦ absurd (not-Ran-fail _ r w w' (rw (missing, create) at ran))
        | inr there ↦
            let (v, body, kept) =
              Ran-in_tx env (create_in_tx env principal key command) w r w'
                (rw (there, create) at ran) in
            subst (λ d. Outcome w.db d r) kept (Ran-create_in_tx (tick w) r v body)
      ]

  -- Whatever the server answers, and whether or not the caller gets an error, the tables are as they
  -- were, or one whole creation has been written: the organization under the id drawn, the caller's
  -- membership as its administrator under the id drawn next (unless a membership has that id already),
  -- the audit event, and the response under the key, which was free.
  pub create_atomic :
      (store : OrganizationStore) (w : World)
      → let after = (create env store principal key command w).1.db in
        (after ≡ w.db) ⊎ ((r : CreateOrganizationResult) × IsCreated w.db after r)
  unfolding create fail
  create_atomic store w = elim (Bool-cases (not store.pool || not store.ids || not store.clock)) [
    | inl missing ↦ inl (rw (missing, create) refl)
    | inr there ↦
        rw (there, create)
          (elim (in_tx_atomic env (create_in_tx env principal key command) w) [
            | inl undone ↦ inl undone.kept
            | inr done ↦ elim (Ran-create_in_tx (tick w) done.value done.after done.returned) [
              | inl (_, same, _) ↦ inl (done.kept ∙ same)
              | inr (_, c) ↦
                  inr (done.value.0, subst (λ d. IsCreated w.db d done.value.0) (sym done.kept) c)
            ]
          ])
  ]
