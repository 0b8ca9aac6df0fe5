-- ===== src/Identity/OrganizationStore/Response.antt =====
-- The response that a creation leaves under its key.
use skawld_maintenance.Prelude.{
  ℕ, String, ◌≡◌, refl, sym, ap, ◌∙◌, some, List, arith, eq_refl, find, if◌then◌else◌,
}
use mathlib.Core.Path.{subst}
use skawld_maintenance.Identity.Authorization.{Time, Principal}
use skawld_maintenance.Database.{Env}
use skawld_maintenance.Database.Schema.{Db}
use skawld_maintenance.Idempotency.{has_key}
use skawld_maintenance.Idempotency.Runs.{IsBegun}
use skawld_maintenance.Identity.OrganizationStore.Writes.{finished}
use skawld_maintenance.Idempotency.Laws.{
  processing, completed, view, view-with_new, to_state, same_key,
}
use skawld_maintenance.Idempotency.Completion.{IsSound, complete_spec, view-with_response}
use skawld_maintenance.Idempotency.Invariant.{KeysSound, IsSound-insert}
use skawld_maintenance.Identity.Service.{
  CreateOrganization, CreateOrganizationResult, encode_result, decode_result,
}
use skawld_maintenance.Identity.OrganizationStore.{create_organization_scope, to_result}
use skawld_maintenance.Identity.OrganizationStore.Once.{request_hash, IsCreated}

-- Reading a stored response gives back the result that was written.
pub decode-encode_result :
    (r : CreateOrganizationResult) → decode_result (some (encode_result r)) ≡ some r
unfolding decode_result encode_result
decode-encode_result r = refl

view_of_keys :
    (d d' : Db) (p s k : String)
    → d.idempotency_keys ≡ d'.idempotency_keys
    → view d p s k ≡ view d' p s k
unfolding view
view_of_keys d d' p s k e = ap (λ rows. to_state (find (has_key p s k) rows)) e

if_same : {A : Type 0} (p s k : String) (x y : A) → (if same_key p s k p s k then x else y) ≡ x
if_same p s k x y = ground (arith, eq_refl p, eq_refl s, eq_refl k)

module _ (env : Env) (principal : Principal) (key : String) (command : CreateOrganization) where
  abbrev hash : List ℕ
  hash = request_hash env principal key command

  module _ (db : Db) (sound : KeysSound db) {begun_db : Db} (now : Time)
      (b : IsBegun env principal.id create_organization_scope key hash now db begun_db) where
    begun-IsSound : IsSound begun_db.idempotency_keys
    begun-IsSound =
        subst (λ (d : Db). IsSound d.idempotency_keys) (sym b.left)
          (IsSound-insert env principal.id create_organization_scope key b.p hash now
            db.idempotency_keys sound b.free)

    view_begun : view begun_db b.p create_organization_scope key ≡ processing hash
    view_begun =
        ap (λ d. view d b.p create_organization_scope key) b.left
        ∙ view-with_new env principal.id create_organization_scope key b.uuid hash now db b.p
            create_organization_scope key b.free
        ∙ if_same b.p create_organization_scope key _ _

  -- After a creation its key holds the digest of the request and the response.
  pub view_of_IsCreated :
      (db db' : Db) (r : CreateOrganizationResult)
      → KeysSound db
      → (c : IsCreated env principal key command db db' r)
      → view db' c.begun.p create_organization_scope key
        ≡ completed hash 201 (some (encode_result r))
  view_of_IsCreated db db' r sound c =
      view_of_keys db' (finished env principal.id key c.begun.uuid c.organization c.now c.begun_db)
        c.begun.p create_organization_scope key c.wrote.keys
      ∙ view-with_response env principal.id create_organization_scope key c.begun.uuid 201
          (encode_result (to_result env c.organization)) c.now c.begun_db c.begun.p
          create_organization_scope key (begun-IsSound db sound c.now c.begun)
      ∙ if_same c.begun.p create_organization_scope key _ _
      ∙ ap (λ st. (complete_spec st 201 (encode_result (to_result env c.organization))).1)
          (view_begun db sound c.now c.begun)
      ∙ ap (λ x. completed hash 201 (some (encode_result x))) (sym c.result)
