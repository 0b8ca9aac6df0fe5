-- ===== src/Http.antt =====
-- What the handlers use of net/http: requests, responses and cookies, and handlers as functions of
-- the world that end in one response.
pub mod Keeps
use skawld_maintenance.Prelude.{
  ◌≡◌, ◌≢◌, refl, sym, ap, ◌∙◌, ◌⊎◌, inl, inr, ℕ, String, Bool, true, false, Option, none, some,
  List, [], ◌∷◌, ◌++◌,
}
use skawld_maintenance.Prelude.Int.{ℤ}
use skawld_maintenance.Errors.{Result, ok, err, Failure}
use skawld_maintenance.Identity.Authorization.{Time, Principal, Permission}
use skawld_maintenance.Identity.Service.{CreateOrganizationResult, Site}
use skawld_maintenance.Database.{World, Exec}

-- The parameters of the query (`URL.Query().Get`), the cookies and the headers by name; a missing
-- parameter or header is "".
pub record Request : Type 0 where
  pub method : String
  pub path : String
  pub query : String → String
  pub cookie : String → Option String
  pub header : String → String
  pub body : String

-- A cookie; `expires` is `none` for the zero time. Every cookie of the program is SameSite=Lax.
pub record Cookie : Type 0 where
  pub name : String
  pub value : String
  pub path : String
  pub http_only : Bool
  pub secure : Bool
  pub max_age : ℤ
  pub expires : Option Time

-- `Problem`
pub record Problem : Type 0 where
  pub kind : String
  pub title : String
  pub status : ℕ
  pub detail : String

-- The fields that `currentPrincipal` writes.
pub record Me : Type 0 where
  pub id : String
  pub external_subject : String
  pub display_name : String
  pub organization_id : String
  pub site_ids : Option (List String)
  pub permissions : List String

-- `buildinfo.Info`
pub record Info : Type 0 where
  pub version : String
  pub commit : String
  pub built_at : String

-- What is written as the body: nothing, a text, or the JSON of a value.
pub data Body : Type 0 where
  empty : Body
  plain : String → Body
  problem : Problem → Body
  organization : CreateOrganizationResult → Body
  site : Site → Body
  me : Me → Body
  live : Info → Body
  ready : Body

pub record Response : Type 0 where
  pub status : ℕ
  pub headers : List (String × String)
  pub cookies : List Cookie
  pub body : Body

-- A handler, once it has its request.
abbrev pub Reply : Type 0
Reply = World → Response × World

abbrev pub reply : Response → Reply
reply r w = (r, w)

module _ {A : Type 0} where
  abbrev pub branch : (Failure → Reply) → (A → Reply) → Result A → Reply
  branch bad good (ok a) = good a
  branch bad good (err e) = bad e

  -- `x, err := m(…); if err != nil { bad }; good`
  unfoldable pub attempt : Exec A → (Failure → Reply) → (A → Reply) → Reply
  attempt m bad good w = let (r, w') = m w in branch bad good r w'

-- `http.Error`
abbrev pub http_error : List Cookie → String → ℕ → Response
http_error cookies message status = record {
  status = status;
  headers = [];
  cookies = cookies;
  body = plain message;
}

-- `http.Redirect`, at the Location that it makes of its target.
abbrev pub redirect : List Cookie → String → ℕ → Response
redirect cookies location status = record {
  status = status;
  headers = ("Location", location) ∷ [];
  cookies = cookies;
  body = empty;
}

module _ {A : Type 0} where
  -- A step of a handler returned, and the handler goes on, or it failed, and its error is answered.
  pub attempt_cases :
      (m : Exec A) (bad : Failure → Reply) (good : A → Reply) (w : World)
      → ((a : A) × (v : World) × (m w ≡ (ok a, v)) × (attempt m bad good w ≡ good a v))
        ⊎ ((e : Failure) × (v : World) × (m w ≡ (err e, v)) × (attempt m bad good w ≡ bad e v))
  unfolding attempt
  attempt_cases m bad good w = go (m w).0 (m w).1 refl
    where
      go :
          (r : Result A) (v : World)
          → m w ≡ (r, v)
          → ((a : A) × (v : World) × (m w ≡ (ok a, v)) × (attempt m bad good w ≡ good a v))
            ⊎ ((e : Failure) × (v : World) × (m w ≡ (err e, v)) × (attempt m bad good w ≡ bad e v))
      go (ok a) v e = inl (a, v, e, rw e refl)
      go (err f) v e = inr (f, v, e, rw e refl)

  pub attempt_ok :
      (m : Exec A) (bad : Failure → Reply) (good : A → Reply) (w : World) (a : A) (v : World)
      → m w ≡ (ok a, v)
      → attempt m bad good w ≡ good a v
  unfolding attempt
  attempt_ok m bad good w a v e = rw e refl

  pub attempt_err :
      (m : Exec A) (bad : Failure → Reply) (good : A → Reply) (w : World) (e : Failure) (v : World)
      → m w ≡ (err e, v)
      → attempt m bad good w ≡ bad e v
  unfolding attempt
  attempt_err m bad good w f v e = rw e refl

  -- If the answer to an error has another status, the step returned.
  pub attempt_status :
      (m : Exec A) (bad : Failure → Reply) (good : A → Reply) (w : World) (status : ℕ)
      → ((e : Failure) (v : World) → (bad e v).0.status ≢ status)
      → (attempt m bad good w).0.status ≡ status
      → (a : A) × (v : World) × (m w ≡ (ok a, v)) × (attempt m bad good w ≡ good a v)
  attempt_status m bad good w status other h = elim (attempt_cases m bad good w) [
    | inl done ↦ done
    | inr (e, v, failed, answer) ↦
        absurd (other e v (sym (ap (λ (x : Response × World). x.0.status) answer) ∙ h))
  ]
