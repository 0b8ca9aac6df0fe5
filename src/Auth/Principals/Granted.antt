-- ===== src/Auth/Principals/Granted.antt =====
-- What the loop over the memberships of a principal gathers.
use skawld_maintenance.Prelude.{
  String, ◌≡◌, refl, sym, ◌↔◌, ◌⊎◌, inl, inr, List, [], ◌∷◌, any, leb, Memᴰ, Bool-cases, eq_iff,
  ◌==◌,
}
use mathlib.Core.Path.{subst}
use skawld_maintenance.Identity.Authorization.{
  Permission, permission_organization_create, permission_workflow_review,
  permission_workflow_publish, permission_report_approve,
}
use skawld_maintenance.Identity.Authorization.Access.{any-eq_iff}
use skawld_maintenance.Database.Schema.{MembershipRow}
use skawld_maintenance.Auth.Principals.{
  put, add_role_permissions, Gathered, gather, gather_all, insert_by_time, order_by_time,
}

-- The permissions of the roles.
pub data Grants : String → Permission → Type 0 where
  administrator_create : Grants "Administrator" permission_organization_create
  administrator_review : Grants "Administrator" permission_workflow_review
  administrator_publish : Grants "Administrator" permission_workflow_publish
  administrator_approve : Grants "Administrator" permission_report_approve
  supervisor_review : Grants "Maintenance Supervisor" permission_workflow_review
  supervisor_approve : Grants "Maintenance Supervisor" permission_report_approve
  technician_review : Grants "Senior Technician" permission_workflow_review

pub put_iff :
    (k : String) (keys : List String) (q : String) → Memᴰ q (put k keys) ↔ ((q ≡ k) ⊎ Memᴰ q keys)
unfolding put
put_iff k keys q = elim (Bool-cases (any (λ x. x == k) keys)) [
  | inl old ↦ rw old (
    λ m. inr m,
    λ h. elim h [
      | inl e ↦ subst (λ x. Memᴰ x keys) (sym e) ((any-eq_iff k keys).0 old)
      | inr m ↦ m
    ],
  )
  | inr new ↦ rw new (
    λ m. elim m [ Memᴰ.head e ↦ inl e | Memᴰ.tail t ↦ inr t ],
    λ h. elim h [ inl e ↦ Memᴰ.head e | inr m ↦ Memᴰ.tail m ],
  )
]

put_first : (k : String) (keys : List String) → Memᴰ k (put k keys)
put_first k keys = (put_iff k keys k).1 (inl refl)

put_rest : (k : String) (keys : List String) {q : String} → Memᴰ q keys → Memᴰ q (put k keys)
put_rest k keys m = (put_iff k keys _).1 (inr m)

Grants-at : {r r' : String} {q q' : Permission} → r ≡ r' → q ≡ q' → Grants r' q' → Grants r q
Grants-at {r' = r'} {q = q} e f g =
    subst (λ x. Grants x q) (sym e) (subst (λ y. Grants r' y) (sym f) g)

-- One permission more: it is granted, or it was there.
one_more :
    {target : List Permission} {role role' : String} {k q : Permission}
    → role ≡ role'
    → Grants role' k
    → Memᴰ q (put k target)
    → Grants role q ⊎ Memᴰ q target
one_more {target = target} {k = k} {q = q} e g m = elim ((put_iff k target q).0 m) [
  | inl f ↦ inl (Grants-at e f g)
  | inr t ↦ inr t
]

granted_only :
    (target : List Permission) (role : String) (q : Permission)
    → Memᴰ q (add_role_permissions target role)
    → Memᴰ q target ⊎ Grants role q
unfolding add_role_permissions
granted_only target role q m = elim (Bool-cases (role == "Administrator")) [
  | inl e ↦
      let at = (eq_iff role "Administrator").0 e in
      elim (one_more at administrator_approve (rw (e, add_role_permissions) at m)) [
        | inl g ↦ inr g
        | inr m1 ↦ elim (one_more at administrator_publish m1) [
          | inl g ↦ inr g
          | inr m2 ↦ elim (one_more at administrator_review m2) [
            | inl g ↦ inr g
            | inr m3 ↦ elim (one_more at administrator_create m3) [ inl g ↦ inr g | inr t ↦ inl t ]
          ]
        ]
      ]
  | inr e ↦ elim (Bool-cases (role == "Maintenance Supervisor")) [
    | inl f ↦
        let at = (eq_iff role "Maintenance Supervisor").0 f in
        elim (one_more at supervisor_approve (rw (e, f, add_role_permissions) at m)) [
          | inl g ↦ inr g
          | inr m1 ↦ elim (one_more at supervisor_review m1) [ inl g ↦ inr g | inr t ↦ inl t ]
        ]
    | inr f ↦ elim (Bool-cases (role == "Senior Technician")) [
      | inl k ↦
          let at = (eq_iff role "Senior Technician").0 k in
          elim (one_more at technician_review (rw (e, f, k, add_role_permissions) at m)) [
            | inl g ↦ inr g
            | inr t ↦ inl t
          ]
      | inr k ↦ inl (rw (e, f, k, add_role_permissions) at m)
    ]
  ]
]

kept_lem :
    (target : List Permission) (role : String) (q : Permission)
    → Memᴰ q target
    → Memᴰ q (add_role_permissions target role)
unfolding add_role_permissions
kept_lem target role q m =
    let admin = put_rest permission_report_approve _ (
      put_rest permission_workflow_publish _
        (put_rest permission_workflow_review _ (put_rest permission_organization_create _ m))) in
    elim (Bool-cases (role == "Administrator")) [
      | inl e ↦ rw e admin
      | inr e ↦ elim (Bool-cases (role == "Maintenance Supervisor")) [
        | inl f ↦
            rw (e, f)
              (put_rest permission_report_approve _ (put_rest permission_workflow_review _ m))
        | inr f ↦ elim (Bool-cases (role == "Senior Technician")) [
          | inl k ↦ rw (e, f, k) (put_rest permission_workflow_review _ m)
          | inr k ↦ rw (e, f, k) m
        ]
      ]
    ]

new_lem :
    (target : List Permission) (role : String) (q : Permission)
    → Grants role q
    → Memᴰ q (add_role_permissions target role)
unfolding add_role_permissions
new_lem target role q administrator_create =
    put_rest _ _ (put_rest _ _ (put_rest _ _ (put_first _ _)))
new_lem target role q administrator_review = put_rest _ _ (put_rest _ _ (put_first _ _))
new_lem target role q administrator_publish = put_rest _ _ (put_first _ _)
new_lem target role q administrator_approve = put_first _ _
new_lem target role q supervisor_review = put_rest _ _ (put_first _ _)
new_lem target role q supervisor_approve = put_first _ _
new_lem target role q technician_review = put_first _ _

granted_all :
    (target : List Permission) (role : String) (q : Permission)
    → Memᴰ q target ⊎ Grants role q
    → Memᴰ q (add_role_permissions target role)
granted_all target role q (inl m) = kept_lem target role q m
granted_all target role q (inr g) = new_lem target role q g

-- A membership of the list with a role that grants the permission.
abbrev pub GrantedBy : List MembershipRow → Permission → Type 0
GrantedBy rows q = (m : MembershipRow) × Memᴰ m rows × Grants m.role q

pub gather_all_iff :
    (rows : List MembershipRow) (g : Gathered) (q : Permission)
    → Memᴰ q (gather_all g rows).permissions ↔ (Memᴰ q g.permissions ⊎ GrantedBy rows q)
unfolding gather_all gather
gather_all_iff [] g q = (λ m. inl m, λ h. elim h [ inl m ↦ m | inr (m, t, r) ↦ elim t [ ] ])
gather_all_iff (row ∷ rows) g q =
    let f = gather_all_iff rows (gather g row) q in
    (
      λ m. elim (f.0 m) [
        | inl here ↦ elim (granted_only g.permissions row.role q here) [
          | inl old ↦ inl old
          | inr new ↦ inr (row, Memᴰ.head refl, new)
        ]
        | inr (later, t, r) ↦ inr (later, Memᴰ.tail t, r)
      ],
      λ h. f.1 (elim h [
        | inl old ↦ inl (granted_all g.permissions row.role q (inl old))
        | inr (m, t, r) ↦ elim t [
          | Memᴰ.head e ↦ inl (
              granted_all g.permissions row.role q
                (inr (subst (λ (x : MembershipRow). Grants x.role q) e r)))
          | Memᴰ.tail t' ↦ inr (m, t', r)
        ]
      ]),
    )

insert_iff :
    (row : MembershipRow) (rows : List MembershipRow) (m : MembershipRow)
    → Memᴰ m (insert_by_time row rows) ↔ Memᴰ m (row ∷ rows)
unfolding insert_by_time
insert_iff row [] m = (λ h. h, λ h. h)
insert_iff row (x ∷ rows) m = elim (Bool-cases (leb row.created_at x.created_at)) [
  | inl e ↦ rw e (λ h. h, λ h. h)
  | inr e ↦
      let f = insert_iff row rows m in
      rw e (
        λ h. elim h [
          | Memᴰ.head q ↦ Memᴰ.tail (Memᴰ.head q)
          | Memᴰ.tail t ↦ elim (f.0 t) [
            | Memᴰ.head q ↦ Memᴰ.head q
            | Memᴰ.tail t' ↦ Memᴰ.tail (Memᴰ.tail t')
          ]
        ],
        λ h. elim h [
          | Memᴰ.head q ↦ Memᴰ.tail (f.1 (Memᴰ.head q))
          | Memᴰ.tail t ↦ elim t [
            | Memᴰ.head q ↦ Memᴰ.head q
            | Memᴰ.tail t' ↦ Memᴰ.tail (f.1 (Memᴰ.tail t'))
          ]
        ],
      )
]

pub order_iff :
    (rows : List MembershipRow) (m : MembershipRow) → Memᴰ m (order_by_time rows) ↔ Memᴰ m rows
unfolding order_by_time
order_iff [] m = (λ h. h, λ h. h)
order_iff (row ∷ rows) m =
    let f = insert_iff row (order_by_time rows) m in
    let g = order_iff rows m in
    (
      λ h. elim (f.0 h) [ Memᴰ.head q ↦ Memᴰ.head q | Memᴰ.tail t ↦ Memᴰ.tail (g.0 t) ],
      λ h. f.1 (elim h [ Memᴰ.head q ↦ Memᴰ.head q | Memᴰ.tail t ↦ Memᴰ.tail (g.1 t) ]),
    )
