-- ===== src/Iam/Roles/Hierarchy.antt =====
-- backend/app/iam/rbac_v2.py: a higher role has every permission of a lower one.
use infra_red.Prelude.{
  ℕ, ◌≤◌, ◌≡◌, ◌⊎◌, zero, suc, refl, sym, ◌∙◌, ap, subst, String, true, false, none, some, List, [],
  contains, find, or_else, str_eq, eq_iff, contains_of_subset, Bool-cases, Option-cases, inl, inr,
  arith,
}
use infra_red.Prelude.Int.{ℤ, pos, negsuc}
use infra_red.Iam.Roles.{
  owner_permissions, manager_permissions, analyst_permissions, viewer_permissions, role_permissions,
  role_rank, has_permission, has_min_role, require_role,
}

-- the permissions of a rank
abbrev at_rank : ℕ → List String
at_rank zero = viewer_permissions
at_rank (suc zero) = analyst_permissions
at_rank (suc (suc zero)) = manager_permissions
at_rank (suc (suc (suc n))) = owner_permissions

abbrev by_rank : ℤ → List String
by_rank (pos n) = at_rank n
by_rank (negsuc n) = []

-- Where the role has a rank, the matrix gives it the permissions of the rank.
abbrev Agrees : String → Type 0
Agrees r = (k : ℤ) → find r role_rank ≡ some k → or_else (find r role_permissions) [] ≡ by_rank k

Agrees-at : (name r : String) → Agrees name → str_eq r name ≡ true → Agrees r
Agrees-at name r a e = subst Agrees (sym ((eq_iff r name).0 e)) a

ranked : (r : String) → Agrees r
ranked r = elim (Bool-cases (str_eq r "viewer")) [
  | inl e ↦ Agrees-at "viewer" r (λ k h. ground arith) e
  | inr n0 ↦ elim (Bool-cases (str_eq r "analyst")) [
    | inl e ↦ Agrees-at "analyst" r (λ k h. ground arith) e
    | inr n1 ↦ elim (Bool-cases (str_eq r "security_manager")) [
      | inl e ↦ Agrees-at "security_manager" r (λ k h. ground arith) e
      | inr n2 ↦ elim (Bool-cases (str_eq r "owner")) [
        | inl e ↦ Agrees-at "owner" r (λ k h. ground arith) e
        | inr n3 ↦ elim (Bool-cases (str_eq r "admin")) [
          | inl e ↦ Agrees-at "admin" r (λ k h. ground arith) e
          | inr n4 ↦ λ k h. ground arith
        ]
      ]
    ]
  ]
]

rank_is_pos : (r : String) (k : ℤ) → find r role_rank ≡ some k → (n : ℕ) × (k ≡ pos n) × (n ≤ 3)
rank_is_pos r (pos n) h = (n, refl, ground arith)
rank_is_pos r (negsuc n) h = absurd (ground arith)

at_rank-suc :
    (p : String) (n : ℕ) → contains (at_rank n) p ≡ true → contains (at_rank (suc n)) p ≡ true
at_rank-suc p zero = contains_of_subset viewer_permissions analyst_permissions p refl
at_rank-suc p (suc zero) = contains_of_subset analyst_permissions manager_permissions p refl
at_rank-suc p (suc (suc zero)) = contains_of_subset manager_permissions owner_permissions p refl
at_rank-suc p (suc (suc (suc n))) = λ h. h

le_cases : (m n : ℕ) → m ≤ suc n → (m ≡ suc n) ⊎ (m ≤ n)
le_cases m n l = omega arith

at_rank_mono :
    (p : String) (m n : ℕ) → m ≤ n → contains (at_rank m) p ≡ true → contains (at_rank n) p ≡ true
at_rank_mono p m zero l h =
    let e : m ≡ zero = omega arith in subst (λ k. contains (at_rank k) p ≡ true) e h
at_rank_mono p m (suc n) l h = elim (le_cases m n l) [
  | inl e ↦ subst (λ k. contains (at_rank k) p ≡ true) e h
  | inr k ↦ at_rank-suc p n (at_rank_mono p m n k h)
]

-- What meeting a requirement says of the ranks.
rank_le :
    (user_role min_role : String) (m n : ℕ)
    → find user_role role_rank ≡ some (pos n)
    → find min_role role_rank ≡ some (pos m)
    → has_min_role user_role min_role ≡ true
    → m ≤ n
unfolding has_min_role
rank_le user_role min_role m n found known high = ground (arith, found, known, high)

-- A role that meets the requirement of a role of the hierarchy has every permission of that role.
pub higher_has_permission :
    (user_role min_role permission : String) (k : ℤ)
    → find min_role role_rank ≡ some k
    → has_min_role user_role min_role ≡ true
    → has_permission min_role permission ≡ true
    → has_permission user_role permission ≡ true
unfolding has_min_role has_permission
higher_has_permission user_role min_role permission k known high h =
    elim (Option-cases (find user_role role_rank)) [
      | inl unknown ↦ absurd (ground (arith, rank_is_pos min_role k known))
      | inr (j, found) ↦
          let (m, em, _) = rank_is_pos min_role k known in
          let (n, en, _) = rank_is_pos user_role j found in
          let low : contains (at_rank m) permission ≡ true =
            subst (λ z. contains (by_rank z) permission ≡ true) em
              (subst (λ l. contains l permission ≡ true) (ranked min_role k known) h) in
          let l : m ≤ n =
            rank_le user_role min_role m n (found ∙ ap some en) (known ∙ ap some em) high in
          subst (λ l. contains l permission ≡ true) (sym (ranked user_role j found ∙ ap by_rank en))
            (at_rank_mono permission m n l low)
    ]

-- A role that is not in the hierarchy, such as that of an agent, meets no requirement; without a role
-- claim the requirement is met exactly if a viewer meets it.
pub unranked_is_refused :
    (min_role role : String)
    → find role role_rank ≡ none
    → (require_role min_role (some role) ≡ false)
      × (require_role min_role none ≡ has_min_role "viewer" min_role)
unfolding require_role has_min_role
unranked_is_refused min_role role unknown = elim (Option-cases (find min_role role_rank)) [
  | inl e ↦ (ground arith, refl)
  | inr (k, e) ↦ (ground (arith, rank_is_pos min_role k e), refl)
]
