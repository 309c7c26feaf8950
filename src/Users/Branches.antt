-- ===== src/Users/Branches.antt =====
-- The branches that `UserService.create` of
-- backend/app/modules/users_roles_permissions/service.py assigns.
use retail_os.Prelude.Distinct.{Distinct}
use retail_os.Users.UserService.{distinct}
use retail_os.Prelude.Rows.{any}
use retail_os.Users.Schemas.{UserCreate}
use retail_os.Users.UserService
use retail_os.Prelude.{
  ap, ==_iff, subst, refl, ◌||◌, ==_self, ◌⊎◌, inr, arith, sym, Bool-cases, ◌≡◌, inl, ◌∙◌, ◌==◌,
  Option-cases, some, none, Option, ℕ, List, true, [], ◌∷◌,
}

-- The branches of a user: those that are named in `assigned` and the default one, and no other, each
-- of them once.
abbrev pub AreBranches : List ℕ → Option ℕ → List ℕ → Type 0
AreBranches assigned default ids =
    ((id : ℕ) → any (λ b. b == id) assigned ≡ true → any (λ b. b == id) ids ≡ true)
    × ((id : ℕ) → default ≡ some id → any (λ b. b == id) ids ≡ true)
    × ((id : ℕ)
        → any (λ b. b == id) ids ≡ true
        → (any (λ b. b == id) assigned ≡ true) ⊎ (default ≡ some id))
    × Distinct (λ a b. a == b) ids

any-add_once : (id : ℕ) (ids : List ℕ) → any (λ b. b == id) (UserService.add_once id ids) ≡ true
any-add_once id ids = elim (Bool-cases (any (λ i. i == id) ids)) [
  | inl e ↦ rw e e
  | inr e ↦ rw (e, ==_self id) refl
]

any-add_once_at :
    (id other : ℕ) (ids : List ℕ)
    → any (λ b. b == id) (UserService.add_once other ids) ≡ (other == id || any (λ b. b == id) ids)
any-add_once_at id other ids = elim (Bool-cases (any (λ i. i == other) ids)) [
  | inl e ↦ elim (Bool-cases (other == id)) [
    | inl same ↦
        rw (e, same) (subst (λ k. any (λ b. b == k) ids ≡ true) ((==_iff other id).0 same) e)
    | inr differs ↦ rw (e, differs) refl
  ]
  | inr e ↦ rw e refl
]

any-distinct :
    (id : ℕ) (ids : List ℕ) → any (λ b. b == id) (UserService.distinct ids) ≡ any (λ b. b == id) ids
any-distinct id [] = refl
any-distinct id (x ∷ xs) =
    any-add_once_at id x (UserService.distinct xs) ∙ rw (any-distinct id xs) refl

add_once-Distinct :
    (id : ℕ) (ids : List ℕ)
    → Distinct (λ a b. a == b) ids
    → Distinct (λ a b. a == b) (UserService.add_once id ids)
add_once-Distinct id ids d = elim (Bool-cases (any (λ i. i == id) ids)) [
  | inl e ↦ rw e d
  | inr e ↦ rw e (e, d)
]

distinct-Distinct : (ids : List ℕ) → Distinct (λ a b. a == b) (UserService.distinct ids)
distinct-Distinct [] = tt
distinct-Distinct (id ∷ ids) = add_once-Distinct id _ (distinct-Distinct ids)

distinct-AreBranches :
    (assigned : List ℕ) → AreBranches assigned none (UserService.distinct assigned)
distinct-AreBranches assigned = (
  λ id h. any-distinct id assigned ∙ h,
  λ id e. absurd (cc e),
  λ id h. inl (sym (any-distinct id assigned) ∙ h),
  distinct-Distinct assigned,
)

add_once-AreBranches :
    (assigned : List ℕ) (id : ℕ)
    → AreBranches assigned (some id) (UserService.add_once id (UserService.distinct assigned))
add_once-AreBranches assigned id =
    let ids = UserService.distinct assigned in
    (
      (λ x h. any-add_once_at x id ids ∙ ground (arith, any-distinct x assigned)),
      (λ x e.
          subst (λ k. any (λ b. b == k) (UserService.add_once id ids) ≡ true) (cc e)
            (any-add_once id ids)),
      (λ x h. elim (Bool-cases (id == x)) [
        | inl same ↦ inr (ap some ((==_iff id x).0 same))
        | inr differs ↦ inl (ground (arith, any-add_once_at x id ids, any-distinct x assigned))
      ]),
      add_once-Distinct id ids (distinct-Distinct assigned),
    )

pub branch_ids-AreBranches :
    (request : UserCreate)
    → AreBranches request.assigned_branch_ids request.default_branch_id
        (UserService.branch_ids request)
branch_ids-AreBranches request = elim (Option-cases request.default_branch_id) [
  | inl e ↦ rw e (distinct-AreBranches request.assigned_branch_ids)
  | inr (id, e) ↦ rw e (add_once-AreBranches request.assigned_branch_ids id)
]
