-- ===== src/Users/Creating.antt =====
-- `UserService.create` of backend/app/modules/users_roles_permissions/service.py when it returns.
use retail_os.Users.Branches.{branch_ids-AreBranches, AreBranches}
use retail_os.Users.UserService.{distinct}
use retail_os.Core.Security.{Libraries, hash_password}
use retail_os.Users.Schemas.{UserCreate}
use mathlib.Core.List.{append_assoc, append-nil}
use retail_os.Prelude.Rows.{All, select_one}
use retail_os.Core.Ensures.{
  Ensures-step, Ensures-raise_if, Ensures-ok, Ensures-run, Ensures-weaken, Ensures-bind, Ensures,
}
use retail_os.Users.Models.{User, UserRole, UserBranch}
use retail_os.Core.Session.{ok, for_each, ◌>>=◌, Session}
use retail_os.Prelude.{
  str_eq, arith, String, false, is_none, not, Option, none, ◌+◌, ◌∙◌, inr, inl, some, refl,
  Bool-cases, ap, ◌∷◌, ◌≡◌, [], map, ◌++◌, List, ℕ,
}
use retail_os.Users.UserRepository
use retail_os.Users.UserService

abbrev pub branch_rows : ℕ → List ℕ → List UserBranch
branch_rows user_id ids = map (λ id. record { user_id = user_id; branch_id = id }) ids

abbrev pub role_rows : ℕ → List ℕ → List UserRole
role_rows user_id ids = map (λ id. record { user_id = user_id; role_id = id }) ids

abbrev with_branches : Session → List UserBranch → Session
with_branches s rows = record s {
  db = record (s.db) { user_branches = s.db.user_branches ++ rows };
}

abbrev with_roles : Session → List UserRole → Session
with_roles s rows = record s { db = record (s.db) { user_roles = s.db.user_roles ++ rows } }

-- the row is added, if no constraint refuses it
assign_branch-appends :
    (user_id id : ℕ) (s : Session)
    → Ensures
        (λ _ s'. s' ≡ with_branches s (record { user_id = user_id; branch_id = id } ∷ []))
        (UserRepository.assign_branch user_id id s)
unfolding UserRepository.assign_branch ◌>>=◌
assign_branch-appends user_id id s = elim (Bool-cases (UserRepository.has_branch user_id id s.db)) [
  | inl e ↦ rw e tt
  | inr e ↦ rw e refl
]

assign_branches-appends :
    (user_id : ℕ) (ids : List ℕ) (s : Session)
    → Ensures
        (λ _ s'. s' ≡ with_branches s (branch_rows user_id ids))
        (UserRepository.assign_branches user_id ids s)
unfolding UserRepository.assign_branches for_each
assign_branches-appends user_id [] s = rw (append-nil s.db.user_branches) refl
assign_branches-appends user_id (id ∷ ids) s =
    let Q =
      λ (_ : Unit {0}) (s' : Session). s' ≡ with_branches s (branch_rows user_id (id ∷ ids)) in
    let s₁ = with_branches s (record { user_id = user_id; branch_id = id } ∷ []) in
    Ensures-bind Q (λ _ s'. s' ≡ s₁) _ _ s (assign_branch-appends user_id id s)
      λ _ s' e. rw e (
        Ensures-weaken Q _ _ (assign_branches-appends user_id ids s₁) λ _ s₂ h.
          h
          ∙ ap (λ rows. record s { db = record (s.db) { user_branches = rows } })
              (append_assoc s.db.user_branches _ (branch_rows user_id ids)))

assign_role-appends :
    (user_id id : ℕ) (s : Session)
    → Ensures
        (λ _ s'. s' ≡ with_roles s (record { user_id = user_id; role_id = id } ∷ []))
        (UserRepository.assign_role user_id id s)
unfolding UserRepository.assign_role ◌>>=◌
assign_role-appends user_id id s = elim (Bool-cases (UserRepository.has_role user_id id s.db)) [
  | inl e ↦ rw e tt
  | inr e ↦ rw e refl
]

assign_roles-appends :
    (user_id : ℕ) (ids : List ℕ) (s : Session)
    → Ensures
        (λ _ s'. s' ≡ with_roles s (role_rows user_id ids))
        (UserRepository.assign_roles user_id ids s)
unfolding UserRepository.assign_roles for_each
assign_roles-appends user_id [] s = rw (append-nil s.db.user_roles) refl
assign_roles-appends user_id (id ∷ ids) s =
    let Q = λ (_ : Unit {0}) (s' : Session). s' ≡ with_roles s (role_rows user_id (id ∷ ids)) in
    let s₁ = with_roles s (record { user_id = user_id; role_id = id } ∷ []) in
    Ensures-bind Q (λ _ s'. s' ≡ s₁) _ _ s (assign_role-appends user_id id s)
      λ _ s' e. rw e (
        Ensures-weaken Q _ _ (assign_roles-appends user_id ids s₁) λ _ s₂ h.
          h
          ∙ ap (λ rows. record s { db = record (s.db) { user_roles = rows } })
              (append_assoc s.db.user_roles _ (role_rows user_id ids)))

-- What a creation of `user` has done, with the branches as the service computes them.
pub record Created (company_id : ℕ) (request : UserCreate) (s : Session) (user : User)
    (s' : Session) : Type 0 where
  pub free : select_one (UserRepository.has_email request.email) s.db.users ≡ none
  pub added : s'.db.users ≡ s.db.users ++ user ∷ []
  pub email : user.email ≡ request.email
  pub company : user.company_id ≡ company_id
  pub branches :
      s'.db.user_branches
      ≡ s.db.user_branches ++ branch_rows user.id (UserService.branch_ids request)
  pub roles : s'.db.user_roles ≡ s.db.user_roles ++ role_rows user.id request.role_ids
  pub elsewhere : s'.db ≡ record (s.db) {
    users = s'.db.users;
    user_branches = s'.db.user_branches;
    user_roles = s'.db.user_roles;
  }
  pub full_name : user.full_name ≡ request.full_name
  pub phone : user.phone ≡ request.phone
  pub default_branch : user.default_branch_id ≡ request.default_branch_id

none-free :
    (email : String) (users : List User)
    → select_one (UserRepository.has_email email) users ≡ none
    → All (λ u. u.deleted_at ≡ none → str_eq u.email email ≡ false) users
none-free email [] h = tt
none-free email (u ∷ us) h = elim (Bool-cases (UserRepository.has_email email u)) [
  | inl e ↦ absurd (cc (rw e at h))
  | inr e ↦ ((λ live. ground arith), none-free email us (rw e at h))
]

is_free : {A : Type 0} (o : Option A) → not (is_none o) ≡ false → o ≡ none
is_free none h = refl
is_free (some a) h = absurd (cc h)

abbrev with_user : Session → User → Session
with_user s user = record s { db = record (s.db) { users = s.db.users ++ user ∷ [] } }

create-appends :
    (user : User) (s : Session)
    → Ensures (λ _ s'. s' ≡ with_user s user) (UserRepository.create user s)
unfolding UserRepository.create
create-appends user s = elim (Bool-cases (UserRepository.breaks_constraints user s.db)) [
  | inl e ↦ rw e tt
  | inr e ↦ rw e refl
]

hash_password-salts :
    (libs : Libraries) (password : String) (s : Session)
    → hash_password libs password s
      ≡ (ok (libs.argon2_hash s.next_id password), record s { next_id = s.next_id + 1 })
unfolding hash_password
hash_password-salts libs password s = refl

pub create-Created :
    (libs : Libraries) (company_id : ℕ) (request : UserCreate) (s : Session)
    → Ensures (Created company_id request s) (UserService.create libs company_id request s)
unfolding UserService.create UserRepository.get_by_email
create-Created libs company_id request s =
    let Q = Created company_id request s in
    let s₁ : Session = record s { next_id = s.next_id + 1 } in
    let s₂ : Session = record s { next_id = s.next_id + 1 + 1 } in
    let user =
      UserService.new_user s.next_id company_id request
        (libs.argon2_hash (s.next_id + 1) request.password) in
    let s₃ = with_user s₂ user in
    let s₄ = with_branches s₃ (branch_rows user.id (UserService.branch_ids request)) in
    let done : select_one (UserRepository.has_email request.email) s.db.users ≡ none
        → Created company_id request s user (with_roles s₄ (role_rows user.id request.role_ids)) =
      λ free. record {
        free = free;
        added = refl;
        email = refl;
        company = refl;
        branches = refl;
        roles = refl;
        elsewhere = refl;
        full_name = refl;
        phone = refl;
        default_branch = refl;
      } in
    Ensures-run Q _ _ s (select_one (UserRepository.has_email request.email) s.db.users) s refl (
      Ensures-raise_if Q _ _ _ s λ taken. Ensures-run Q _ _ s s.next_id s₁ refl (
        Ensures-run Q _ _ s₁ (libs.argon2_hash (s.next_id + 1) request.password) s₂
          (hash_password-salts libs request.password s₁)
          (Ensures-step Q s₃ _ _ s₂ (create-appends user s₂) λ _.
            Ensures-step Q s₄ _ _ s₃
              (assign_branches-appends user.id (UserService.branch_ids request) s₃)
              λ _.
                Ensures-step Q (with_roles s₄ (role_rows user.id request.role_ids)) _ _ s₄
                  (assign_roles-appends user.id request.role_ids s₄) λ _. done (is_free _ taken))))

-- What a creation of `user` has done: no live user had the e-mail, the user is added to the company with the
-- fields of the request, its branches are those that the request names and the default one, its roles
-- those of the request, and no other table has changed.
pub record Creates (company_id : ℕ) (request : UserCreate) (s : Session) (user : User)
    (s' : Session) : Type 0 where
  pub free : All (λ u. u.deleted_at ≡ none → str_eq u.email request.email ≡ false) s.db.users
  pub added : s'.db.users ≡ s.db.users ++ user ∷ []
  pub email : user.email ≡ request.email
  pub company : user.company_id ≡ company_id
  pub full_name : user.full_name ≡ request.full_name
  pub phone : user.phone ≡ request.phone
  pub default_branch : user.default_branch_id ≡ request.default_branch_id
  pub ids : List ℕ
  pub are_branches : AreBranches request.assigned_branch_ids request.default_branch_id ids
  pub branches : s'.db.user_branches ≡ s.db.user_branches ++ branch_rows user.id ids
  pub roles : s'.db.user_roles ≡ s.db.user_roles ++ role_rows user.id request.role_ids
  pub elsewhere : s'.db ≡ record (s.db) {
    users = s'.db.users;
    user_branches = s'.db.user_branches;
    user_roles = s'.db.user_roles;
  }

-- A creation of a user that returns found no live user with the e-mail, adds the user to the
-- company with the fields of the request, and assigns the roles of the request and its branches, once each: those that it names
-- and its default branch, and no other. No other table changes.
pub create_user-Creates :
    (libs : Libraries) (company_id : ℕ) (request : UserCreate) (s : Session) {user : User}
    {s' : Session}
    → UserService.create libs company_id request s ≡ (ok user, s')
    → Creates company_id request s user s'
create_user-Creates libs company_id request s e =
    Ensures-ok (Creates company_id request s) _
      (Ensures-weaken (Creates company_id request s) _ _ (create-Created libs company_id request s)
        λ user s' c. record {
          free = none-free request.email s.db.users c.free;
          added = c.added;
          email = c.email;
          company = c.company;
          full_name = c.full_name;
          phone = c.phone;
          default_branch = c.default_branch;
          ids = UserService.branch_ids request;
          are_branches = branch_ids-AreBranches request;
          branches = c.branches;
          roles = c.roles;
          elsewhere = c.elsewhere;
        })
      e
