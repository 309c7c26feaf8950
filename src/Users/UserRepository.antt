-- ===== src/Users/UserRepository.antt =====
-- `UserRepository` of backend/app/modules/users_roles_permissions/repository.py. Names are ordered
-- by their bytes.
use retail_os.Core.Exceptions.{integrity_error}
use retail_os.Prelude.Rows.{select_all, order_by, select_one, any}
use retail_os.Core.Db.{Db}
use retail_os.Core.Session.{modify_db, raise_if, ◌>>◌, for_each, gets, M, ◌>>=◌}
use retail_os.Users.Models.{User}
use retail_os.Prelude.{
  [], ◌∷◌, ◌++◌, none, not, text_le, is_none, map, ◌||◌, some, ◌&&◌, false, str_eq, ◌==◌, List,
  Bool, Option, String, ℕ,
}

abbrev pub is_user : ℕ → ℕ → User → Bool
is_user company_id user_id u =
    u.id == user_id && (u.company_id == company_id && is_none u.deleted_at)

unfoldable pub get_by_id : ℕ → ℕ → M (Option User)
get_by_id company_id user_id = gets λ s. select_one (is_user company_id user_id) s.db.users

abbrev pub is_live : ℕ → User → Bool
is_live user_id u = u.id == user_id && is_none u.deleted_at

unfoldable pub get_by_id_unscoped : ℕ → M (Option User)
get_by_id_unscoped user_id = gets λ s. select_one (is_live user_id) s.db.users

abbrev pub has_email : String → User → Bool
has_email email u = str_eq u.email email && is_none u.deleted_at

unfoldable pub get_by_email : String → M (Option User)
get_by_email email = gets λ s. select_one (has_email email) s.db.users

unfoldable pub list_for_company : ℕ → M (List User)
list_for_company company_id = gets λ s.
    order_by (λ x y. text_le x.full_name y.full_name)
      (select_all (λ u. u.company_id == company_id && is_none u.deleted_at) s.db.users)

-- a nullable reference to a branch
abbrev pub no_branch : Option ℕ → Db → Bool
no_branch none db = false
no_branch (some branch_id) db = not (any (λ b. b.id == branch_id) db.branches)

-- The constraints of the table: the e-mail is unique, also among the deleted users, and the company
-- and the default branch exist.
abbrev pub breaks_constraints : User → Db → Bool
breaks_constraints user db =
    any (λ u. str_eq u.email user.email) db.users
    || (not (any (λ c. c.id == user.company_id) db.companies)
        || no_branch user.default_branch_id db)

unfoldable pub create : User → M (Unit {0})
unfolding ◌>>=◌
create user = do
  raise_if (← gets λ s. breaks_constraints user s.db) integrity_error
  modify_db λ db. record db { users = db.users ++ user ∷ [] }

-- A row's primary key is the pair; both its parts are foreign keys. The row is there already, or the
-- branch is not.
abbrev pub has_branch : ℕ → ℕ → Db → Bool
has_branch user_id branch_id db =
    any (λ r. r.user_id == user_id && r.branch_id == branch_id) db.user_branches
    || no_branch (some branch_id) db

unfoldable pub assign_branch : ℕ → ℕ → M (Unit {0})
unfolding ◌>>=◌
assign_branch user_id branch_id = do
  raise_if (← gets λ s. has_branch user_id branch_id s.db) integrity_error
  modify_db λ db. record db {
    user_branches = db.user_branches ++ record { user_id = user_id; branch_id = branch_id } ∷ [];
  }

unfoldable pub assign_branches : ℕ → List ℕ → M (Unit {0})
assign_branches user_id branch_ids = for_each (assign_branch user_id) branch_ids

unfoldable pub get_assigned_branch_ids : ℕ → M (List ℕ)
get_assigned_branch_ids user_id =
    gets λ s. map (λ r. r.branch_id) (select_all (λ r. r.user_id == user_id) s.db.user_branches)

abbrev pub has_role : ℕ → ℕ → Db → Bool
has_role user_id role_id db =
    any (λ r. r.user_id == user_id && r.role_id == role_id) db.user_roles
    || not (any (λ r. r.id == role_id) db.roles)

unfoldable pub assign_role : ℕ → ℕ → M (Unit {0})
unfolding ◌>>=◌
assign_role user_id role_id = do
  raise_if (← gets λ s. has_role user_id role_id s.db) integrity_error
  modify_db λ db. record db {
    user_roles = db.user_roles ++ record { user_id = user_id; role_id = role_id } ∷ [];
  }

unfoldable pub assign_roles : ℕ → List ℕ → M (Unit {0})
assign_roles user_id role_ids = for_each (assign_role user_id) role_ids

unfoldable pub get_role_ids : ℕ → M (List ℕ)
get_role_ids user_id =
    gets λ s. map (λ r. r.role_id) (select_all (λ r. r.user_id == user_id) s.db.user_roles)
