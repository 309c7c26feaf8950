-- ===== src/Users/UserService.antt =====
-- `UserService` of backend/app/modules/users_roles_permissions/service.py. A change of a loaded
-- object writes the changed columns of its row.
use retail_os.Core.Exceptions.{
  field_exception, conflict_exception, runtime_error, not_found_exception,
}
use retail_os.Core.Versioned.{versioned_update}
use retail_os.Prelude.Rows.{update_where, any}
use retail_os.Core.Time.{minutes, DateTime}
use retail_os.Core.Db.{Db}
use retail_os.Prelude.Fields.{given, is_null, set, is_set, set_required}
use retail_os.Core.Config.{Settings}
use retail_os.Users.Models.{User}
use retail_os.Core.Security.{hash_password, Libraries}
use retail_os.Users.Schemas.{UserUpdate, UserCreate}
use retail_os.Prelude.{
  is_none, ltb, leb, ◌&&◌, ◌||◌, ◌+◌, not, false, ◌==◌, true, some, [], Option, Bool, none, ◌∷◌,
  if◌then◌else◌, List, String, ℕ,
}
use retail_os.Users.UserRepository
use retail_os.Users.RoleRepository
use retail_os.Core.Session.{uuid4, pure, gets, raise_if, modify_db, or_raise, M, ◌>>=◌, ◌>>◌}

unfoldable pub get : ℕ → ℕ → M User
unfolding ◌>>=◌ UserRepository.get_by_id
get company_id user_id = UserRepository.get_by_id company_id user_id >>= λ user.
    or_raise user (not_found_exception "User not found")

abbrev pub get_by_email_for_login : String → M (Option User)
get_by_email_for_login email = UserRepository.get_by_email email

-- `set(ids)`, each id once
abbrev pub add_once : ℕ → List ℕ → List ℕ
add_once id ids = if any (λ i. i == id) ids then ids else id ∷ ids

abbrev pub distinct : List ℕ → List ℕ
distinct [] = []
distinct (id ∷ ids) = add_once id (distinct ids)

abbrev pub branch_ids : UserCreate → List ℕ
branch_ids request = elim request.default_branch_id [
  | none ↦ distinct request.assigned_branch_ids
  | some id ↦ add_once id (distinct request.assigned_branch_ids)
]

abbrev pub new_user : ℕ → ℕ → UserCreate → String → User
new_user id company_id request password_hash = record {
  id = id;
  company_id = company_id;
  email = request.email;
  phone = request.phone;
  full_name = request.full_name;
  password_hash = password_hash;
  profile_photo_url = none;
  default_branch_id = request.default_branch_id;
  is_active = true;
  must_change_password = false;
  failed_login_attempts = 0;
  locked_until = none;
  last_login_at = none;
  deleted_at = none;
  version = 1;
}

-- A write of columns of the row with this primary key.
abbrev pub write_user : ℕ → (User → User) → M (Unit {0})
write_user user_id change =
    modify_db λ db. record db { users = update_where (λ u. u.id == user_id) change db.users }

abbrev pub default_role_super_admin : String
default_role_super_admin = "Super Admin"

module _ (libs : Libraries) where
  unfoldable pub create : ℕ → UserCreate → M User
  create company_id request = do
    taken ← UserRepository.get_by_email request.email
    raise_if (not (is_none taken)) (field_exception "Email is already registered" "email")
    id ← uuid4
    password_hash ← hash_password libs request.password
    let user = new_user id company_id request password_hash
    UserRepository.create user
    UserRepository.assign_branches user.id (branch_ids request)
    UserRepository.assign_roles user.id request.role_ids
    pure user

  unfoldable pub create_owner : ℕ → ℕ → UserCreate → M User
  create_owner company_id branch_id request = do
    role ← RoleRepository.get_system_role_by_name default_role_super_admin
    super_admin_role ← or_raise role runtime_error
    create company_id (record request {
      default_branch_id = some branch_id;
      assigned_branch_ids = branch_id ∷ [];
      role_ids = super_admin_role.id ∷ [];
    })

  unfoldable pub admin_reset_password : ℕ → ℕ → String → M User
  admin_reset_password company_id user_id new_password = do
    user ← get company_id user_id
    password_hash ← hash_password libs new_password
    let user' = record user {
      password_hash = password_hash;
      must_change_password = true;
      version = user.version + 1;
    }
    write_user user.id λ u. record u {
      password_hash = password_hash;
      must_change_password = true;
      version = user.version + 1;
    }
    pure user'

abbrev pub has_changes : UserUpdate → Bool
has_changes request =
    is_set request.full_name
    || (is_set request.phone
        || (is_set request.profile_photo_url
            || (is_set request.default_branch_id || is_set request.is_active)))

abbrev pub apply_changes : UserUpdate → User → User
apply_changes request u = record u {
  full_name = set_required request.full_name u.full_name;
  phone = set request.phone u.phone;
  profile_photo_url = set request.profile_photo_url u.profile_photo_url;
  default_branch_id = set request.default_branch_id u.default_branch_id;
  is_active = set_required request.is_active u.is_active;
  version = u.version + 1;
}

-- A null in a column that is NOT NULL, or a default branch that does not exist.
abbrev pub violates : UserUpdate → Db → Bool
violates request db =
    is_null request.full_name
    || (is_null request.is_active || UserRepository.no_branch (given request.default_branch_id) db)

abbrev pub is_version : ℕ → ℕ → ℕ → User → Bool
is_version company_id user_id expected_version u =
    u.id == user_id && (u.company_id == company_id && u.version == expected_version)

unfoldable pub update : ℕ → ℕ → UserUpdate → ℕ → M User
update company_id user_id request expected_version =
    if has_changes request
    then versioned_update (λ db. db.users) (λ users db. record db { users = users })
        (is_version company_id user_id expected_version) (apply_changes request) (violates request)
        (UserRepository.get_by_id company_id user_id) (not_found_exception "User not found")
        (conflict_exception "User was modified by someone else. Reload and try again.")
    else get company_id user_id

unfoldable pub disable : ℕ → ℕ → M User
disable company_id user_id = do
  user ← get company_id user_id
  write_user user.id λ u. record u { is_active = false; version = user.version + 1 }
  pure (record user { is_active = false; version = user.version + 1 })

unfoldable pub record_successful_login : User → M (Unit {0})
unfolding ◌>>=◌
record_successful_login user = do
  now ← gets (λ s. s.now)
  write_user user.id
      λ u. record u { failed_login_attempts = 0; locked_until = none; last_login_at = some now }

-- `locked_until` after the attempt
abbrev pub lock_after : Settings → DateTime → ℕ → Option DateTime → Option DateTime
lock_after settings now attempts locked_until =
    if leb settings.max_failed_login_attempts attempts
    then some (now + minutes settings.account_lockout_minutes)
    else locked_until

unfoldable pub record_failed_login : Settings → User → M (Unit {0})
unfolding ◌>>=◌
record_failed_login settings user = do
  now ← gets (λ s. s.now)
  let attempts = user.failed_login_attempts + 1
  write_user user.id λ u. record u {
    failed_login_attempts = attempts;
    locked_until = lock_after settings now attempts user.locked_until;
  }

abbrev pub is_locked : User → DateTime → Bool
is_locked user now = elim user.locked_until [ none ↦ false | some t ↦ ltb now t ]
