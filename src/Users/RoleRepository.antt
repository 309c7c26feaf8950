-- ===== src/Users/RoleRepository.antt =====
-- `RoleRepository` of backend/app/modules/users_roles_permissions/repository.py. Its `create` is
-- called nowhere.
use retail_os.Prelude.Rows.{select_all, select_one}
use retail_os.Core.Session.{gets, M}
use retail_os.Users.Models.{Role}
use retail_os.Prelude.{is_id, ◌||◌, is_none, ◌&&◌, str_eq, ◌==◌, List, Option, Bool, String, ℕ}

abbrev pub is_role : ℕ → Role → Bool
is_role role_id r = r.id == role_id && is_none r.deleted_at

unfoldable pub get_by_id : ℕ → M (Option Role)
get_by_id role_id = gets λ s. select_one (is_role role_id) s.db.roles

abbrev pub is_system_role : String → Role → Bool
is_system_role name r = str_eq r.name name && (is_none r.company_id && is_none r.deleted_at)

unfoldable pub get_system_role_by_name : String → M (Option Role)
get_system_role_by_name name = gets λ s. select_one (is_system_role name) s.db.roles

unfoldable pub list_available_for_company : ℕ → M (List Role)
list_available_for_company company_id = gets λ s.
    select_all
      (λ r. (is_none r.company_id || is_id r.company_id company_id) && is_none r.deleted_at)
      s.db.roles
