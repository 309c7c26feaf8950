-- ===== src/Users/PermissionRepository.antt =====
-- `PermissionRepository` of backend/app/modules/users_roles_permissions/repository.py.
use retail_os.Prelude.Rows.{select_all, select_one, order_by}
use retail_os.Prelude.{
  text_le, [], ◌==◌, str_eq, ◌++◌, if◌then◌else◌, ◌∷◌, map, Option, Bool, ℕ, List, String,
}
use retail_os.Core.Session.{gets, M}
use retail_os.Users.Models.{RolePermission, Permission}

abbrev pub before : Permission → Permission → Bool
before x y =
    if str_eq x.permission_module y.permission_module
    then text_le x.code y.code
    else text_le x.permission_module y.permission_module

unfoldable pub list_all : M (List Permission)
list_all = gets λ s. order_by before s.db.permissions

unfoldable pub get_by_code : String → M (Option Permission)
get_by_code code = gets λ s. select_one (λ p. str_eq p.code code) s.db.permissions

-- the codes of the permissions that a row of the join attaches
abbrev pub codes_of : RolePermission → List Permission → List String
codes_of r permissions = map (λ p. p.code) (select_all (λ p. r.permission_id == p.id) permissions)

abbrev pub join_codes : List RolePermission → List Permission → List String
join_codes [] permissions = []
join_codes (r ∷ rs) permissions = codes_of r permissions ++ join_codes rs permissions

unfoldable pub list_codes_for_role : ℕ → M (List String)
list_codes_for_role role_id =
    gets λ s.
      join_codes (select_all (λ r. r.role_id == role_id) s.db.role_permissions) s.db.permissions
