-- ===== src/Users/RbacService.antt =====
-- `RBACService`, `RoleService` and `PermissionService` of
-- backend/app/modules/users_roles_permissions/service.py.
use retail_os.Core.Exceptions.{not_found_exception}
use retail_os.Users.Models.{Role}
use retail_os.Prelude.{some, [], none, ◌++◌, ◌∷◌, String, ℕ, List}
use retail_os.Users.UserRepository
use retail_os.Users.RoleRepository
use retail_os.Users.PermissionRepository
use retail_os.Core.Session.{or_raise, pure, M, ◌>>=◌}

-- The set of codes as a list, in which a code may stand more than once.
unfoldable pub collect : List ℕ → M (List String)
unfolding ◌>>=◌ PermissionRepository.list_codes_for_role
collect [] = pure []
collect (role_id ∷ role_ids) = do
  codes ← PermissionRepository.list_codes_for_role role_id
  rest ← collect role_ids
  pure (codes ++ rest)

unfoldable pub get_effective_permission_codes : ℕ → M (List String)
unfolding ◌>>=◌ UserRepository.get_role_ids
get_effective_permission_codes user_id = do
  role_ids ← UserRepository.get_role_ids user_id
  collect role_ids

unfoldable pub get_role : ℕ → M Role
unfolding ◌>>=◌ RoleRepository.get_by_id
get_role role_id = do
  or_raise (← RoleRepository.get_by_id role_id) (not_found_exception "Role not found")

unfoldable pub live_names : List ℕ → M (List String)
unfolding ◌>>=◌ RoleRepository.get_by_id
live_names [] = pure []
live_names (role_id ∷ role_ids) = do
  role ← RoleRepository.get_by_id role_id
  names ← live_names role_ids
  pure (elim role [ none ↦ names | some r ↦ r.name ∷ names ])

unfoldable pub list_names_for_user : ℕ → M (List String)
unfolding ◌>>=◌ UserRepository.get_role_ids
list_names_for_user user_id = do role_ids ← UserRepository.get_role_ids user_id; live_names role_ids
