-- ===== src/Users/Grants.antt =====
-- `get_effective_permission_codes` of backend/app/modules/users_roles_permissions/service.py against what
-- the tables of roles say.
use retail_os.Core.Returns.{run_to}
use retail_os.Users.Models.{Permission, UserRole, RolePermission}
use retail_os.Users.RbacService.{get_effective_permission_codes, collect}
use retail_os.Prelude.Rows.{any-select_all, any-map, any-append, any, select_all}
use retail_os.Core.Session.{pure, ◌>>=◌, ok, Session}
use retail_os.Prelude.{
  map, ◌∙◌, str_eq, refl, ◌&&◌, [], ◌≡◌, ◌++◌, ◌==◌, ◌∷◌, Bool, String, ℕ, List,
}
use retail_os.Core.Db.{Db}
use retail_os.Users.PermissionRepository
use retail_os.Users.UserRepository

-- The user holds a role to which a permission with this code is attached.
abbrev pub attaches : Db → ℕ → String → Bool
attaches db role_id code =
    any
      (λ (a : RolePermission).
        a.role_id == role_id
        && any (λ (p : Permission). a.permission_id == p.id && str_eq code p.code) db.permissions)
      db.role_permissions

abbrev pub grants : Db → ℕ → String → Bool
grants db user_id code =
    any (λ (h : UserRole). h.user_id == user_id && attaches db h.role_id code) db.user_roles

unfoldable codes_for : Db → ℕ → List String
codes_for db role_id =
    PermissionRepository.join_codes (select_all (λ r. r.role_id == role_id) db.role_permissions)
      db.permissions

unfoldable collected : Db → List ℕ → List String
collected db [] = []
collected db (id ∷ ids) = codes_for db id ++ collected db ids

collect-reads : (ids : List ℕ) (s : Session) → collect ids s ≡ (ok (collected s.db ids), s)
unfolding collected collect codes_for PermissionRepository.list_codes_for_role
collect-reads [] s = refl
collect-reads (id ∷ ids) s =
    run_to (PermissionRepository.list_codes_for_role id)
      (λ codes. collect ids >>= λ rest. pure (codes ++ rest)) s (codes_for s.db id) s _ refl
      (run_to (collect ids) (λ rest. pure (codes_for s.db id ++ rest)) s _ s _ (collect-reads ids s)
        refl)

joined-attaches :
    (code : String) (links : List RolePermission) (permissions : List Permission)
    → any (str_eq code) (PermissionRepository.join_codes links permissions)
      ≡ any
          (λ (a : RolePermission).
            any (λ (p : Permission). a.permission_id == p.id && str_eq code p.code) permissions)
          links
joined-attaches code [] permissions = refl
joined-attaches code (a ∷ links) permissions =
    rw
      (
        any-append (str_eq code) (PermissionRepository.codes_of a permissions)
            (PermissionRepository.join_codes links permissions),
        any-map (str_eq code) (λ (p : Permission). p.code)
            (select_all (λ p. a.permission_id == p.id) permissions),
        any-select_all (λ (p : Permission). str_eq code p.code) (λ p. a.permission_id == p.id)
            permissions,
        joined-attaches code links permissions,
      )
      refl

codes_for-attaches :
    (db : Db) (role_id : ℕ) (code : String)
    → any (str_eq code) (codes_for db role_id) ≡ attaches db role_id code
unfolding codes_for
codes_for-attaches db role_id code =
    joined-attaches code (select_all (λ r. r.role_id == role_id) db.role_permissions) db.permissions
    ∙ any-select_all _ (λ r. r.role_id == role_id) db.role_permissions

collected-attaches :
    (db : Db) (ids : List ℕ) (code : String)
    → any (str_eq code) (collected db ids) ≡ any (λ id. attaches db id code) ids
unfolding collected
collected-attaches db [] code = refl
collected-attaches db (id ∷ ids) code =
    rw
      (
        any-append (str_eq code) (codes_for db id) (collected db ids),
        codes_for-attaches db id code,
        collected-attaches db ids code,
      )
      refl

unfoldable effective_codes : Db → ℕ → List String
effective_codes db user_id =
    collected db (map (λ r. r.role_id) (select_all (λ r. r.user_id == user_id) db.user_roles))

-- The codes that are computed for a user are those of the permissions that the tables attach to a
-- role of the user, and reading them changes nothing.
pub get_effective_permission_codes-grants :
    (user_id : ℕ) (code : String) (s : Session)
    → (codes : List String) × (get_effective_permission_codes user_id s ≡ (ok codes, s))
      × (any (str_eq code) codes ≡ grants s.db user_id code)
unfolding effective_codes get_effective_permission_codes ◌>>=◌ UserRepository.get_role_ids
get_effective_permission_codes-grants user_id code s = (
  effective_codes s.db user_id,
  collect-reads _ s,
  rw
      (collected-attaches s.db
        (map (λ (r : UserRole). r.role_id) (select_all (λ r. r.user_id == user_id) s.db.user_roles))
        code)
      (any-map (λ id. attaches s.db id code) (λ (r : UserRole). r.role_id) _
        ∙ any-select_all _ (λ (r : UserRole). r.user_id == user_id) s.db.user_roles),
)
