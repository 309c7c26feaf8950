-- ===== src/Users/Models.antt =====
-- backend/app/modules/users_roles_permissions/models.py: users, roles, permissions, and the tables
-- that join them. The columns of SyncMixin and AuditMixin, and the time stamps of the rows, which
-- no code reads, are left out.
use retail_os.Prelude.{ℕ, String, Bool, Option}
use retail_os.Core.Time.{DateTime}

pub data PermissionAction : Type 0 where
  create read update delete export import approve : PermissionAction

pub record User : Type 0 where
  pub id : ℕ
  pub company_id : ℕ
  pub email : String
  pub phone : Option String
  pub full_name : String
  pub password_hash : String
  pub profile_photo_url : Option String
  pub default_branch_id : Option ℕ
  pub is_active : Bool
  pub must_change_password : Bool
  pub failed_login_attempts : ℕ
  pub locked_until : Option DateTime
  pub last_login_at : Option DateTime
  pub deleted_at : Option DateTime
  pub version : ℕ

-- `company_id` is `none` for a system default, which every company shares.
pub record Role : Type 0 where
  pub id : ℕ
  pub company_id : Option ℕ
  pub name : String
  pub description : Option String
  pub is_system : Bool
  pub deleted_at : Option DateTime

pub record Permission : Type 0 where
  pub id : ℕ
  pub code : String
  pub permission_module : String
  pub screen : Option String
  pub action : PermissionAction
  pub description : Option String

pub record RolePermission : Type 0 where
  pub role_id : ℕ
  pub permission_id : ℕ

pub record UserRole : Type 0 where
  pub user_id : ℕ
  pub role_id : ℕ

pub record UserBranch : Type 0 where
  pub user_id : ℕ
  pub branch_id : ℕ
