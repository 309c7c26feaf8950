-- ===== src/Users/Schemas.antt =====
-- backend/app/modules/users_roles_permissions/schemas.py: the requests that create and change a user.
use retail_os.Prelude.{Bool, List, ℕ, Option, String}

pub record UserCreate : Type 0 where
  pub email : String
  pub password : String
  pub full_name : String
  pub phone : Option String
  pub default_branch_id : Option ℕ
  pub assigned_branch_ids : List ℕ
  pub role_ids : List ℕ

pub record UserUpdate : Type 0 where
  pub full_name : Option (Option String)
  pub phone : Option (Option String)
  pub profile_photo_url : Option (Option String)
  pub default_branch_id : Option (Option ℕ)
  pub is_active : Option (Option Bool)
