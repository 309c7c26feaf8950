-- ===== src/Auth/Schemas.antt =====
-- The requests and responses of backend/app/modules/auth/schemas.py, and `RequestContext`.
use retail_os.Prelude.{Bool, ℕ, String, Option}

pub record RequestContext : Type 0 where
  pub ip_address : Option String
  pub user_agent : Option String

pub record LoginRequest : Type 0 where
  pub email : String
  pub password : String
  pub remember_me : Bool
  pub device_id : Option String
  pub device_name : Option String

-- `token_type` is always "bearer"
pub record TokenResponse : Type 0 where
  pub access_token : String
  pub refresh_token : String

-- `TenantContext` of backend/app/core/tenant_context.py
pub record TenantContext : Type 0 where
  pub user_id : ℕ
  pub company_id : ℕ
  pub branch_id : Option ℕ
