-- ===== src/Auth/Models.antt =====
-- backend/app/modules/auth/models.py: the device sessions and the tokens of password resets.
use retail_os.Prelude.{ℕ, String, Option}
use retail_os.Core.Time.{DateTime}

pub record RefreshToken : Type 0 where
  pub id : ℕ
  pub user_id : ℕ
  pub token_hash : String
  pub device_id : Option String
  pub device_name : Option String
  pub ip_address : Option String
  pub user_agent : Option String
  pub issued_at : DateTime
  pub expires_at : DateTime
  pub revoked_at : Option DateTime
  pub last_used_at : Option DateTime
  pub replaced_by_token_id : Option ℕ

pub record PasswordResetToken : Type 0 where
  pub id : ℕ
  pub user_id : ℕ
  pub token_hash : String
  pub expires_at : DateTime
  pub used_at : Option DateTime
  pub created_at : DateTime
