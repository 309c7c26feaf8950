-- ===== src/Core/Config.antt =====
-- backend/app/core/config.py: the settings that the modelled code reads.
use retail_os.Prelude.{ℕ, String}

pub record Settings : Type 0 where
  pub jwt_secret_key : String
  pub jwt_algorithm : String
  pub access_token_expire_minutes : ℕ
  pub refresh_token_expire_days : ℕ
  pub refresh_token_expire_days_session : ℕ
  pub max_failed_login_attempts : ℕ
  pub account_lockout_minutes : ℕ

abbrev pub default_settings : Settings
default_settings = record {
  jwt_secret_key = "change-me-in-every-non-development-environment";
  jwt_algorithm = "HS256";
  access_token_expire_minutes = 15;
  refresh_token_expire_days = 30;
  refresh_token_expire_days_session = 1;
  max_failed_login_attempts = 5;
  account_lockout_minutes = 15;
}
