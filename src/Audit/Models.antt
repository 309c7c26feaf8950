-- ===== src/Audit/Models.antt =====
-- backend/app/modules/audit/models.py: the audit trail. `before_data`, `device_id` and the JSON of
-- values that no caller passes are left out.
use retail_os.Prelude.{ℕ, String, Option, List}
use retail_os.Prelude.Int.{ℤ}
use retail_os.Core.Time.{DateTime}

-- the values in `after_data`: `str(uuid)` and integers
pub data JsonValue : Type 0 where
  uuid : ℕ → JsonValue
  number : ℤ → JsonValue

pub record AuditLog : Type 0 where
  pub id : ℕ
  pub company_id : Option ℕ
  pub user_id : Option ℕ
  pub action : String
  pub entity_table : Option String
  pub entity_id : Option ℕ
  pub after_data : Option (List (String × JsonValue))
  pub ip_address : Option String
  pub user_agent : Option String
  pub created_at : DateTime
