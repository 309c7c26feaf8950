-- ===== src/Audit/AuditService.antt =====
-- backend/app/modules/audit: `AuditLogRepository` and `AuditService`, which passes every call on.
use retail_os.Prelude.{ℕ, String, Option, none, List, [], ◌∷◌, ◌++◌, leb, is_id}
use retail_os.Prelude.Rows.{select_all, order_by, take}
use retail_os.Core.Session.{M, gets, uuid4, modify_db, ◌>>=◌}
use retail_os.Audit.Models.{AuditLog, JsonValue}

-- what a caller passes to `log`
pub record Entry : Type 0 where
  pub action : String
  pub company_id : Option ℕ
  pub user_id : Option ℕ
  pub entity_table : Option String
  pub entity_id : Option ℕ
  pub after_data : Option (List (String × JsonValue))
  pub ip_address : Option String
  pub user_agent : Option String

abbrev pub entry : String → Option ℕ → Option ℕ → Entry
entry action company_id user_id = record {
  action = action;
  company_id = company_id;
  user_id = user_id;
  entity_table = none;
  entity_id = none;
  after_data = none;
  ip_address = none;
  user_agent = none;
}

-- The row of an entry: its id is drawn by the column's default, and its time is the database's.
abbrev pub log_row : Entry → ℕ → ℕ → AuditLog
log_row e id created_at = record {
  id = id;
  company_id = e.company_id;
  user_id = e.user_id;
  action = e.action;
  entity_table = e.entity_table;
  entity_id = e.entity_id;
  after_data = e.after_data;
  ip_address = e.ip_address;
  user_agent = e.user_agent;
  created_at = created_at;
}

unfoldable pub log : Entry → M (Unit {0})
unfolding ◌>>=◌
log e = do
  id ← uuid4
  now ← gets (λ s. s.now)
  modify_db λ db. record db { audit_logs = db.audit_logs ++ log_row e id now ∷ [] }

-- `list_for_user`, newest first.
unfoldable pub list_login_history : ℕ → ℕ → M (List AuditLog)
list_login_history user_id limit = gets λ s. take limit (
    order_by (λ x y. leb y.created_at x.created_at)
      (select_all (λ e. is_id e.user_id user_id) s.db.audit_logs))
