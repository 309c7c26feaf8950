-- ===== src/Company/Models.antt =====
-- backend/app/modules/company/models.py: the tables of companies, branches and warehouses. The
-- columns of SyncMixin and AuditMixin, which no code writes, are left out.
use retail_os.Prelude.{ℕ, String, Bool, Option}
use retail_os.Core.Time.{DateTime}
use retail_os.Core.Decimal.{Decimal}

pub record Company : Type 0 where
  pub id : ℕ
  pub name : String
  pub brand_name : Option String
  pub logo_url : Option String
  pub gst_number : Option String
  pub pan : Option String
  pub address_line : Option String
  pub city : Option String
  pub state : Option String
  pub country : Option String
  pub pincode : Option String
  pub mobile : Option String
  pub email : Option String
  pub website : Option String
  pub currency : String
  pub timezone : String
  pub financial_year_start_month : ℕ
  pub invoice_prefix : Option String
  pub invoice_footer : Option String
  pub default_tax_percent : Option Decimal
  pub is_active : Bool
  pub deleted_at : Option DateTime
  pub version : ℕ

pub record Branch : Type 0 where
  pub id : ℕ
  pub company_id : ℕ
  pub name : String
  pub code : String
  pub address_line : Option String
  pub phone : Option String
  pub gst_number : Option String
  pub default_warehouse_id : Option ℕ
  pub manager_user_id : Option ℕ
  pub is_active : Bool
  pub deleted_at : Option DateTime
  pub version : ℕ

pub record Warehouse : Type 0 where
  pub id : ℕ
  pub company_id : ℕ
  pub branch_id : ℕ
  pub name : String
  pub code : String
  pub is_default : Bool
  pub is_active : Bool
  pub deleted_at : Option DateTime
  pub version : ℕ
