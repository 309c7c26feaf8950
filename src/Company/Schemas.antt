-- ===== src/Company/Schemas.antt =====
-- backend/app/modules/company/schemas.py: the requests on companies, branches and warehouses.
use retail_os.Core.Decimal.{Decimal}
use retail_os.Prelude.{Bool, ℕ, Option, String}

pub record CompanyCreate : Type 0 where
  pub name : String
  pub brand_name : Option String
  pub logo_url : Option String
  pub gst_number : Option String
  pub pan : Option String
  pub address_line : Option String
  pub city : Option String
  pub state : Option String
  pub country : Option String
  pub pincode : Option String
  pub mobile : Option String
  pub email : Option String
  pub website : Option String
  pub currency : String
  pub timezone : String
  pub financial_year_start_month : ℕ
  pub invoice_prefix : Option String
  pub invoice_footer : Option String
  pub default_tax_percent : Option Decimal

pub record CompanyUpdate : Type 0 where
  pub name : Option (Option String)
  pub brand_name : Option (Option String)
  pub logo_url : Option (Option String)
  pub gst_number : Option (Option String)
  pub pan : Option (Option String)
  pub address_line : Option (Option String)
  pub city : Option (Option String)
  pub state : Option (Option String)
  pub country : Option (Option String)
  pub pincode : Option (Option String)
  pub mobile : Option (Option String)
  pub email : Option (Option String)
  pub website : Option (Option String)
  pub currency : Option (Option String)
  pub timezone : Option (Option String)
  pub financial_year_start_month : Option (Option ℕ)
  pub invoice_prefix : Option (Option String)
  pub invoice_footer : Option (Option String)
  pub default_tax_percent : Option (Option Decimal)
  pub is_active : Option (Option Bool)

pub record BranchCreate : Type 0 where
  pub name : String
  pub code : String
  pub address_line : Option String
  pub phone : Option String
  pub gst_number : Option String
  pub manager_user_id : Option ℕ

pub record BranchUpdate : Type 0 where
  pub name : Option (Option String)
  pub code : Option (Option String)
  pub address_line : Option (Option String)
  pub phone : Option (Option String)
  pub gst_number : Option (Option String)
  pub manager_user_id : Option (Option ℕ)
  pub default_warehouse_id : Option (Option ℕ)
  pub is_active : Option (Option Bool)

pub record WarehouseCreate : Type 0 where
  pub branch_id : ℕ
  pub name : String
  pub code : String
  pub is_default : Bool
