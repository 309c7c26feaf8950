-- ===== src/Company/Tests.antt =====
-- A company with one branch, on which the theorems about updates are run:
-- backend/app/modules/company/service.py.
use retail_os.Company.Updates.{branch_update-once, company_update-once}
use retail_os.Core.Exceptions.{conflict_exception}
use retail_os.Core.Db.{empty_db}
use retail_os.Company.Models.{Company}
use retail_os.Core.Versioned.{versioned_update}
use retail_os.Prelude.{refl, [], ◌∷◌, ◌≡◌, some, none, String}
use retail_os.Core.Session.{err, ◌>>=◌, start, Session}
use retail_os.Company.CompanyRepository.{is_company}
use retail_os.Company.Schemas.{BranchUpdate, CompanyUpdate}
use retail_os.Company.CompanyService
use retail_os.Company.CompanyRepository
use retail_os.Company.BranchService
use retail_os.Company.BranchRepository

abbrev no_changes : CompanyUpdate
no_changes = record {
  name = none;
  brand_name = none;
  logo_url = none;
  gst_number = none;
  pan = none;
  address_line = none;
  city = none;
  state = none;
  country = none;
  pincode = none;
  mobile = none;
  email = none;
  website = none;
  currency = none;
  timezone = none;
  financial_year_start_month = none;
  invoice_prefix = none;
  invoice_footer = none;
  default_tax_percent = none;
  is_active = none;
}

abbrev shop : Company
shop = CompanyService.new_company 1 (record {
  name = "Shop";
  brand_name = none;
  logo_url = none;
  gst_number = none;
  pan = none;
  address_line = none;
  city = none;
  state = none;
  country = none;
  pincode = none;
  mobile = none;
  email = none;
  website = none;
  currency = "INR";
  timezone = "Asia/Kolkata";
  financial_year_start_month = 4;
  invoice_prefix = some "INV";
  invoice_footer = none;
  default_tax_percent = none;
})

abbrev town : Session
town =
    start 1000 100
      (record empty_db { companies = shop ∷ []; branches = BranchService.default_branch 2 1 ∷ [] })

abbrev rename : String → CompanyUpdate
rename name = record no_changes { name = some (some name) }

abbrev rename_branch : String → BranchUpdate
rename_branch name = record {
  name = some (some name);
  code = none;
  address_line = none;
  phone = none;
  gst_number = none;
  manager_user_id = none;
  default_warehouse_id = none;
  is_active = none;
}

company_update-once_example :
    let s' = (CompanyService.update 1 (rename "Store") 1 town).1 in
    CompanyService.update 1 (rename "Mall") 1 s'
    ≡ (err (conflict_exception "Company was modified by someone else. Reload and try again."), s')
unfolding CompanyService.update versioned_update CompanyRepository.get_by_id ◌>>=◌
company_update-once_example =
    company_update-once 1 1 (rename "Store") (rename "Mall") town
      {s' = (CompanyService.update 1 (rename "Store") 1 town).1} refl refl refl

branch_update-once_example :
    let s' = (BranchService.update 1 2 (rename_branch "North") 1 town).1 in
    BranchService.update 1 2 (rename_branch "South") 1 s'
    ≡ (err (conflict_exception "Branch was modified by someone else. Reload and try again."), s')
unfolding BranchService.update versioned_update BranchRepository.get_by_id ◌>>=◌
branch_update-once_example =
    branch_update-once 1 2 1 (rename_branch "North") (rename_branch "South") town
      {s' = (BranchService.update 1 2 (rename_branch "North") 1 town).1} refl refl refl
