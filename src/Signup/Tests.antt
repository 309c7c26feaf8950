-- ===== src/Signup/Tests.antt =====
-- A signup on a database that holds the system's roles alone: backend/app/modules/company/api.py.
use retail_os.Core.Config.{default_settings}
use retail_os.Signup.Founding.{signup_company-founds, Founded}
use retail_os.Auth.AuthService.{issue_initial_tokens, issue_token_pair}
use retail_os.Core.Security.{hash_password, create_access_token, create_refresh_token, create_token}
use retail_os.Core.Session.{for_each, ◌>>=◌}
use retail_os.Auth.AuthService.{issue_token_pair}
use retail_os.Core.Db.{empty_db}
use retail_os.Prelude.{if◌then◌else◌, Option, String, refl, [], ◌∷◌, true, some, str_eq, none}
use retail_os.Auth.Schemas.{RequestContext}
use retail_os.Signup.{owner_request, issue_initial_tokens, signup_company, CompanySignupRequest}
use retail_os.Core.Security.{
  create_token, create_refresh_token, create_access_token, hash_password, Libraries,
}
use retail_os.Core.Session.{◌>>=◌, for_each, start, Session}
use retail_os.Users.UserService
use retail_os.Users.UserRepository
use retail_os.Users.RoleRepository
use retail_os.Company.CompanyService
use retail_os.Company.CompanyRepository
use retail_os.Company.BranchService
use retail_os.Company.BranchRepository
use retail_os.Company.WarehouseRepository
use retail_os.Auth.RefreshTokenRepository
use retail_os.Audit.AuditService

abbrev seeded : Session
seeded = start 1000 100 (record empty_db {
  roles =
      record {
        id = 7;
        company_id = none;
        name = "Super Admin";
        description = none;
        is_system = true;
        deleted_at = none;
      }
      ∷ [];
})

-- every hash and token is the same text
abbrev plain : Libraries
plain = record {
  jwt_encode = λ payload key algorithm. "token";
  jwt_decode = λ now token key algorithm. none;
  argon2_hash = λ salt password. password;
  argon2_verify = λ hash password. str_eq hash password;
  sha256 = λ text. text;
  token_urlsafe = λ bytes. "";
}

abbrev shop : CompanySignupRequest
shop = record {
  company = record {
    name = "Shop";
    brand_name = none;
    logo_url = none;
    gst_number = none;
    pan = none;
    address_line = none;
    city = none;
    state = none;
    country = none;
    pincode = none;
    mobile = none;
    email = none;
    website = none;
    currency = "INR";
    timezone = "Asia/Kolkata";
    financial_year_start_month = 4;
    invoice_prefix = some "INV";
    invoice_footer = none;
    default_tax_percent = none;
  };
  owner_email = "ann@SHOP.in";
  owner_password = "password";
  owner_full_name = "Ann";
}

abbrev caller : RequestContext
caller = record { ip_address = none; user_agent = none }

-- the one address of the tests, with its domain in lower case
abbrev normalize : String → Option String
normalize email = if str_eq email "ann@SHOP.in" then some "ann@shop.in" else none

signup_company-founds_example :
    Founded normalize shop seeded
      (record {
        company = CompanyService.new_company 100 shop.company;
        branch = record (BranchService.default_branch 101 100) { default_warehouse_id = some 102 };
        warehouse = BranchService.default_warehouse 102 100 101;
        owner =
            UserService.new_user 103 100
              (record {
                email = "ann@shop.in";
                password = "password";
                full_name = "Ann";
                phone = none;
                default_branch_id = some 101;
                assigned_branch_ids = [];
                role_ids = [];
              })
              "password";
        tokens = record { access_token = "token"; refresh_token = "token" };
      })
      (signup_company plain default_settings normalize shop caller seeded).1
unfolding signup_company owner_request CompanyService.register_new_company CompanyRepository.create
    BranchService.create_default_branch_with_warehouse BranchRepository.create
    WarehouseRepository.create UserService.create_owner RoleRepository.get_system_role_by_name
    UserService.create UserRepository.get_by_email UserRepository.create
    UserRepository.assign_branches UserRepository.assign_roles UserRepository.assign_branch
    UserRepository.assign_role hash_password for_each issue_initial_tokens AuditService.log
    issue_token_pair create_access_token create_refresh_token create_token
    RefreshTokenRepository.create ◌>>=◌
signup_company-founds_example =
    signup_company-founds plain default_settings normalize shop caller seeded refl
