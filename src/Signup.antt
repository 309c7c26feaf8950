-- ===== src/Signup.antt =====
-- `signup_company` of backend/app/modules/company/api.py: a company with its first branch, warehouse and
-- owner, who is signed in.
use retail_os.Csv.Values.{chars}
use retail_os.Prelude.Rows.{length}
use retail_os.Auth.AuthService.{issue_initial_tokens}
use retail_os.Core.Exceptions.{validation_error}
use retail_os.Core.Session.{or_raise, pure, raise_if, ◌>>◌, ◌>>=◌, M}
use retail_os.Auth.Schemas.{TokenResponse, RequestContext}
use retail_os.Users.Models.{User}
use retail_os.Core.Config.{Settings}
use retail_os.Prelude.{◌&&◌, if◌then◌else◌, some, leb, Option, ℕ, not, Bool, [], none, String}
use retail_os.Core.Security.{Libraries}
use retail_os.Users.Schemas.{UserCreate}
use retail_os.Company.Models.{Warehouse, Branch, Company}
use retail_os.Company.Schemas.{CompanyCreate}
use retail_os.Company.CompanyService
use retail_os.Company.BranchService
use retail_os.Users.UserService
pub mod Founding
pub mod Tests

-- `CompanySignupRequest`
pub record CompanySignupRequest : Type 0 where
  pub company : CompanyCreate
  pub owner_email : String
  pub owner_password : String
  pub owner_full_name : String

-- the response's data
pub record SignupResponse : Type 0 where
  pub company : Company
  pub branch : Branch
  pub warehouse : Warehouse
  pub owner : User
  pub tokens : TokenResponse

-- `Field(min_length=..., max_length=...)`
abbrev has_length : ℕ → ℕ → String → Bool
has_length least most text = leb least (length (chars text)) && leb (length (chars text)) most

-- `UserCreate(...)`, which pydantic checks. `validate_email` is what it does with an EmailStr: the
-- normalized address, or none.
unfoldable pub owner_request : (String → Option String) → CompanySignupRequest → Option UserCreate
owner_request validate_email request = elim (validate_email request.owner_email) [
  | none ↦ none
  | some email ↦
      if has_length 8 128 request.owner_password && has_length 1 200 request.owner_full_name
      then some (record {
        email = email;
        password = request.owner_password;
        full_name = request.owner_full_name;
        phone = none;
        default_branch_id = none;
        assigned_branch_ids = [];
        role_ids = [];
      })
      else none
]

-- An argument that pydantic refuses raises ValidationError in the endpoint.
unfoldable pub signup_company :
    Libraries
    → Settings
    → (String → Option String)
    → CompanySignupRequest
    → RequestContext
    → M SignupResponse
signup_company libs settings validate_email request context = do
  company ← CompanyService.register_new_company request.company
  (branch, warehouse) ← BranchService.create_default_branch_with_warehouse company.id
  owner_data ← or_raise (owner_request validate_email request) validation_error
  owner ← UserService.create_owner libs company.id branch.id owner_data
  tokens ← issue_initial_tokens libs settings owner context
  pure (record {
    company = company;
    branch = branch;
    warehouse = warehouse;
    owner = owner;
    tokens = tokens;
  })
