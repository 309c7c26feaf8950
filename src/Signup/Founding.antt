-- ===== src/Signup/Founding.antt =====
-- What `signup_company` of backend/app/modules/company/api.py has done when it returns.
use retail_os.Auth.SigningIn.{issue_initial_tokens-Issued, logged}
use retail_os.Auth.Issuing.{Issued}
use retail_os.Audit.AuditService.{Entry}
use retail_os.Auth.AuthService.{request_entry}
use retail_os.Auth.Models.{RefreshToken}
use retail_os.Signup.{
  TokenResponse, owner_request, RequestContext, Settings, SignupResponse, signup_company,
  CompanySignupRequest,
}
use retail_os.Core.Returns.{run_to}
use retail_os.Company.Schemas.{CompanyCreate}
use retail_os.Users.Creating.{role_rows, branch_rows, create-Created, Created}
use retail_os.Prelude.Rows.{any, update_where, select_one}
use retail_os.Company.Models.{Warehouse, Branch}
use retail_os.Core.Ensures.{
  Ensures-ok, Ensures-bind, Ensures-weaken, Ensures-or_raise, Ensures-run, Ensures,
}
use retail_os.Users.Models.{User, Role}
use retail_os.Company.BranchRepository.{create, is_branch}
use retail_os.Users.Schemas.{UserCreate}
use retail_os.Core.Session.{ok, Session, ◌>>=◌}
use retail_os.Core.Security.{Libraries}
use retail_os.Prelude.{
  sym, ap, ◌∙◌, arith, Option, String, inr, inl, Bool-cases, true, ==_self, List, Bool, refl, ◌++◌,
  [], ◌==◌, ◌∷◌, some, ◌≡◌, ◌+◌, ℕ,
}
use retail_os.Users.UserService
use retail_os.Users.RoleRepository
use retail_os.Company.CompanyService
use retail_os.Company.CompanyRepository
use retail_os.Company.BranchService
use retail_os.Company.BranchRepository
use retail_os.Company.WarehouseRepository

-- the owner's request once the role is found
abbrev owner_of : ℕ → UserCreate → Role → UserCreate
owner_of branch_id request role = record request {
  default_branch_id = some branch_id;
  assigned_branch_ids = branch_id ∷ [];
  role_ids = role.id ∷ [];
}

abbrev Owns : ℕ → ℕ → UserCreate → Session → User → Session → Type 0
Owns company_id branch_id request s owner s' =
    (role : Role) × (select_one (RoleRepository.is_system_role UserService.default_role_super_admin)
        s.db.roles
      ≡ some role)
    × Created company_id (owner_of branch_id request role) s owner s'

create_owner-Owns :
    (libs : Libraries) (company_id branch_id : ℕ) (request : UserCreate) (s : Session)
    → Ensures
        (Owns company_id branch_id request s)
        (UserService.create_owner libs company_id branch_id request s)
unfolding UserService.create_owner RoleRepository.get_system_role_by_name
create_owner-Owns libs company_id branch_id request s =
    let Q = Owns company_id branch_id request s in
    Ensures-run Q _ _ s
      (select_one (RoleRepository.is_system_role UserService.default_role_super_admin) s.db.roles) s
      refl
      (Ensures-or_raise Q _ _ _ s λ role found.
        Ensures-weaken Q _ _ (create-Created libs company_id (owner_of branch_id request role) s)
          λ owner s' created. (role, found, created))

-- the branch, once its warehouse is its default
abbrev first_branch : ℕ → ℕ → ℕ → Branch
first_branch id company_id warehouse_id = record (BranchService.default_branch id company_id) {
  default_warehouse_id = some warehouse_id;
}

-- the session with the first branch and warehouse of a company
abbrev with_places : ℕ → Session → Session
with_places company_id s = record s {
  next_id = s.next_id + 1 + 1;
  db = record (s.db) {
    branches =
        update_where (λ b. b.id == s.next_id)
          (λ b. record b { default_warehouse_id = some (s.next_id + 1) })
          (s.db.branches ++ BranchService.default_branch s.next_id company_id ∷ []);
    warehouses =
        s.db.warehouses
        ++ BranchService.default_warehouse (s.next_id + 1) company_id s.next_id ∷ [];
  };
}

any-appended :
    {A : Type 0} (p : A → Bool) (xs : List A) (y : A) → p y ≡ true → any p (xs ++ y ∷ []) ≡ true
any-appended p [] y h = rw h refl
any-appended p (x ∷ xs) y h = elim (Bool-cases (p x)) [
  | inl e ↦ rw e refl
  | inr e ↦ rw e (any-appended p xs y h)
]

register-run :
    (request : CompanyCreate) (s : Session)
    → CompanyService.register_new_company request s ≡ (
      ok (CompanyService.new_company s.next_id request),
      record s {
        next_id = s.next_id + 1;
        db = record (s.db) {
          companies = s.db.companies ++ CompanyService.new_company s.next_id request ∷ [];
        };
      },
    )
unfolding CompanyService.register_new_company CompanyRepository.create ◌>>=◌
register-run request s = refl

create_warehouse-appends :
    (w : Warehouse) (s : Session)
    → any (λ (b : Branch). b.id == w.branch_id) s.db.branches ≡ true
    → WarehouseRepository.create w s
      ≡ (ok tt, record s { db = record (s.db) { warehouses = s.db.warehouses ++ w ∷ [] } })
unfolding WarehouseRepository.create
create_warehouse-appends w s h = rw h refl

places-run :
    (company_id : ℕ) (s : Session)
    → BranchService.create_default_branch_with_warehouse company_id s ≡ (
      ok (
        first_branch s.next_id company_id (s.next_id + 1),
        BranchService.default_warehouse (s.next_id + 1) company_id s.next_id,
      ),
      with_places company_id s,
    )
unfolding BranchService.create_default_branch_with_warehouse BranchRepository.create
places-run company_id s =
    let branch = BranchService.default_branch s.next_id company_id in
    let warehouse = BranchService.default_warehouse (s.next_id + 1) company_id s.next_id in
    let s₁ : Session = record s { next_id = s.next_id + 1 } in
    let s₂ : Session = record s₁ {
      db = record (s.db) { branches = s.db.branches ++ branch ∷ [] };
    } in
    let s₃ : Session = record s₂ { next_id = s.next_id + 1 + 1 } in
    let s₄ : Session = record s₃ {
      db = record (s₂.db) { warehouses = s.db.warehouses ++ warehouse ∷ [] };
    } in
    run_to _ _ s s.next_id s₁ _ refl (
      run_to _ _ s₁ tt s₂ _ refl (
        run_to _ _ s₂ (s.next_id + 1) s₃ _ refl (
          run_to _ _ s₃ tt s₄ _
            (create_warehouse-appends warehouse s₃ (
              any-appended (λ (b : Branch). b.id == s.next_id) s.db.branches branch
                (==_self s.next_id)))
            (run_to _ _ s₄ tt (with_places company_id s) _ refl refl))))

-- What the signup has done when it returns: the company, its first branch with a warehouse as its
-- default, and an owner who is assigned to the branch and holds the system's role of a super admin
-- are there, and the owner has a session.
pub record Founded (validate_email : String → Option String) (request : CompanySignupRequest)
    (s : Session) (r : SignupResponse) (s' : Session) : Type 0 where
  pub role : Role
  pub row : RefreshToken
  pub super_admin :
      select_one (RoleRepository.is_system_role UserService.default_role_super_admin) s.db.roles
      ≡ some role
  pub company : s'.db.companies ≡ s.db.companies ++ r.company ∷ []
  pub name : r.company.name ≡ request.company.name
  pub branch : r.branch.company_id ≡ r.company.id
  pub branches :
      s'.db.branches
      ≡ update_where
          (λ b. b.id == r.branch.id)
          (λ b. record b { default_warehouse_id = some r.warehouse.id })
          (s.db.branches ++ BranchService.default_branch r.branch.id r.company.id ∷ [])
  pub warehouse : s'.db.warehouses ≡ s.db.warehouses ++ r.warehouse ∷ []
  pub in_branch : r.warehouse.branch_id ≡ r.branch.id
  pub in_company : r.warehouse.company_id ≡ r.company.id
  pub default_warehouse : r.branch.default_warehouse_id ≡ some r.warehouse.id
  pub owner : s'.db.users ≡ s.db.users ++ r.owner ∷ []
  pub owner_company : r.owner.company_id ≡ r.company.id
  pub owner_email : validate_email request.owner_email ≡ some r.owner.email
  pub owner_name : r.owner.full_name ≡ request.owner_full_name
  pub owner_branch :
      s'.db.user_branches ≡ s.db.user_branches ++ branch_rows r.owner.id (r.branch.id ∷ [])
  pub owner_role : s'.db.user_roles ≡ s.db.user_roles ++ role_rows r.owner.id (role.id ∷ [])
  pub signed_in : s'.db.refresh_tokens ≡ s.db.refresh_tokens ++ row ∷ []
  pub session_owner : row.user_id ≡ r.owner.id

-- a request that pydantic lets pass
abbrev Passes : (String → Option String) → CompanySignupRequest → UserCreate → Type 0
Passes validate_email request owner_data =
    (validate_email request.owner_email ≡ some owner_data.email)
    × (owner_data.full_name ≡ request.owner_full_name)

owner_request-Passes :
    (validate_email : String → Option String) (request : CompanySignupRequest)
    (owner_data : UserCreate)
    → owner_request validate_email request ≡ some owner_data
    → Passes validate_email request owner_data
unfolding owner_request
owner_request-Passes validate_email request owner_data h = ground arith

founded :
    (libs : Libraries) (validate_email : String → Option String) (request : CompanySignupRequest)
    (owner_data : UserCreate) (s : Session) (owner : User) (s₃ : Session) (tokens : TokenResponse)
    (s' : Session) (e : Entry)
    → Passes validate_email request owner_data
    → let company = CompanyService.new_company s.next_id request.company in
      let s₁ : Session = record s {
        next_id = s.next_id + 1;
        db = record (s.db) { companies = s.db.companies ++ company ∷ [] };
      } in
      Owns company.id s₁.next_id owner_data (with_places company.id s₁) owner s₃
      → Issued libs owner.id (logged e s₃) tokens s'
      → Founded validate_email request s
          (record {
            company = company;
            branch = first_branch s₁.next_id company.id (s₁.next_id + 1);
            warehouse = BranchService.default_warehouse (s₁.next_id + 1) company.id s₁.next_id;
            owner = owner;
            tokens = tokens;
          })
          s'
founded libs validate_email request owner_data s owner s₃ tokens s' e passes owns issued =
    let created = owns.2 in
    record {
      role = owns.0;
      row = issued.row;
      super_admin = owns.1;
      company = rw (issued.written, created.elsewhere) refl;
      name = refl;
      branch = refl;
      branches = rw (issued.written, created.elsewhere) refl;
      warehouse = rw (issued.written, created.elsewhere) refl;
      in_branch = refl;
      in_company = refl;
      default_warehouse = refl;
      owner = rw (issued.written, created.added) refl;
      owner_company = created.company;
      owner_email = passes.0 ∙ ap some (sym created.email);
      owner_name = created.full_name ∙ passes.1;
      owner_branch = rw (issued.written, created.branches, ==_self (s.next_id + 1)) refl;
      owner_role = rw (issued.written, created.roles) refl;
      signed_in = rw (issued.written, created.elsewhere) refl;
      session_owner = issued.owner;
    }

signup_company-Founded :
    (libs : Libraries) (settings : Settings) (validate_email : String → Option String)
    (request : CompanySignupRequest) (context : RequestContext) (s : Session)
    → Ensures
        (Founded validate_email request s)
        (signup_company libs settings validate_email request context s)
unfolding signup_company
signup_company-Founded libs settings validate_email request context s =
    let Q = Founded validate_email request s in
    let company = CompanyService.new_company s.next_id request.company in
    let s₁ : Session = record s {
      next_id = s.next_id + 1;
      db = record (s.db) { companies = s.db.companies ++ company ∷ [] };
    } in
    let s₂ = with_places company.id s₁ in
    Ensures-run Q _ _ s company s₁ (register-run request.company s) (
      Ensures-run Q _ _ s₁ _ s₂ (places-run company.id s₁) (
        Ensures-or_raise Q _ _ _ s₂ λ owner_data valid.
          Ensures-bind Q (Owns company.id s₁.next_id owner_data s₂) _ _ s₂
            (create_owner-Owns libs company.id s₁.next_id owner_data s₂)
            λ owner s₃ owns.
              let e =
                request_entry "auth.login.success" (some owner.company_id) (some owner.id)
                  context in
              Ensures-bind Q (Issued libs owner.id (logged e s₃)) _ _ s₃
                (issue_initial_tokens-Issued libs settings owner context s₃)
                λ tokens s' issued.
                  founded libs validate_email request owner_data s owner s₃ tokens s' e
                    (owner_request-Passes validate_email request owner_data valid) owns issued))

-- A signup that returns has added the company, its first branch, a warehouse that is made the branch's
-- default, and an owner with the name of the request and the address that the validation makes of its
-- e-mail, who is assigned to the branch, holds the system's role of a super admin, and has a session.
pub signup_company-founds :
    (libs : Libraries) (settings : Settings) (validate_email : String → Option String)
    (request : CompanySignupRequest) (context : RequestContext) (s : Session) {r : SignupResponse}
    {s' : Session}
    → signup_company libs settings validate_email request context s ≡ (ok r, s')
    → Founded validate_email request s r s'
signup_company-founds libs settings validate_email request context s e =
    Ensures-ok (Founded validate_email request s) _
      (signup_company-Founded libs settings validate_email request context s) e
