-- ===== src/Company/BranchService.antt =====
-- `BranchService` of backend/app/modules/company/service.py. The company of a new row is the caller's own,
-- or was added in the same session, so that its foreign key is not asked for.
use retail_os.Core.Versioned.{versioned_update}
use retail_os.Core.Exceptions.{
  integrity_error, field_exception, conflict_exception, not_found_exception,
}
use retail_os.Prelude.Rows.{any, update_where}
use retail_os.Prelude.Fields.{given, set, set_required, is_null, is_set}
use retail_os.Core.Db.{Db}
use retail_os.Company.Models.{Branch, Warehouse}
use retail_os.Company.BranchRepository.{is_branch}
use retail_os.Company.Schemas.{BranchCreate, BranchUpdate}
use retail_os.Prelude.{
  [], ◌∷◌, concat, ◌+◌, is_none, ◌&&◌, not, if◌then◌else◌, ◌==◌, ◌||◌, some, none, false, true,
  List, Bool, Option, ℕ,
}
use retail_os.Core.Session.{gets, raise_if, pure, ◌>>◌, uuid4, or_raise, modify_db, M, ◌>>=◌}
use retail_os.Company.BranchRepository
use retail_os.Company.WarehouseRepository

unfoldable pub get : ℕ → ℕ → M Branch
unfolding ◌>>=◌ BranchRepository.get_by_id
get company_id branch_id = BranchRepository.get_by_id company_id branch_id >>= λ branch.
    or_raise branch (not_found_exception "Branch not found")

abbrev pub list_for_company : ℕ → M (List Branch)
list_for_company company_id = BranchRepository.list_for_company company_id

abbrev pub default_branch : ℕ → ℕ → Branch
default_branch id company_id = record {
  id = id;
  company_id = company_id;
  name = "Head Office";
  code = "HO";
  address_line = none;
  phone = none;
  gst_number = none;
  default_warehouse_id = none;
  manager_user_id = none;
  is_active = true;
  deleted_at = none;
  version = 1;
}

abbrev pub default_warehouse : ℕ → ℕ → ℕ → Warehouse
default_warehouse id company_id branch_id = record {
  id = id;
  company_id = company_id;
  branch_id = branch_id;
  name = "Main Warehouse";
  code = "MAIN";
  is_default = true;
  is_active = true;
  deleted_at = none;
  version = 1;
}

-- `branch.default_warehouse_id = id`
abbrev pub set_default_warehouse : ℕ → ℕ → M (Unit {0})
set_default_warehouse branch_id warehouse_id = modify_db λ db. record db {
  branches =
      update_where (λ b. b.id == branch_id)
        (λ b. record b { default_warehouse_id = some warehouse_id }) db.branches;
}

unfoldable pub create_default_branch_with_warehouse : ℕ → M (Branch × Warehouse)
create_default_branch_with_warehouse company_id = do
  branch_id ← uuid4
  let branch = default_branch branch_id company_id
  BranchRepository.create branch
  warehouse_id ← uuid4
  let warehouse = default_warehouse warehouse_id company_id branch.id
  WarehouseRepository.create warehouse
  set_default_warehouse branch.id warehouse.id
  pure (record branch { default_warehouse_id = some warehouse.id }, warehouse)

abbrev pub new_branch : ℕ → ℕ → BranchCreate → Branch
new_branch id company_id r = record {
  id = id;
  company_id = company_id;
  name = r.name;
  code = r.code;
  address_line = r.address_line;
  phone = r.phone;
  gst_number = r.gst_number;
  default_warehouse_id = none;
  manager_user_id = r.manager_user_id;
  is_active = true;
  deleted_at = none;
  version = 1;
}

abbrev pub no_user : Option ℕ → Db → Bool
no_user none db = false
no_user (some user_id) db = not (any (λ u. u.id == user_id) db.users)

abbrev pub no_warehouse : Option ℕ → Db → Bool
no_warehouse none db = false
no_warehouse (some warehouse_id) db = not (any (λ w. w.id == warehouse_id) db.warehouses)

unfoldable pub create : ℕ → BranchCreate → M Branch
create company_id request = do
  taken ← BranchRepository.get_by_code company_id request.code
  raise_if (not (is_none taken)) (
      field_exception (concat ("Branch code '" ∷ request.code ∷ "' is already in use" ∷ [])) "code")
  id ← uuid4
  missing ← gets (λ s. no_user request.manager_user_id s.db)
  raise_if missing integrity_error
  BranchRepository.create (new_branch id company_id request)
  pure (new_branch id company_id request)

abbrev pub has_changes : BranchUpdate → Bool
has_changes r =
    is_set r.name
    || is_set r.code
    || is_set r.address_line
    || is_set r.phone
    || is_set r.gst_number
    || is_set r.manager_user_id
    || is_set r.default_warehouse_id
    || is_set r.is_active

abbrev pub apply_changes : BranchUpdate → Branch → Branch
apply_changes r b = record b {
  name = set_required r.name b.name;
  code = set_required r.code b.code;
  address_line = set r.address_line b.address_line;
  phone = set r.phone b.phone;
  gst_number = set r.gst_number b.gst_number;
  manager_user_id = set r.manager_user_id b.manager_user_id;
  default_warehouse_id = set r.default_warehouse_id b.default_warehouse_id;
  is_active = set_required r.is_active b.is_active;
  version = b.version + 1;
}

-- a null in a column that is NOT NULL, or a reference to no row
abbrev pub violates : BranchUpdate → Db → Bool
violates r db =
    is_null r.name
    || is_null r.code
    || is_null r.is_active
    || no_user (given r.manager_user_id) db
    || no_warehouse (given r.default_warehouse_id) db

abbrev pub is_version : ℕ → ℕ → ℕ → Branch → Bool
is_version company_id branch_id expected_version b =
    b.id == branch_id && (b.company_id == company_id && b.version == expected_version)

unfoldable pub update : ℕ → ℕ → BranchUpdate → ℕ → M Branch
update company_id branch_id request expected_version =
    if has_changes request
    then versioned_update (λ db. db.branches) (λ branches db. record db { branches = branches })
        (is_version company_id branch_id expected_version) (apply_changes request)
        (violates request) (BranchRepository.get_by_id company_id branch_id)
        (not_found_exception "Branch not found")
        (conflict_exception "Branch was modified by someone else. Reload and try again.")
    else get company_id branch_id
