-- ===== src/Company/WarehouseService.antt =====
-- `WarehouseService` of backend/app/modules/company/service.py.
use retail_os.Company.WarehouseRepository.{is_warehouse}
use retail_os.Company.Models.{Warehouse}
use retail_os.Company.Schemas.{WarehouseCreate}
use retail_os.Core.Session.{pure, ◌>>◌, uuid4, ◌>>=◌, M}
use retail_os.Prelude.{none, true, List, ℕ}
use retail_os.Company.WarehouseRepository

abbrev pub list_for_branch : ℕ → ℕ → M (List Warehouse)
list_for_branch company_id branch_id = WarehouseRepository.list_for_branch company_id branch_id

abbrev pub list_for_company : ℕ → M (List Warehouse)
list_for_company company_id = WarehouseRepository.list_for_company company_id

abbrev pub new_warehouse : ℕ → ℕ → WarehouseCreate → Warehouse
new_warehouse id company_id r = record {
  id = id;
  company_id = company_id;
  branch_id = r.branch_id;
  name = r.name;
  code = r.code;
  is_default = r.is_default;
  is_active = true;
  deleted_at = none;
  version = 1;
}

unfoldable pub create : ℕ → WarehouseCreate → M Warehouse
create company_id request = do
  id ← uuid4
  WarehouseRepository.create (new_warehouse id company_id request)
  pure (new_warehouse id company_id request)
