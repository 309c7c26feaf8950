-- ===== src/Company/WarehouseRepository.antt =====
-- `WarehouseRepository` of backend/app/modules/company/repository.py. Names are ordered by their
-- bytes.
use retail_os.Prelude.{ℕ, Bool, Option, List, [], ◌∷◌, ◌++◌, ◌&&◌, not, ◌==◌, is_none, text_le}
use retail_os.Prelude.Rows.{select_one, select_all, any, order_by}
use retail_os.Core.Session.{M, gets, raise_if, modify_db, ◌>>=◌, ◌>>◌}
use retail_os.Core.Exceptions.{integrity_error}
use retail_os.Company.Models.{Warehouse}

abbrev pub is_warehouse : ℕ → ℕ → Warehouse → Bool
is_warehouse company_id warehouse_id w =
    w.id == warehouse_id && (w.company_id == company_id && is_none w.deleted_at)

unfoldable pub get_by_id : ℕ → ℕ → M (Option Warehouse)
get_by_id company_id warehouse_id =
    gets λ s. select_one (is_warehouse company_id warehouse_id) s.db.warehouses

unfoldable pub list_for_branch : ℕ → ℕ → M (List Warehouse)
list_for_branch company_id branch_id = gets λ s.
    select_all
      (λ w. w.company_id == company_id && (w.branch_id == branch_id && is_none w.deleted_at))
      s.db.warehouses

unfoldable pub list_for_company : ℕ → M (List Warehouse)
list_for_company company_id = gets λ s.
    order_by (λ x y. text_le x.name y.name)
      (select_all (λ w. w.company_id == company_id && is_none w.deleted_at) s.db.warehouses)

-- The foreign key on `branch_id` asks only that some branch has this id.
unfoldable pub create : Warehouse → M (Unit {0})
unfolding ◌>>=◌
create warehouse = do
  raise_if (not (← gets λ s. any (λ b. b.id == warehouse.branch_id) s.db.branches)) integrity_error
  modify_db λ db. record db { warehouses = db.warehouses ++ warehouse ∷ [] }
