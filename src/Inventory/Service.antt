-- ===== src/Inventory/Service.antt =====
-- `InventoryService` of backend/app/modules/inventory/service.py: the four movements of stock.
use retail_os.Prelude.{ℕ, String, Option, none, some, [], ◌∷◌, ◌&&◌, not, concat}
use retail_os.Prelude.Int.{ℤ, pos, ltb_ℤ}
use retail_os.Core.Exceptions.{not_found_exception, field_exception}
use retail_os.Core.Session.{M, pure, gets, or_raise, raise_if, uuid4, ◌>>=◌, ◌>>◌}
use retail_os.Company.Models.{Warehouse}
use retail_os.Company.WarehouseRepository
use retail_os.Catalog.Models.{Product, ProductVariant}
use retail_os.Catalog.ProductService
use retail_os.Catalog.ProductVariantService
use retail_os.Audit.Models.{uuid, number}
use retail_os.Audit.AuditService
use retail_os.Inventory.Models.{
  MovementType, stock_in, stock_out, transfer_out, transfer_in, adjustment, StockTransaction,
}
use retail_os.Inventory.StockLevelRepository.{Key, upsert_delta}
use retail_os.Inventory.StockTransactionRepository

-- `_get_warehouse`
unfoldable pub get_warehouse : ℕ → ℕ → M Warehouse
unfolding ◌>>=◌ WarehouseRepository.get_by_id
get_warehouse company_id warehouse_id = do
  or_raise (← WarehouseRepository.get_by_id company_id warehouse_id)
      (not_found_exception "Warehouse not found")

-- `_get_variant_and_product`
unfoldable pub get_variant_and_product : ℕ → ℕ → M (ProductVariant × Product)
unfolding ◌>>=◌ ProductVariantService.get ProductService.get
get_variant_and_product company_id product_variant_id = do
  variant ← ProductVariantService.get company_id product_variant_id
  product ← ProductService.get company_id variant.product_id
  pure (variant, product)

abbrev pub untracked : Product → String
untracked product = concat ("'" ∷ product.name ∷ "' does not track inventory" ∷ [])

abbrev pub insufficient : Product → String
insufficient product = concat (
    "Insufficient stock for '" ∷ product.name ∷ "' — this movement would take the "
    ∷ "balance negative, and negative stock isn't allowed for this product." ∷ [])

-- `_check_policy`
unfoldable pub check_policy : Product → ℤ → M (Unit {0})
unfolding ◌>>=◌
check_policy product resulting_quantity = do
  raise_if (not product.track_inventory) (field_exception (untracked product) "product_variant_id")
  raise_if (ltb_ℤ resulting_quantity (pos 0) && not product.allow_negative_stock)
      (field_exception (insufficient product) "quantity")

-- `f"inventory.{movement_type.value}"`
abbrev pub action : MovementType → String
action stock_in = "inventory.stock_in"
action stock_out = "inventory.stock_out"
action transfer_out = "inventory.transfer_out"
action transfer_in = "inventory.transfer_in"
action adjustment = "inventory.adjustment"

-- The keyword arguments that a movement carries from the endpoint to its ledger row.
pub record Movement : Type 0 where
  pub company_id : ℕ
  pub user_id : ℕ
  pub warehouse : Warehouse
  pub variant : ProductVariant
  pub movement_type : MovementType
  pub reason : Option String
  pub note : Option String
  pub transfer_id : Option ℕ

abbrev pub movement_key : Movement → Key
movement_key m = record {
  company_id = m.company_id;
  warehouse_id = m.warehouse.id;
  product_variant_id = m.variant.id;
}

abbrev pub ledger_row : Movement → ℤ → ℤ → ℕ → ℕ → StockTransaction
ledger_row m delta new_quantity id created_at = record {
  id = id;
  company_id = m.company_id;
  branch_id = m.warehouse.branch_id;
  warehouse_id = m.warehouse.id;
  product_variant_id = m.variant.id;
  movement_type = m.movement_type;
  quantity_delta = delta;
  quantity_after = new_quantity;
  reason = m.reason;
  note = m.note;
  transfer_id = m.transfer_id;
  created_at = created_at;
}

abbrev pub ledger_entry : Movement → StockTransaction → AuditService.Entry
ledger_entry m t = record {
  action = action m.movement_type;
  company_id = some m.company_id;
  user_id = some m.user_id;
  entity_table = some "stock_transactions";
  entity_id = some t.id;
  after_data = some (
      ("warehouse_id", uuid m.warehouse.id)
      ∷ ("product_variant_id", uuid m.variant.id)
      ∷ ("quantity_delta", number t.quantity_delta)
      ∷ ("quantity_after", number t.quantity_after)
      ∷ []);
  ip_address = none;
  user_agent = none;
}

-- `_write_ledger_row`
unfoldable pub write_ledger_row : Movement → ℤ → ℤ → M StockTransaction
unfolding ◌>>=◌ StockTransactionRepository.create AuditService.log
write_ledger_row m delta new_quantity = do
  id ← uuid4
  now ← gets (λ s. s.now)
  let transaction = ledger_row m delta new_quantity id now
  StockTransactionRepository.create transaction
  AuditService.log (ledger_entry m transaction)
  pure transaction

-- `_record_delta_movement`
unfoldable pub record_delta_movement : Movement → Product → ℤ → M StockTransaction
record_delta_movement m product delta = do
  id ← uuid4
  new_quantity ← upsert_delta id (movement_key m) delta
  check_policy product new_quantity
  write_ledger_row m delta new_quantity
