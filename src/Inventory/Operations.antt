-- ===== src/Inventory/Operations.antt =====
-- `stock_in`, `stock_out`, `adjust` and `transfer` of `InventoryService`, in
-- backend/app/modules/inventory/service.py. Every call of `flush` writes what is already in the
-- session's tables here, so it is no step.
use retail_os.Prelude.{ℕ, String, Option, none, some, not, ◌==◌, leb, if◌then◌else◌}
use retail_os.Prelude.Int.{ℤ, pos, ◌-ℤ◌, neg, ltb_ℤ, leb_ℤ}
use retail_os.Core.Exceptions.{field_exception}
use retail_os.Core.Session.{M, gets, pure, raise_if, uuid4, ◌>>=◌, ◌>>◌}
use retail_os.Core.Time.{DateTime}
use retail_os.Company.Models.{Warehouse}
use retail_os.Catalog.Models.{Product, ProductVariant}
use retail_os.Inventory.Models.{
  MovementType, stock_in, stock_out, transfer_out, transfer_in, adjustment, StockTransaction,
  StockTransfer,
}
use retail_os.Inventory.StockLevelRepository.{Key, set_absolute}
use retail_os.Inventory.StockTransferRepository
use retail_os.Inventory.Service.{
  get_warehouse, get_variant_and_product, untracked, Movement, write_ledger_row,
  record_delta_movement,
}

-- the arguments of `stock_in` and `stock_out`
pub record StockRequest : Type 0 where
  pub company_id : ℕ
  pub user_id : ℕ
  pub warehouse_id : ℕ
  pub product_variant_id : ℕ
  pub quantity : ℤ
  pub reason : Option String
  pub note : Option String

abbrev pub movement : StockRequest → Warehouse → ProductVariant → MovementType → Movement
movement r warehouse variant movement_type = record {
  company_id = r.company_id;
  user_id = r.user_id;
  warehouse = warehouse;
  variant = variant;
  movement_type = movement_type;
  reason = r.reason;
  note = r.note;
  transfer_id = none;
}

abbrev pub requested_key : StockRequest → Key
requested_key r = record {
  company_id = r.company_id;
  warehouse_id = r.warehouse_id;
  product_variant_id = r.product_variant_id;
}

-- `InventoryService.stock_in`
unfoldable pub receive : StockRequest → M StockTransaction
receive r = do
  raise_if (leb_ℤ r.quantity (pos 0)) (field_exception "Quantity must be positive" "quantity")
  warehouse ← get_warehouse r.company_id r.warehouse_id
  (variant, product) ← get_variant_and_product r.company_id r.product_variant_id
  record_delta_movement (movement r warehouse variant stock_in) product r.quantity

-- `InventoryService.stock_out`
unfoldable pub issue : StockRequest → M StockTransaction
issue r = do
  raise_if (leb_ℤ r.quantity (pos 0)) (field_exception "Quantity must be positive" "quantity")
  warehouse ← get_warehouse r.company_id r.warehouse_id
  (variant, product) ← get_variant_and_product r.company_id r.product_variant_id
  record_delta_movement (movement r warehouse variant stock_out) product (neg r.quantity)

-- `InventoryService.adjust`: `quantity` is the counted total.
unfoldable pub adjust : StockRequest → M StockTransaction
adjust r = do
  raise_if (ltb_ℤ r.quantity (pos 0))
      (field_exception "Counted quantity cannot be negative" "counted_quantity")
  warehouse ← get_warehouse r.company_id r.warehouse_id
  (variant, product) ← get_variant_and_product r.company_id r.product_variant_id
  raise_if (not product.track_inventory) (field_exception (untracked product) "product_variant_id")
  id ← uuid4
  let m = movement r warehouse variant adjustment
  previous_quantity ← set_absolute id (requested_key r) r.quantity
  write_ledger_row m (r.quantity -ℤ previous_quantity) r.quantity

-- the arguments of `transfer`
pub record TransferRequest : Type 0 where
  pub company_id : ℕ
  pub user_id : ℕ
  pub from_warehouse_id : ℕ
  pub to_warehouse_id : ℕ
  pub product_variant_id : ℕ
  pub quantity : ℤ
  pub note : Option String

abbrev pub header : TransferRequest → ℕ → DateTime → StockTransfer
header r id now = record {
  id = id;
  company_id = r.company_id;
  from_warehouse_id = r.from_warehouse_id;
  to_warehouse_id = r.to_warehouse_id;
  product_variant_id = r.product_variant_id;
  quantity = r.quantity;
  note = r.note;
  created_at = now;
}

-- one side of a transfer: its warehouse, the signed quantity and the type of its ledger row
pub record Leg : Type 0 where
  pub warehouse : Warehouse
  pub delta : ℤ
  pub movement_type : MovementType

-- `sorted` by `str(warehouse.id)`, which orders ids as numbers, and keeps equal ones in place
abbrev pub lock_order : Leg → Leg → Leg × Leg
lock_order a b = if leb a.warehouse.id b.warehouse.id then (a, b) else (b, a)

abbrev pub leg_movement : TransferRequest → ProductVariant → ℕ → Leg → Movement
leg_movement r variant transfer_id leg = record {
  company_id = r.company_id;
  user_id = r.user_id;
  warehouse = leg.warehouse;
  variant = variant;
  movement_type = leg.movement_type;
  reason = none;
  note = r.note;
  transfer_id = some transfer_id;
}

-- the loop over the two legs
unfoldable pub move_legs :
    TransferRequest
    → ProductVariant
    → Product
    → ℕ
    → Leg × Leg
    → M (StockTransaction × StockTransaction)
move_legs r variant product transfer_id (first, second) = do
  t ← record_delta_movement (leg_movement r variant transfer_id first) product first.delta
  u ← record_delta_movement (leg_movement r variant transfer_id second) product second.delta
  pure (t, u)

abbrev pub out_leg : TransferRequest → Warehouse → Leg
out_leg r w = record { warehouse = w; delta = neg r.quantity; movement_type = transfer_out }

abbrev pub in_leg : TransferRequest → Warehouse → Leg
in_leg r w = record { warehouse = w; delta = r.quantity; movement_type = transfer_in }

-- `InventoryService.transfer`
unfoldable pub transfer : TransferRequest → M StockTransfer
transfer r = do
  raise_if (leb_ℤ r.quantity (pos 0)) (field_exception "Quantity must be positive" "quantity")
  raise_if (r.from_warehouse_id == r.to_warehouse_id)
      (field_exception "Source and destination warehouse must be different" "to_warehouse_id")
  from_warehouse ← get_warehouse r.company_id r.from_warehouse_id
  to_warehouse ← get_warehouse r.company_id r.to_warehouse_id
  (variant, product) ← get_variant_and_product r.company_id r.product_variant_id
  id ← uuid4
  now ← gets (λ s. s.now)
  StockTransferRepository.create (header r id now)
  legs ←
      move_legs r variant product id (lock_order (out_leg r from_warehouse) (in_leg r to_warehouse))
  pure (header r id now)
