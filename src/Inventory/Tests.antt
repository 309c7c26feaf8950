-- ===== src/Inventory/Tests.antt =====
-- A shop with two warehouses and one product, on which the theorems about the stock are run:
-- backend/app/modules/inventory/service.py.
use retail_os.Inventory.Success.{receive-succeeds, issue-succeeds}
use retail_os.Inventory.Atomic.{perform-rolls_back}
use retail_os.Inventory.Legs.{transfer-HasLegs, HasLegs}
use retail_os.Inventory.Conservation.{transfer-IsMoved, IsMoved}
use retail_os.Core.Returns.{Returns}
use retail_os.Inventory.Policy.{adjust-counted, receive-Moved, balance, issue-Moved, Moved}
use retail_os.Inventory.Ledger.{serve_all-IsBalanced}
use retail_os.Inventory.StockLevelRepository.{set_absolute, upsert_delta}
use retail_os.Inventory.Balance.{IsBalanced}
use retail_os.Core.Keeps.{IsCommitted}
use retail_os.Inventory.Posting.{Target}
use retail_os.Core.Db.{empty_db}
use retail_os.Company.Models.{Warehouse}
use retail_os.Inventory.Service.{
  ledger_row, write_ledger_row, check_policy, record_delta_movement, get_variant_and_product,
  get_warehouse,
}
use retail_os.Inventory.Models.{adjustment, stock_in, stock_out, StockLevel}
use retail_os.Prelude.Int.{◌≤ℤ◌, negsuc, ◌-ℤ◌, ◌<ℤ◌, neg, ◌+ℤ◌, pos}
use retail_os.Inventory.Operations.{
  header, move_legs, transfer, adjust, receive, movement, StockRequest, issue, TransferRequest,
}
use retail_os.Core.Session.{get_db_session, ◌>>=◌, start, Session}
use retail_os.Catalog.Models.{ProductVariant, Product}
use retail_os.Core.Decimal.{Decimal}
use retail_os.Prelude.{inl, arith, refl, [], true, false, ◌≡◌, ◌∷◌, none, String, ℕ}
use retail_os.Inventory.Requests.{perform, serve_all, Operation}
use retail_os.Inventory.StockTransferRepository

abbrev pub warehouse : ℕ → String → Warehouse
warehouse id name = record {
  id = id;
  company_id = 1;
  branch_id = 2;
  name = name;
  code = name;
  is_default = false;
  is_active = true;
  deleted_at = none;
  version = 1;
}

abbrev price : Decimal
price = record { unscaled = pos 100; scale = 2 }

abbrev pub shirt : Product
shirt = record {
  id = 20;
  company_id = 1;
  sku = "SHIRT";
  name = "Shirt";
  description = none;
  category_id = none;
  brand_id = none;
  base_unit_id = 3;
  gender = none;
  season = none;
  age_group = none;
  hsn_code = none;
  tax_percent = none;
  has_variants = false;
  track_inventory = true;
  allow_negative_stock = false;
  low_stock_threshold = none;
  is_active = true;
  deleted_at = none;
  version = 1;
}

abbrev pub shirt_variant : ProductVariant
shirt_variant = record {
  id = 21;
  company_id = 1;
  product_id = 20;
  sku = "SHIRT";
  size = none;
  color = none;
  variant_name = none;
  purchase_price = price;
  selling_price = price;
  mrp = none;
  is_active = true;
  deleted_at = none;
  version = 1;
}

abbrev pub shop : Session
shop = start 1000 100 (record empty_db {
  warehouses = warehouse 10 "Main" ∷ warehouse 11 "Annex" ∷ [];
  products = shirt ∷ [];
  product_variants = shirt_variant ∷ [];
})

abbrev pub of : ℕ → StockRequest
of quantity = record {
  company_id = 1;
  user_id = 5;
  warehouse_id = 10;
  product_variant_id = 21;
  quantity = pos quantity;
  reason = none;
  note = none;
}

abbrev move : TransferRequest
move = record {
  company_id = 1;
  user_id = 5;
  from_warehouse_id = 11;
  to_warehouse_id = 10;
  product_variant_id = 21;
  quantity = pos 2;
  note = none;
}

-- the shop with eight shirts in each warehouse
abbrev pub level : ℕ → ℕ → StockLevel
level id warehouse_id = record {
  id = id;
  company_id = 1;
  warehouse_id = warehouse_id;
  product_variant_id = 21;
  quantity = pos 8;
  version = 1;
}

abbrev stocked : Session
stocked = record shop { db = record (shop.db) { stock_levels = level 30 10 ∷ level 31 11 ∷ [] } }

abbrev target : (n : ℕ) → Target (of n) stocked
target n = record {
  warehouse = warehouse 10 "Main";
  variant = shirt_variant;
  product = shirt;
  finds_warehouse = refl;
  finds_product = (refl, refl);
}

serve_all-IsBalanced_example :
    let s =
      serve_all
        ((1001, Operation.stock_in (of 8))
          ∷ (1002, Operation.stock_out (of 9))
          ∷ (1003, Operation.adjustment (of 6))
          ∷ [])
        shop in
    IsCommitted s × IsBalanced s.saved
serve_all-IsBalanced_example =
    serve_all-IsBalanced
      ((1001, Operation.stock_in (of 8))
        ∷ (1002, Operation.stock_out (of 9))
        ∷ (1003, Operation.adjustment (of 6))
        ∷ [])
      shop refl λ k. refl

issue-Moved_example :
    (pos 0 <ℤ pos 3)
    × Moved
        (of 3)
        stock_out
        (neg (pos 3))
        stocked
        (ledger_row
          (movement (of 3) (warehouse 10 "Main") shirt_variant stock_out)
          (neg (pos 3))
          (pos 5)
          101
          1000)
        (issue (of 3) stocked).1
unfolding issue get_warehouse get_variant_and_product record_delta_movement upsert_delta
    check_policy write_ledger_row ◌>>=◌ ◌+ℤ◌ neg
issue-Moved_example = issue-Moved (of 3) stocked refl

receive-Moved_example :
    (pos 0 <ℤ pos 3)
    × Moved
        (of 3)
        stock_in
        (pos 3)
        stocked
        (ledger_row
          (movement (of 3) (warehouse 10 "Main") shirt_variant stock_in)
          (pos 3)
          (pos 11)
          101
          1000)
        (receive (of 3) stocked).1
unfolding receive get_warehouse get_variant_and_product record_delta_movement upsert_delta
    check_policy write_ledger_row ◌>>=◌ ◌+ℤ◌
receive-Moved_example = receive-Moved (of 3) stocked refl

adjust-counted_example :
    let t =
      ledger_row
        (movement (of 3) (warehouse 10 "Main") shirt_variant adjustment)
        (negsuc 4)
        (pos 3)
        101
        1000 in
    (pos 0 ≤ℤ pos 3)
    × (balance (of 3) (adjust (of 3) stocked).1 ≡ pos 3)
    × (t.quantity_delta ≡ pos 3 -ℤ balance (of 3) stocked)
    × (t.quantity_after ≡ pos 3)
    × ((x : Target (of 3) stocked) × (x.product.track_inventory ≡ true))
unfolding adjust get_warehouse get_variant_and_product set_absolute write_ledger_row ◌>>=◌ ◌-ℤ◌
adjust-counted_example = adjust-counted (of 3) stocked refl

transfer-IsMoved_example : IsMoved move stocked.db (transfer move stocked).1.db
unfolding transfer move_legs get_warehouse get_variant_and_product record_delta_movement
    upsert_delta check_policy write_ledger_row StockTransferRepository.create ◌>>=◌ ◌+ℤ◌ neg
transfer-IsMoved_example = transfer-IsMoved move stocked {s' = (transfer move stocked).1} refl

transfer-HasLegs_example :
    HasLegs move stocked (header move 100 stocked.now) (transfer move stocked).1
unfolding transfer move_legs get_warehouse get_variant_and_product record_delta_movement
    upsert_delta check_policy write_ledger_row StockTransferRepository.create ◌>>=◌ ◌+ℤ◌ neg
transfer-HasLegs_example = transfer-HasLegs move stocked refl

-- nine shirts are more than there are
perform-rolls_back_example :
    let s' = (get_db_session (perform (Operation.stock_out (of 9))) stocked).1 in
    (s'.db ≡ stocked.saved) × (s'.saved ≡ stocked.saved)
unfolding get_db_session perform issue get_warehouse get_variant_and_product record_delta_movement
    upsert_delta check_policy ◌>>=◌ ◌+ℤ◌ neg
perform-rolls_back_example =
    perform-rolls_back (Operation.stock_out (of 9)) stocked
      {s' = (get_db_session (perform (Operation.stock_out (of 9))) stocked).1} refl

issue-succeeds_example : Returns (issue (of 3)) stocked
unfolding balance ◌+ℤ◌ neg
issue-succeeds_example =
    issue-succeeds (of 3) stocked (target 3) (ground arith) (refl, inl (ground arith))
      (ground arith) (ground arith)

receive-succeeds_example : Returns (receive (of 3)) stocked
unfolding balance ◌+ℤ◌
receive-succeeds_example =
    receive-succeeds (of 3) stocked (target 3) (ground arith) (refl, inl (ground arith))
      (ground arith) (ground arith)
