-- ===== src/Inventory/Schemas.antt =====
-- backend/app/modules/inventory/schemas.py and backend/app/common/pagination.py: the requests on the
-- stock, whose limits pydantic has checked, and the responses, each with what builds it.
use retail_os.Inventory.History.{RawTransactionPage}
use retail_os.Csv.Wire.{Text}
use retail_os.Core.Time.{DateTime}
use retail_os.Prelude.{map, ℕ, String, Bool, Option, List}
use retail_os.Prelude.Int.{ℤ}
use retail_os.Inventory.Models.{StockTransaction, StockTransfer, MovementType}
use retail_os.Inventory.Reads.{StockLevelSummary, is_low_stock}

pub record StockInRequest : Type 0 where
  pub warehouse_id : ℕ
  pub product_variant_id : ℕ
  pub quantity : ℤ
  pub reason : Option String
  pub note : Option String

pub record StockOutRequest : Type 0 where
  pub warehouse_id : ℕ
  pub product_variant_id : ℕ
  pub quantity : ℤ
  pub reason : Option String
  pub note : Option String

pub record AdjustmentRequest : Type 0 where
  pub warehouse_id : ℕ
  pub product_variant_id : ℕ
  pub counted_quantity : ℤ
  pub reason : String
  pub note : Option String

pub record TransferRequest : Type 0 where
  pub from_warehouse_id : ℕ
  pub to_warehouse_id : ℕ
  pub product_variant_id : ℕ
  pub quantity : ℤ
  pub note : Option String

pub record StockLevelRead : Type 0 where
  pub warehouse_id : Option ℕ
  pub product_id : ℕ
  pub product_variant_id : ℕ
  pub sku : String
  pub product_name : String
  pub variant_name : Option String
  pub low_stock_threshold : Option ℤ
  pub quantity : ℤ
  pub is_low_stock : Bool

-- `_stock_level_read` of api.py
abbrev pub stock_level_read : StockLevelSummary → StockLevelRead
stock_level_read summary = record {
  warehouse_id = summary.warehouse_id;
  product_id = summary.product.id;
  product_variant_id = summary.variant.id;
  sku = summary.variant.sku;
  product_name = summary.product.name;
  variant_name = summary.variant.variant_name;
  low_stock_threshold = summary.product.low_stock_threshold;
  quantity = summary.quantity;
  is_low_stock = is_low_stock summary;
}

pub record StockTransactionRead : Type 0 where
  pub id : ℕ
  pub company_id : ℕ
  pub branch_id : ℕ
  pub warehouse_id : ℕ
  pub product_variant_id : ℕ
  pub movement_type : MovementType
  pub quantity_delta : ℤ
  pub quantity_after : ℤ
  pub reason : Option String
  pub note : Option String
  pub transfer_id : Option ℕ
  pub created_at : DateTime

abbrev pub read_transaction : StockTransaction → StockTransactionRead
read_transaction t = record {
  id = t.id;
  company_id = t.company_id;
  branch_id = t.branch_id;
  warehouse_id = t.warehouse_id;
  product_variant_id = t.product_variant_id;
  movement_type = t.movement_type;
  quantity_delta = t.quantity_delta;
  quantity_after = t.quantity_after;
  reason = t.reason;
  note = t.note;
  transfer_id = t.transfer_id;
  created_at = t.created_at;
}

pub record StockTransferRead : Type 0 where
  pub id : ℕ
  pub company_id : ℕ
  pub from_warehouse_id : ℕ
  pub to_warehouse_id : ℕ
  pub product_variant_id : ℕ
  pub quantity : ℤ
  pub note : Option String
  pub created_at : DateTime

abbrev pub read_transfer : StockTransfer → StockTransferRead
read_transfer t = record {
  id = t.id;
  company_id = t.company_id;
  from_warehouse_id = t.from_warehouse_id;
  to_warehouse_id = t.to_warehouse_id;
  product_variant_id = t.product_variant_id;
  quantity = t.quantity;
  note = t.note;
  created_at = t.created_at;
}

-- `Page` of pagination.py
pub record Page (A : Type 0) : Type 0 where
  pub items : List A
  pub next_cursor : Option Text
  pub has_more : Bool

abbrev pub read_page : RawTransactionPage → Page StockTransactionRead
read_page raw = record {
  items = map read_transaction raw.items;
  next_cursor = raw.next_cursor;
  has_more = raw.has_more;
}
