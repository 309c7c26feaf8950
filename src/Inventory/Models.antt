-- ===== src/Inventory/Models.antt =====
-- backend/app/modules/inventory/models.py: the balances, the ledger of movements, and the headers of
-- transfers. The columns of SyncMixin and AuditMixin are left out: no code writes them.
use retail_os.Prelude.{ℕ, String, Option}
use retail_os.Prelude.Int.{ℤ}
use retail_os.Core.Time.{DateTime}

pub data MovementType : Type 0 where
  stock_in stock_out transfer_out transfer_in adjustment : MovementType

pub record StockLevel : Type 0 where
  pub id : ℕ
  pub company_id : ℕ
  pub warehouse_id : ℕ
  pub product_variant_id : ℕ
  pub quantity : ℤ
  pub version : ℕ

pub record StockTransfer : Type 0 where
  pub id : ℕ
  pub company_id : ℕ
  pub from_warehouse_id : ℕ
  pub to_warehouse_id : ℕ
  pub product_variant_id : ℕ
  pub quantity : ℤ
  pub note : Option String
  pub created_at : DateTime

pub record StockTransaction : Type 0 where
  pub id : ℕ
  pub company_id : ℕ
  pub branch_id : ℕ
  pub warehouse_id : ℕ
  pub product_variant_id : ℕ
  pub movement_type : MovementType
  pub quantity_delta : ℤ
  pub quantity_after : ℤ
  pub reason : Option String
  pub note : Option String
  pub transfer_id : Option ℕ
  pub created_at : DateTime
