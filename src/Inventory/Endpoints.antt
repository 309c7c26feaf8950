-- ===== src/Inventory/Endpoints.antt =====
-- The endpoints of backend/app/modules/inventory/api.py. Each one runs behind
-- `Depends(require_permission(...))`, for the company of the caller.
use retail_os.Csv.Wire.{Text}
use retail_os.Inventory.History.{list_page, TransactionFilter}
use retail_os.Auth.Dependencies.{require_permission}
use retail_os.Core.Envelope.{completed, success_envelope, SuccessEnvelope}
use retail_os.Inventory.Cursors.{Codecs}
use retail_os.Core.Session.{pure, ◌>>=◌, M}
use retail_os.Core.Config.{Settings}
use retail_os.Core.Security.{Libraries}
use retail_os.Prelude.{ℕ, String, Bool, Option, some, List, map}
use retail_os.Users.Models.{User}
use retail_os.Inventory.Operations.{StockRequest, receive, issue, adjust}
use retail_os.Inventory.Operations
use retail_os.Inventory.Schemas
use retail_os.Inventory.Reads

-- the arguments of the service, from the caller and the body of the request
abbrev pub to_receive : User → Schemas.StockInRequest → StockRequest
to_receive user request = record {
  company_id = user.company_id;
  user_id = user.id;
  warehouse_id = request.warehouse_id;
  product_variant_id = request.product_variant_id;
  quantity = request.quantity;
  reason = request.reason;
  note = request.note;
}

abbrev pub to_issue : User → Schemas.StockOutRequest → StockRequest
to_issue user request = record {
  company_id = user.company_id;
  user_id = user.id;
  warehouse_id = request.warehouse_id;
  product_variant_id = request.product_variant_id;
  quantity = request.quantity;
  reason = request.reason;
  note = request.note;
}

abbrev pub to_adjust : User → Schemas.AdjustmentRequest → StockRequest
to_adjust user request = record {
  company_id = user.company_id;
  user_id = user.id;
  warehouse_id = request.warehouse_id;
  product_variant_id = request.product_variant_id;
  quantity = request.counted_quantity;
  reason = some request.reason;
  note = request.note;
}

abbrev pub to_transfer : User → Schemas.TransferRequest → Operations.TransferRequest
to_transfer user request = record {
  company_id = user.company_id;
  user_id = user.id;
  from_warehouse_id = request.from_warehouse_id;
  to_warehouse_id = request.to_warehouse_id;
  product_variant_id = request.product_variant_id;
  quantity = request.quantity;
  note = request.note;
}

module _ (libs : Libraries) (settings : Settings) (credentials : Option String) where
  abbrev Endpoint : Type 0 → Type 0
  Endpoint A = M (SuccessEnvelope A)

  -- `current_user: User = Depends(require_permission(code))`
  unfoldable pub with_permission : {A : Type 0} → String → (User → M A) → M A
  with_permission code action =
      require_permission code libs settings credentials >>= λ caller. action caller.0

  unfoldable pub list_stock :
      (String → String → Bool)
      → Option ℕ
      → Option String
      → Option ℕ
      → Bool
      → Endpoint (List Schemas.StockLevelRead)
  list_stock matches warehouse_id search category_id low_stock_only =
      with_permission "inventory.read" λ user.
        Reads.list_stock matches user.company_id warehouse_id search category_id low_stock_only
        >>= λ summaries.
            pure (success_envelope (some (map Schemas.stock_level_read summaries)) completed)

  unfoldable pub get_stock_level : ℕ → Option ℕ → Endpoint Schemas.StockLevelRead
  get_stock_level product_variant_id warehouse_id = with_permission "inventory.read" λ user.
      Reads.get_stock_level user.company_id product_variant_id warehouse_id >>= λ summary.
      pure (success_envelope (some (Schemas.stock_level_read summary)) completed)

  unfoldable pub list_low_stock :
      (String → String → Bool) → Option ℕ → Endpoint (List Schemas.StockLevelRead)
  list_low_stock matches warehouse_id = with_permission "inventory.read" λ user.
      Reads.list_low_stock matches user.company_id warehouse_id >>= λ summaries.
      pure (success_envelope (some (map Schemas.stock_level_read summaries)) completed)

  unfoldable pub stock_in : Schemas.StockInRequest → Endpoint Schemas.StockTransactionRead
  stock_in request = with_permission "inventory.stock_in" λ user.
      receive (to_receive user request) >>= λ t.
      pure (success_envelope (some (Schemas.read_transaction t)) "Stock in recorded")

  unfoldable pub stock_out : Schemas.StockOutRequest → Endpoint Schemas.StockTransactionRead
  stock_out request = with_permission "inventory.stock_out" λ user.
      issue (to_issue user request) >>= λ t.
      pure (success_envelope (some (Schemas.read_transaction t)) "Stock out recorded")

  unfoldable pub adjust_stock : Schemas.AdjustmentRequest → Endpoint Schemas.StockTransactionRead
  adjust_stock request = with_permission "inventory.adjust" λ user.
      adjust (to_adjust user request) >>= λ t.
      pure (success_envelope (some (Schemas.read_transaction t)) "Adjustment recorded")

  unfoldable pub transfer_stock : Schemas.TransferRequest → Endpoint Schemas.StockTransferRead
  transfer_stock request = with_permission "inventory.transfer" λ user.
      Operations.transfer (to_transfer user request) >>= λ t.
      pure (success_envelope (some (Schemas.read_transfer t)) "Transfer recorded")

  unfoldable pub list_transactions :
      Codecs
      → TransactionFilter
      → Option Text
      → ℕ
      → Endpoint (Schemas.Page Schemas.StockTransactionRead)
  list_transactions codecs filter cursor limit = with_permission "inventory.read" λ user.
      list_page codecs user.company_id filter cursor limit >>= λ raw.
      pure (success_envelope (some (Schemas.read_page raw)) completed)
