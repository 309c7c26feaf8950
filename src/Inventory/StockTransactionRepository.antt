-- ===== src/Inventory/StockTransactionRepository.antt =====
-- `StockTransactionRepository` of backend/app/modules/inventory/repository.py, its ledger rows.
use retail_os.Prelude.{[], ◌∷◌, ◌++◌, ◌&&◌, not}
use retail_os.Prelude.Int.{in_int32}
use retail_os.Core.Exceptions.{data_error}
use retail_os.Core.Session.{M, raise_if, modify_db, ◌>>=◌, ◌>>◌}
use retail_os.Inventory.Models.{StockTransaction}

-- Both quantities are INTEGER columns.
unfoldable pub create : StockTransaction → M (Unit {0})
unfolding ◌>>=◌
create transaction = do
  raise_if (not (in_int32 transaction.quantity_delta && in_int32 transaction.quantity_after))
      data_error
  modify_db λ db. record db { stock_transactions = db.stock_transactions ++ transaction ∷ [] }
