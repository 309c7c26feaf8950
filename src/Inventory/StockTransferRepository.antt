-- ===== src/Inventory/StockTransferRepository.antt =====
-- `StockTransferRepository` of backend/app/modules/inventory/repository.py.
use retail_os.Prelude.{[], ◌∷◌, ◌++◌, not}
use retail_os.Prelude.Int.{in_int32}
use retail_os.Core.Exceptions.{data_error}
use retail_os.Core.Session.{M, raise_if, modify_db, ◌>>=◌, ◌>>◌}
use retail_os.Inventory.Models.{StockTransfer}

-- The header's quantity is an INTEGER too.
unfoldable pub create : StockTransfer → M (Unit {0})
unfolding ◌>>=◌
create transfer = do
  raise_if (not (in_int32 transfer.quantity)) data_error
  modify_db λ db. record db { stock_transfers = db.stock_transfers ++ transfer ∷ [] }
