-- ===== src/Inventory/Requests.antt =====
-- The endpoints of backend/app/modules/inventory/api.py that move stock: an operation of the service
-- under `get_db_session`, which commits it or rolls it back.

use retail_os.Core.Time.{DateTime}
use retail_os.Prelude.{[], ◌∷◌, List}
use retail_os.Core.Session.{Session, get_db_session, M, pure, ◌>>=◌}
use retail_os.Inventory.Operations.{TransferRequest, StockRequest, receive, issue, adjust}
use retail_os.Inventory.Operations

pub data Operation : Type 0 where
  stock_in stock_out adjustment : StockRequest → Operation
  transfer : TransferRequest → Operation

unfoldable pub perform : Operation → M (Unit {0})
perform (stock_in r) = do t ← receive r; pure tt
perform (stock_out r) = do t ← issue r; pure tt
perform (adjustment r) = do t ← adjust r; pure tt
perform (transfer r) = do t ← Operations.transfer r; pure tt

-- One request on a committed database, at its own instant.
unfoldable pub serve : DateTime × Operation → Session → Session
unfolding get_db_session perform
serve (now, op) s = (get_db_session (perform op) (record s { now = now })).1

unfoldable pub serve_all : List (DateTime × Operation) → Session → Session
unfolding serve
serve_all [] s = s
serve_all (x ∷ xs) s = serve_all xs (serve x s)
