-- ===== src/Inventory/Atomic.antt =====
-- No operation of backend/app/modules/inventory/service.py commits by itself.
use retail_os.Core.Exceptions.{Exception}
use retail_os.Core.Session.{err, get_db_session, Session}
use retail_os.Prelude.Int.{ℤ}
use retail_os.Inventory.Models.{StockTransfer}
use retail_os.Catalog.Models.{ProductVariant, Product}
use retail_os.Prelude.{◌≡◌, arith, ℕ}
use retail_os.Inventory.Requests.{Operation, perform}
use retail_os.Inventory.Operations.{
  Leg, StockRequest, TransferRequest, transfer, adjust, issue, receive, move_legs,
}
use retail_os.Core.Keeps.{get_db_session-rolls_back, Keeps, keeps_rules}
use retail_os.Inventory.StockTransferRepository
use retail_os.Inventory.Service.{
  Movement, record_delta_movement, write_ledger_row, check_policy, get_variant_and_product,
  get_warehouse,
}
use retail_os.Inventory.StockLevelRepository.{Key, set_absolute, upsert_delta}

upsert_delta-Keeps : (id : ℕ) (k : Key) (delta : ℤ) → Keeps (upsert_delta id k delta)
unfolding upsert_delta
upsert_delta-Keeps id k delta = record { at = λ s. ground arith }

set_absolute-Keeps : (id : ℕ) (k : Key) (q : ℤ) → Keeps (set_absolute id k q)
unfolding set_absolute
set_absolute-Keeps id k q = record { at = λ s. ground arith }

get_warehouse-Keeps : (c id : ℕ) → Keeps (get_warehouse c id)
unfolding get_warehouse
get_warehouse-Keeps c id = record { at = λ s. ground arith }

get_variant_and_product-Keeps : (c id : ℕ) → Keeps (get_variant_and_product c id)
unfolding get_variant_and_product
get_variant_and_product-Keeps c id = record { at = λ s. ground arith }

check_policy-Keeps : (p : Product) (q : ℤ) → Keeps (check_policy p q)
unfolding check_policy
check_policy-Keeps p q = record { at = λ s. ground arith }

write_ledger_row-Keeps : (m : Movement) (d q : ℤ) → Keeps (write_ledger_row m d q)
unfolding write_ledger_row
write_ledger_row-Keeps m d q = record { at = λ s. ground arith }

create-header-Keeps : (x : StockTransfer) → Keeps (StockTransferRepository.create x)
unfolding StockTransferRepository.create
create-header-Keeps x = record { at = λ s. ground arith }

ruleset leaf_rules = (
  keeps_rules, upsert_delta-Keeps, set_absolute-Keeps, get_warehouse-Keeps,
  get_variant_and_product-Keeps, check_policy-Keeps, write_ledger_row-Keeps, create-header-Keeps,
)

record_delta_movement-Keeps :
    (m : Movement) (p : Product) (d : ℤ) → Keeps (record_delta_movement m p d)
unfolding record_delta_movement
record_delta_movement-Keeps m p d = search leaf_rules depth 8

move_legs-Keeps :
    (r : TransferRequest) (v : ProductVariant) (p : Product) (id : ℕ) (legs : Leg × Leg)
    → Keeps (move_legs r v p id legs)
unfolding move_legs
move_legs-Keeps r v p id legs = search (keeps_rules, record_delta_movement-Keeps) depth 8

receive-Keeps : (r : StockRequest) → Keeps (receive r)
unfolding receive
receive-Keeps r = search (leaf_rules, record_delta_movement-Keeps) depth 10

issue-Keeps : (r : StockRequest) → Keeps (issue r)
unfolding issue
issue-Keeps r = search (leaf_rules, record_delta_movement-Keeps) depth 10

adjust-Keeps : (r : StockRequest) → Keeps (adjust r)
unfolding adjust
adjust-Keeps r = search leaf_rules depth 14

transfer-Keeps : (r : TransferRequest) → Keeps (transfer r)
unfolding transfer
transfer-Keeps r = search (leaf_rules, move_legs-Keeps) depth 16

pub perform-Keeps : (op : Operation) → Keeps (perform op)
unfolding perform
perform-Keeps (Operation.stock_in r) = search (keeps_rules, receive-Keeps)
perform-Keeps (Operation.stock_out r) = search (keeps_rules, issue-Keeps)
perform-Keeps (Operation.adjustment r) = search (keeps_rules, adjust-Keeps)
perform-Keeps (Operation.transfer r) = search (keeps_rules, transfer-Keeps)

-- A stock request that raises leaves the database exactly as it was last committed: neither a
-- balance nor a row of the ledger nor an entry of the audit trail is left behind.
pub perform-rolls_back :
    (op : Operation) (s : Session) {e : Exception} {s' : Session}
    → get_db_session (perform op) s ≡ (err e, s')
    → (s'.db ≡ s.saved) × (s'.saved ≡ s.saved)
perform-rolls_back op s h = get_db_session-rolls_back (perform op) s (perform-Keeps op) h
