-- ===== src/Inventory/Ledger.antt =====
-- The ledger of backend/app/modules/inventory/service.py against its balances: a balance is the sum
-- of the deltas that were posted to it.
use retail_os.Core.Keeps.{IsCommitted}
use retail_os.Core.Time.{DateTime}
use retail_os.Inventory.Requests.{Operation, serve_all}
use retail_os.Inventory.Effects.{Posted}
use retail_os.Inventory.Models.{StockLevel, StockTransaction}
use retail_os.Inventory.Upkeep.{serve_all-keeps}
use retail_os.Core.Session.{Session}
use retail_os.Prelude.{List, inr, inl, Bool-cases, refl, if◌then◌else◌, arith, true, ◌≡◌}
use retail_os.Inventory.Balance.{ledger_sum-append, ledger_sum, quantity_of, IsBalanced, same_key}
use retail_os.Prelude.Int.{pos, int_laws, ◌+ℤ◌, ℤ}
use retail_os.Inventory.Service.{movement_key, Movement}
use retail_os.Inventory.StockLevelRepository.{Key}

same_key-≡ : (j k : Key) → same_key j k ≡ true → j ≡ k
same_key-≡ j k h = ground arith

sum_step :
    (k j : Key) (d q sum : ℤ) (levels : List StockLevel)
    → q ≡ quantity_of k levels +ℤ d
    → quantity_of j levels ≡ sum
    → (if same_key k j then q else quantity_of j levels)
      ≡ sum +ℤ (if same_key k j then d else pos 0)
sum_step k j d q sum levels e b = elim (Bool-cases (same_key k j)) [
  | inl same ↦ rw (same, e, same_key-≡ k j same, b) refl
  | inr other ↦ rw (other, b) (omega int_laws)
]

Posted-sum :
    (m : Movement) (d q : ℤ) (s : Session) (t : StockTransaction) (s' : Session) (j : Key)
    → Posted m d q s t s'
    → q ≡ quantity_of (movement_key m) s.db.stock_levels +ℤ d
    → quantity_of j s.db.stock_levels ≡ ledger_sum j s.db.stock_transactions
    → quantity_of j s'.db.stock_levels ≡ ledger_sum j s'.db.stock_transactions
Posted-sum m d q s t s' j h e b =
    rw (h.quantities j, h.ledger, ledger_sum-append j s.db.stock_transactions t, h.row)
      (sum_step (movement_key m) j d q _ s.db.stock_levels e b)

-- A posted movement by its delta keeps the ledger in balance.
pub Posted-IsBalanced :
    (m : Movement) (d q : ℤ) (s : Session) (t : StockTransaction) (s' : Session)
    → Posted m d q s t s'
    → q ≡ quantity_of (movement_key m) s.db.stock_levels +ℤ d
    → IsBalanced s.db
    → IsBalanced s'.db
Posted-IsBalanced m d q s t s' h e b = λ j. Posted-sum m d q s t s' j h e (b j)

-- From a committed session whose balances are the sums of their ledgers, whatever stock requests are
-- served one after the other, and whether each of them succeeds or is refused, the session is
-- committed again and every committed balance is the sum of the deltas in the ledger.
pub serve_all-IsBalanced :
    (xs : List (DateTime × Operation)) (s : Session)
    → IsCommitted s
    → IsBalanced s.saved
    → IsCommitted (serve_all xs s) × IsBalanced (serve_all xs s).saved
serve_all-IsBalanced = serve_all-keeps IsBalanced (λ db x b. b) Posted-IsBalanced
