-- ===== src/Inventory/Legs.antt =====
-- The rows that `transfer` of backend/app/modules/inventory/service.py writes.
use retail_os.Core.Ensures.{Ensures-ok}
use retail_os.Inventory.Transferring.{transfer-Transferred, Transferred}
use retail_os.Prelude.{refl, arith, inr, inl, leb, ◌≤◌, Bool-cases, some, [], ◌∷◌, ◌++◌, ◌≡◌}
use retail_os.Inventory.Models.{StockTransaction, StockTransfer}
use retail_os.Core.Session.{ok, Session}
use retail_os.Prelude.Int.{int_laws, pos, ◌+ℤ◌, neg, ℤ}
use retail_os.Inventory.Operations.{in_leg, out_leg, lock_order, transfer, TransferRequest}

-- A transfer that returned `x` has written its header and two rows of the ledger. Both rows carry the
-- header's id, their deltas cancel out, and the row of the smaller warehouse id is the first.
pub record HasLegs (r : TransferRequest) (s : Session) (x : StockTransfer) (s' : Session)
    : Type 0 where
  pub first : StockTransaction
  pub second : StockTransaction
  pub rows : s'.db.stock_transactions ≡ (s.db.stock_transactions ++ first ∷ []) ++ second ∷ []
  pub headers : s'.db.stock_transfers ≡ s.db.stock_transfers ++ x ∷ []
  pub first_transfer : first.transfer_id ≡ some x.id
  pub second_transfer : second.transfer_id ≡ some x.id
  pub no_gain : first.quantity_delta +ℤ second.quantity_delta ≡ pos 0
  pub same_variant : first.product_variant_id ≡ second.product_variant_id
  pub locked_in_order : first.warehouse_id ≤ second.warehouse_id

cancel_out : (q : ℤ) → neg q +ℤ q ≡ pos 0
cancel_out q = omega int_laws

cancel_in : (q : ℤ) → q +ℤ neg q ≡ pos 0
cancel_in q = omega int_laws

Transferred-HasLegs :
    (r : TransferRequest) (s : Session) (x : StockTransfer) (s' : Session)
    → Transferred r s x s'
    → HasLegs r s x s'
Transferred-HasLegs r s x s' h =
    let (a, b) = lock_order (out_leg r h.from_warehouse) (in_leg r h.to_warehouse) in
    record {
      first = h.first;
      second = h.second;
      rows = rw (h.second_posted.0.ledger, h.first_posted.0.ledger) refl;
      headers = rw (h.second_posted.0.transfers, h.first_posted.0.transfers, h.is_header) refl;
      first_transfer = rw (h.first_posted.0.row, h.is_header) refl;
      second_transfer = rw (h.second_posted.0.row, h.is_header) refl;
      no_gain =
          rw (h.first_posted.0.row, h.second_posted.0.row)
            (elim (Bool-cases (leb h.from_warehouse.id h.to_warehouse.id)) [
              | inl e ↦ rw e (cancel_out r.quantity)
              | inr e ↦ rw e (cancel_in r.quantity)
            ]);
      same_variant = rw (h.first_posted.0.row, h.second_posted.0.row) refl;
      locked_in_order =
          rw (h.first_posted.0.row, h.second_posted.0.row)
            (elim (Bool-cases (leb h.from_warehouse.id h.to_warehouse.id)) [
              | inl e ↦ rw e (ground arith)
              | inr e ↦ rw e (ground arith)
            ]);
    }

-- A transfer that returns has written its header and two ledger rows with the header's id, whose
-- deltas cancel out, the row of the smaller warehouse id first.
pub transfer-HasLegs :
    (r : TransferRequest) (s : Session) {x : StockTransfer} {s' : Session}
    → transfer r s ≡ (ok x, s')
    → HasLegs r s x s'
transfer-HasLegs r s {x} {s'} e =
    Transferred-HasLegs r s x s' (Ensures-ok (Transferred r s) _ (transfer-Transferred r s) e)
