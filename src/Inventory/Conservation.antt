-- ===== src/Inventory/Conservation.antt =====
-- `transfer` of backend/app/modules/inventory/service.py: stock changes its warehouse and nothing
-- else.
use retail_os.Core.Ensures.{Ensures-ok}
use retail_os.Inventory.Lookups.{Finds-variant_id, Finds-warehouse_id}
use retail_os.Inventory.Service.{movement_key}
use retail_os.Inventory.Transferring.{transfer-Transferred, Transferred}
use retail_os.Inventory.Models.{StockTransfer}
use retail_os.Core.Session.{ok, Session}
use retail_os.Inventory.Statements.{Sets}
use retail_os.Prelude.{
  subst, inr, inl, leb, Bool-cases, arith, ◌≢◌, refl, ==_self, false, true, ◌≡◌,
}
use retail_os.Prelude.Int.{neg, ◌+ℤ◌, ℤ}
use retail_os.Inventory.Balance.{quantity_of, same_key}
use retail_os.Core.Db.{Db}
use retail_os.Inventory.StockLevelRepository.{Key}
use retail_os.Inventory.Operations.{transfer, in_leg, out_leg, leg_movement, TransferRequest}

abbrev pub out_key : TransferRequest → Key
out_key r = record {
  company_id = r.company_id;
  warehouse_id = r.from_warehouse_id;
  product_variant_id = r.product_variant_id;
}

abbrev pub in_key : TransferRequest → Key
in_key r = record {
  company_id = r.company_id;
  warehouse_id = r.to_warehouse_id;
  product_variant_id = r.product_variant_id;
}

-- The balances after a transfer: the source's is less by the quantity, the destination's more, and
-- every other key's is the one of before.
abbrev pub IsMoved : TransferRequest → Db → Db → Type 0
IsMoved r db db' =
    (quantity_of (out_key r) db'.stock_levels
      ≡ quantity_of (out_key r) db.stock_levels +ℤ neg r.quantity)
    × (quantity_of (in_key r) db'.stock_levels
        ≡ quantity_of (in_key r) db.stock_levels +ℤ r.quantity)
    × ((j : Key)
        → same_key (out_key r) j ≡ false
        → same_key (in_key r) j ≡ false
        → quantity_of j db'.stock_levels ≡ quantity_of j db.stock_levels)

pub same_key_self : (k : Key) → same_key k k ≡ true
same_key_self k =
    rw (==_self k.company_id, ==_self k.warehouse_id, ==_self k.product_variant_id) refl

-- the balance of `k` is moved by `d`
abbrev Shifts : Key → ℤ → Db → Db → Type 0
Shifts k d a b = Sets k (quantity_of k a.stock_levels +ℤ d) a b

-- the balances after two movements of different keys
unfoldable MovedTwice : Key → Key → ℤ → ℤ → Db → Db → Type 0
MovedTwice k l d e a c =
    (quantity_of k c.stock_levels ≡ quantity_of k a.stock_levels +ℤ d)
    × (quantity_of l c.stock_levels ≡ quantity_of l a.stock_levels +ℤ e)
    × ((j : Key)
        → same_key k j ≡ false
        → same_key l j ≡ false
        → quantity_of j c.stock_levels ≡ quantity_of j a.stock_levels)

moved_twice :
    (k l : Key) (d e : ℤ) (a b c : Db)
    → same_key k l ≡ false
    → same_key l k ≡ false
    → Shifts k d a b
    → Shifts l e b c
    → MovedTwice k l d e a c
unfolding MovedTwice
moved_twice k l d e a b c n n' h h' = (
  rw (h' k, n', h k, same_key_self k) refl,
  rw (h' l, same_key_self l, h l, n) refl,
  λ j m m'. rw (h' j, m', h j, m) refl,
)

out_leg-key :
    (r : TransferRequest) (s : Session) (x : StockTransfer) (s' : Session)
    (h : Transferred r s x s')
    → movement_key (leg_movement r h.variant s.next_id (out_leg r h.from_warehouse)) ≡ out_key r
out_leg-key r s x s' h = ground (
  arith,
  Finds-warehouse_id r.company_id r.from_warehouse_id s h.from_warehouse h.finds_from,
  Finds-variant_id r.company_id r.product_variant_id s h.variant h.product h.finds_product,
)

in_leg-key :
    (r : TransferRequest) (s : Session) (x : StockTransfer) (s' : Session)
    (h : Transferred r s x s')
    → movement_key (leg_movement r h.variant s.next_id (in_leg r h.to_warehouse)) ≡ in_key r
in_leg-key r s x s' h = ground (
  arith,
  Finds-warehouse_id r.company_id r.to_warehouse_id s h.to_warehouse h.finds_to,
  Finds-variant_id r.company_id r.product_variant_id s h.variant h.product h.finds_product,
)

keys_differ :
    (r : TransferRequest)
    → r.from_warehouse_id ≢ r.to_warehouse_id
    → (same_key (out_key r) (in_key r) ≡ false) × (same_key (in_key r) (out_key r) ≡ false)
keys_differ r n = ground arith

pub Transferred-IsMoved :
    (r : TransferRequest) (s : Session) (x : StockTransfer) (s' : Session)
    → Transferred r s x s'
    → IsMoved r s.db s'.db
unfolding MovedTwice
Transferred-IsMoved r s x s' h =
    let (n, n') = keys_differ r h.distinct in
    let b = h.middle.db in
    elim (Bool-cases (leb h.from_warehouse.id h.to_warehouse.id)) [
      | inl e ↦
          moved_twice (out_key r) (in_key r) (neg r.quantity) r.quantity s.db b s'.db n n'
            (subst (λ k. Shifts k (neg r.quantity) s.db b) (out_leg-key r s x s' h)
              (rw e at h.first_posted.0).quantities)
            (subst (λ k. Shifts k r.quantity b s'.db) (in_leg-key r s x s' h)
              (rw e at h.second_posted.0).quantities)
      | inr e ↦
          let m =
            moved_twice (in_key r) (out_key r) r.quantity (neg r.quantity) s.db b s'.db n' n
              (subst (λ k. Shifts k r.quantity s.db b) (in_leg-key r s x s' h)
                (rw e at h.first_posted.0).quantities)
              (subst (λ k. Shifts k (neg r.quantity) b s'.db) (out_leg-key r s x s' h)
                (rw e at h.second_posted.0).quantities) in
          (m.1, m.0, λ j o i. m.2 j i o)
    ]

-- A transfer that returns has moved the quantity from the source to the destination, and no other
-- balance has changed.
pub transfer-IsMoved :
    (r : TransferRequest) (s : Session) {x : StockTransfer} {s' : Session}
    → transfer r s ≡ (ok x, s')
    → IsMoved r s.db s'.db
transfer-IsMoved r s {x} {s'} e =
    Transferred-IsMoved r s x s' (Ensures-ok (Transferred r s) _ (transfer-Transferred r s) e)
