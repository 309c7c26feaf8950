-- ===== src/Inventory/Transferring.antt =====
-- What `transfer` of backend/app/modules/inventory/service.py has done when it returns: the header,
-- and the two legs in the order of their warehouses' ids.
use retail_os.Inventory.Service.{movement_key}
use retail_os.Inventory.Balance.{quantity_of}
use retail_os.Prelude.Int.{◌+ℤ◌, ◌<ℤ◌, pos, in_int32}
use retail_os.Inventory.Effects.{Allows, Posted, record_delta_movement-Posted}
use retail_os.Inventory.Lookups.{Ensures-lookups, get_warehouse-Finds, FindsProduct, FindsWarehouse}
use retail_os.Company.Models.{Warehouse}
use retail_os.Core.Ensures.{
  Ensures-move, Ensures-run, Ensures-bind, Ensures-read, Ensures-raise_if, Ensures,
}
use retail_os.Inventory.Models.{StockTransaction, StockTransfer}
use retail_os.Prelude.{refl, arith, ◌≢◌, inr, inl, [], Bool-cases, ◌∷◌, ◌≡◌, ◌++◌, ℕ, ◌+◌}
use retail_os.Core.Session.{Session}
use retail_os.Catalog.Models.{Product, ProductVariant}
use retail_os.Inventory.StockTransferRepository
use retail_os.Inventory.Operations.{
  in_leg, out_leg, lock_order, leg_movement, header, Leg, transfer, move_legs, TransferRequest,
}

abbrev pub LegPosted :
    TransferRequest
    → ProductVariant
    → Product
    → ℕ
    → Leg
    → Session
    → StockTransaction
    → Session
    → Type 0
LegPosted r v p id leg s t s' =
    let m = leg_movement r v id leg in
    let q = quantity_of (movement_key m) s.db.stock_levels +ℤ leg.delta in
    Posted m leg.delta q s t s' × Allows p q

abbrev pub with_header : TransferRequest → Session → Session
with_header r s = record s {
  next_id = s.next_id + 1;
  db = record (s.db) { stock_transfers = s.db.stock_transfers ++ header r s.next_id s.now ∷ [] };
}

pub record Transferred (r : TransferRequest) (s : Session) (x : StockTransfer) (s' : Session)
    : Type 0 where
  pub from_warehouse : Warehouse
  pub to_warehouse : Warehouse
  pub variant : ProductVariant
  pub product : Product
  pub finds_from : FindsWarehouse r.company_id r.from_warehouse_id s from_warehouse
  pub finds_to : FindsWarehouse r.company_id r.to_warehouse_id s to_warehouse
  pub finds_product : FindsProduct r.company_id r.product_variant_id s variant product
  pub positive : pos 0 <ℤ r.quantity
  pub distinct : r.from_warehouse_id ≢ r.to_warehouse_id
  pub is_header : x ≡ header r s.next_id s.now
  pub middle : Session
  pub first : StockTransaction
  pub second : StockTransaction
  pub first_posted :
      LegPosted r variant product s.next_id
        (lock_order (out_leg r from_warehouse) (in_leg r to_warehouse)).0
        (with_header r s)
        first
        middle
  pub second_posted :
      LegPosted r variant product s.next_id
        (lock_order (out_leg r from_warehouse) (in_leg r to_warehouse)).1
        middle
        second
        s'

abbrev BothPosted :
    TransferRequest
    → ProductVariant
    → Product
    → ℕ
    → Leg × Leg
    → Session
    → StockTransaction × StockTransaction
    → Session
    → Type 0
BothPosted r v p id legs s tu s' =
    (middle : Session) × LegPosted r v p id legs.0 s tu.0 middle
    × LegPosted r v p id legs.1 middle tu.1 s'

move_legs-BothPosted :
    (r : TransferRequest) (v : ProductVariant) (p : Product) (id : ℕ) (a b : Leg) (s : Session)
    → Ensures (BothPosted r v p id (a, b) s) (move_legs r v p id (a, b) s)
unfolding move_legs
move_legs-BothPosted r v p id a b s =
    let Q = BothPosted r v p id (a, b) s in
    Ensures-bind Q (LegPosted r v p id a s) _ _ s
      (record_delta_movement-Posted (leg_movement r v id a) p a.delta s)
      λ t middle h.
        Ensures-bind Q (LegPosted r v p id b middle) _ _ middle
          (record_delta_movement-Posted (leg_movement r v id b) p b.delta middle)
          λ u s' k. (middle, h, k)

create-header :
    (r : TransferRequest) (s : Session)
    → Ensures
        (λ _ s'. (s' ≡ with_header r s) × Unit {0})
        (StockTransferRepository.create
          (header r s.next_id s.now)
          (record s { next_id = s.next_id + 1 }))
unfolding StockTransferRepository.create
create-header r s = elim (Bool-cases (in_int32 r.quantity)) [
  | inl fits ↦ rw fits (refl, tt)
  | inr large ↦ rw large tt
]

pub transfer-Transferred :
    (r : TransferRequest) (s : Session) → Ensures (Transferred r s) (transfer r s)
unfolding transfer
transfer-Transferred r s =
    let Q = Transferred r s in
    let s₁ : Session = record s { next_id = s.next_id + 1 } in
    Ensures-raise_if Q _ _ _ s λ positive. Ensures-raise_if Q _ _ _ s λ distinct.
      Ensures-read Q (FindsWarehouse r.company_id r.from_warehouse_id s) _ _ s
        (get_warehouse-Finds r.company_id r.from_warehouse_id s)
        λ w from_found.
          Ensures-lookups Q r.company_id r.to_warehouse_id r.product_variant_id _ s
            λ w' vp to_found known. Ensures-run Q _ _ s s.next_id s₁ refl (
              Ensures-run Q _ _ s₁ s.now s₁ refl (
                Ensures-move Q (λ _. Unit {0}) (with_header r s) _ _ s₁ (create-header r s)
                  λ _ _.
                    let legs = lock_order (out_leg r w) (in_leg r w') in
                    Ensures-bind Q (BothPosted r vp.0 vp.1 s.next_id legs (with_header r s)) _ _
                      (with_header r s)
                      (move_legs-BothPosted r vp.0 vp.1 s.next_id legs.0 legs.1 (with_header r s))
                      λ tu s' h. record {
                        from_warehouse = w;
                        to_warehouse = w';
                        variant = vp.0;
                        product = vp.1;
                        finds_from = from_found;
                        finds_to = to_found;
                        finds_product = known;
                        positive = ground arith;
                        distinct = ground arith;
                        is_header = refl;
                        middle = h.0;
                        first = tu.0;
                        second = tu.1;
                        first_posted = h.1;
                        second_posted = h.2;
                      }))
