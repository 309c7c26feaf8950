-- ===== src/Inventory/Posting.antt =====
-- What the operations of backend/app/modules/inventory/service.py have done when they return.
use retail_os.Prelude.{◌+◌, ◌≡◌, refl, subst, true, arith, List}
use retail_os.Prelude.Int.{ℤ, pos, ◌+ℤ◌, ◌<ℤ◌, ◌≤ℤ◌, ◌-ℤ◌, neg}
use retail_os.Core.Session.{Session}
use retail_os.Core.Ensures.{Ensures, Ensures-run, Ensures-bind, Ensures-raise_if, Ensures-weaken}
use retail_os.Company.Models.{Warehouse}
use retail_os.Catalog.Models.{Product, ProductVariant}
use retail_os.Inventory.Models.{
  StockTransaction, stock_in, stock_out, adjustment, MovementType, StockLevel,
}
use retail_os.Inventory.Service.{write_ledger_row, movement_key, record_delta_movement}
use retail_os.Inventory.Operations.{StockRequest, requested_key, movement, receive, issue, adjust}
use retail_os.Inventory.Balance.{quantity_of}
use retail_os.Inventory.Lookups.{
  Finds-variant_id, Finds-warehouse_id, Ensures-lookups, FindsWarehouse, FindsProduct,
}
use retail_os.Inventory.Effects.{
  Posted, Allows, record_delta_movement-Posted, write_ledger_row-Posted,
}
use retail_os.Inventory.Statements.{Sets, with_levels, Overwritten, set_absolute-Overwritten}

-- the rows that a request names
pub record Target (r : StockRequest) (s : Session) : Type 0 where
  pub warehouse : Warehouse
  pub variant : ProductVariant
  pub product : Product
  pub finds_warehouse : FindsWarehouse r.company_id r.warehouse_id s warehouse
  pub finds_product : FindsProduct r.company_id r.product_variant_id s variant product

-- A movement of the target's key by `delta`, which the policy allows.
abbrev pub Moves : StockRequest → MovementType → ℤ → Session → StockTransaction → Session → Type 0
Moves r movement_type delta s t s' =
    (x : Target r s) × (let m = movement r x.warehouse x.variant movement_type in
      let q = quantity_of (movement_key m) s.db.stock_levels +ℤ delta in
      Posted m delta q s t s' × Allows x.product q)

record_delta_movement-Moves :
    (r : StockRequest) (movement_type : MovementType) (delta : ℤ) (s : Session) (w : Warehouse)
    (v : ProductVariant) (p : Product)
    → FindsWarehouse r.company_id r.warehouse_id s w
    → FindsProduct r.company_id r.product_variant_id s v p
    → Ensures
        (Moves r movement_type delta s)
        (record_delta_movement (movement r w v movement_type) p delta s)
record_delta_movement-Moves r movement_type delta s w v p found known =
    Ensures-weaken (Moves r movement_type delta s) _ _
      (record_delta_movement-Posted (movement r w v movement_type) p delta s)
      λ t s' h. (
        record {
          warehouse = w;
          variant = v;
          product = p;
          finds_warehouse = found;
          finds_product = known;
        },
        h,
      )

pub receive-Moves :
    (r : StockRequest) (s : Session)
    → Ensures (λ t s'. (pos 0 <ℤ r.quantity) × Moves r stock_in r.quantity s t s') (receive r s)
unfolding receive
receive-Moves r s =
    let Q = λ (t : StockTransaction) (s' : Session).
      (pos 0 <ℤ r.quantity) × Moves r stock_in r.quantity s t s' in
    Ensures-raise_if Q _ _ _ s λ positive.
      Ensures-lookups Q r.company_id r.warehouse_id r.product_variant_id _ s λ w vp found known.
        Ensures-weaken Q _ _
          (record_delta_movement-Moves r stock_in r.quantity s w vp.0 vp.1 found known)
          λ t s' h. (ground arith, h)

pub issue-Moves :
    (r : StockRequest) (s : Session)
    → Ensures
        (λ t s'. (pos 0 <ℤ r.quantity) × Moves r stock_out (neg r.quantity) s t s')
        (issue r s)
unfolding issue
issue-Moves r s =
    let Q = λ (t : StockTransaction) (s' : Session).
      (pos 0 <ℤ r.quantity) × Moves r stock_out (neg r.quantity) s t s' in
    Ensures-raise_if Q _ _ _ s λ positive.
      Ensures-lookups Q r.company_id r.warehouse_id r.product_variant_id _ s λ w vp found known.
        Ensures-weaken Q _ _
          (record_delta_movement-Moves r stock_out (neg r.quantity) s w vp.0 vp.1 found known)
          λ t s' h. (ground arith, h)

-- An adjustment sets the balance of the target's key to the counted quantity.
abbrev pub Counts : StockRequest → Session → StockTransaction → Session → Type 0
Counts r s t s' =
    (x : Target r s) × (let m = movement r x.warehouse x.variant adjustment in
      Posted m (r.quantity -ℤ quantity_of (movement_key m) s.db.stock_levels) r.quantity s t s'
      × (pos 0 ≤ℤ r.quantity)
      × (x.product.track_inventory ≡ true))

-- the two names of the key that an adjustment locks
target_key :
    (r : StockRequest) (s : Session) (w : Warehouse) (v : ProductVariant) (p : Product)
    → FindsWarehouse r.company_id r.warehouse_id s w
    → FindsProduct r.company_id r.product_variant_id s v p
    → requested_key r ≡ movement_key (movement r w v adjustment)
target_key r s w v p found known = ground (
  arith,
  Finds-warehouse_id r.company_id r.warehouse_id s w found,
  Finds-variant_id r.company_id r.product_variant_id s v p known,
)

counted_row-Counts :
    (r : StockRequest) (s : Session) (x : Target r s) (previous : ℤ) (levels : List StockLevel)
    → x.product.track_inventory ≡ true
    → pos 0 ≤ℤ r.quantity
    → Sets (requested_key r) r.quantity s.db (record (s.db) { stock_levels = levels })
    → previous ≡ quantity_of (requested_key r) s.db.stock_levels
    → Ensures (Counts r s) (
        write_ledger_row
          (movement r x.warehouse x.variant adjustment)
          (r.quantity -ℤ previous)
          r.quantity
          (with_levels s (s.next_id + 1) levels))
counted_row-Counts r s x previous levels tracked counted sets e =
    let m = movement r x.warehouse x.variant adjustment in
    let same = target_key r s x.warehouse x.variant x.product x.finds_warehouse x.finds_product in
    let before = subst (λ k. previous ≡ quantity_of k s.db.stock_levels) same e in
    Ensures-weaken (Counts r s) _ _
      (write_ledger_row-Posted m (r.quantity -ℤ previous) r.quantity s (s.next_id + 1) levels
        (subst (λ k. Sets k r.quantity s.db (record (s.db) { stock_levels = levels })) same sets))
      λ t s' h.
        (x, (subst (λ z. Posted m (r.quantity -ℤ z) r.quantity s t s') before h, counted, tracked))

pub adjust-Counts : (r : StockRequest) (s : Session) → Ensures (Counts r s) (adjust r s)
unfolding adjust
adjust-Counts r s =
    let Q = Counts r s in
    let s₁ : Session = record s { next_id = s.next_id + 1 } in
    Ensures-raise_if Q _ _ _ s λ counted.
      Ensures-lookups Q r.company_id r.warehouse_id r.product_variant_id _ s λ w vp found known.
        let x : Target r s = record {
          warehouse = w;
          variant = vp.0;
          product = vp.1;
          finds_warehouse = found;
          finds_product = known;
        } in
        Ensures-raise_if Q _ _ _ s λ tracked. Ensures-run Q _ _ s s.next_id s₁ refl (
          Ensures-bind Q (Overwritten (requested_key r) r.quantity s₁) _ _ s₁
            (set_absolute-Overwritten s.next_id (requested_key r) r.quantity s₁)
            λ previous s' u.
              rw u.1 (counted_row-Counts r s x previous u.0 (ground arith) (ground arith) u.2 u.3))
