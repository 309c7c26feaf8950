-- ===== src/Inventory/Policy.antt =====
-- The promises of `stock_in`, `stock_out` and `adjust` of backend/app/modules/inventory/service.py:
-- the balance they leave, the policy they keep, and when they go through.
use retail_os.Core.Ensures.{Ensures-ok}
use retail_os.Inventory.Conservation.{same_key_self}
use retail_os.Inventory.Effects.{Allows}
use retail_os.Inventory.Lookups.{Finds-variant_id, Finds-warehouse_id}
use retail_os.Prelude.{true, refl, sym, ◌∙◌, subst, arith, ◌≡◌}
use retail_os.Inventory.Balance.{quantity_of}
use retail_os.Inventory.Service.{movement_key}
use retail_os.Prelude.Int.{neg, ◌-ℤ◌, ◌≤ℤ◌, ◌<ℤ◌, pos, ◌+ℤ◌, ℤ}
use retail_os.Inventory.Posting.{adjust-Counts, Counts, issue-Moves, receive-Moves, Moves, Target}
use retail_os.Inventory.Models.{adjustment, stock_out, stock_in, StockTransaction, MovementType}
use retail_os.Core.Session.{ok, Session}
use retail_os.Inventory.Operations.{adjust, issue, receive, requested_key, movement, StockRequest}

pub request_key :
    (r : StockRequest) (s : Session) (x : Target r s) (t : MovementType)
    → movement_key (movement r x.warehouse x.variant t) ≡ requested_key r
request_key r s x t = ground (
  arith,
  Finds-warehouse_id r.company_id r.warehouse_id s x.warehouse x.finds_warehouse,
  Finds-variant_id r.company_id r.product_variant_id s x.variant x.product x.finds_product,
)

unfoldable pub balance : StockRequest → Session → ℤ
balance r s = quantity_of (requested_key r) s.db.stock_levels

-- The requested balance has moved by `delta` to a quantity that the product's policy allows, and
-- the returned row says so.
abbrev pub Moved : StockRequest → MovementType → ℤ → Session → StockTransaction → Session → Type 0
Moved r movement_type delta s t s' =
    (x : Target r s) × (balance r s' ≡ balance r s +ℤ delta)
    × Allows x.product (balance r s')
    × (t.movement_type ≡ movement_type)
    × (t.quantity_delta ≡ delta)
    × (t.quantity_after ≡ balance r s')

Moves-Moved :
    (r : StockRequest) (movement_type : MovementType) (delta : ℤ) (s : Session)
    (t : StockTransaction) (s' : Session)
    → Moves r movement_type delta s t s'
    → Moved r movement_type delta s t s'
unfolding balance
Moves-Moved r movement_type delta s t s' (x, (h, a)) =
    let k = movement_key (movement r x.warehouse x.variant movement_type) in
    let q = quantity_of k s.db.stock_levels +ℤ delta in
    let same = request_key r s x movement_type in
    let left : quantity_of k s'.db.stock_levels ≡ q = rw (h.quantities k, same_key_self k) refl in
    let after = subst (λ j. quantity_of j s'.db.stock_levels ≡ q) same left in
    let before = subst (λ j. q ≡ quantity_of j s.db.stock_levels +ℤ delta) same refl in
    (
      x,
      after ∙ before,
      subst (Allows x.product) (sym after) a,
      rw h.row refl,
      rw h.row refl,
      rw (h.row, after) refl,
    )

-- A stock-in that returns has added a positive quantity to the balance of the requested variant in
-- the requested warehouse, and the policy of the product allows the balance.
pub receive-Moved :
    (r : StockRequest) (s : Session) {t : StockTransaction} {s' : Session}
    → receive r s ≡ (ok t, s')
    → (pos 0 <ℤ r.quantity) × Moved r stock_in r.quantity s t s'
receive-Moved r s {t} {s'} e =
    let h =
      Ensures-ok (λ t s'. (pos 0 <ℤ r.quantity) × Moves r stock_in r.quantity s t s') _
        (receive-Moves r s) e in
    (h.0, Moves-Moved r stock_in r.quantity s t s' h.1)

-- A stock-out that returns has taken a positive quantity from the balance of the requested variant
-- in the requested warehouse: the product tracks its inventory, and the balance is not negative
-- unless the product allows that.
pub issue-Moved :
    (r : StockRequest) (s : Session) {t : StockTransaction} {s' : Session}
    → issue r s ≡ (ok t, s')
    → (pos 0 <ℤ r.quantity) × Moved r stock_out (neg r.quantity) s t s'
issue-Moved r s {t} {s'} e =
    let h =
      Ensures-ok (λ t s'. (pos 0 <ℤ r.quantity) × Moves r stock_out (neg r.quantity) s t s') _
        (issue-Moves r s) e in
    (h.0, Moves-Moved r stock_out (neg r.quantity) s t s' h.1)

-- An adjustment that returns has set the balance to the counted quantity, which is not negative, and
-- its row holds the difference from the balance of before.
pub adjust-counted :
    (r : StockRequest) (s : Session) {t : StockTransaction} {s' : Session}
    → adjust r s ≡ (ok t, s')
    → (pos 0 ≤ℤ r.quantity)
      × (balance r s' ≡ r.quantity)
      × (t.quantity_delta ≡ r.quantity -ℤ balance r s)
      × (t.quantity_after ≡ r.quantity)
      × ((x : Target r s) × (x.product.track_inventory ≡ true))
unfolding balance
adjust-counted r s {t} {s'} e =
    let (x, (h, counted, tracked)) = Ensures-ok (Counts r s) _ (adjust-Counts r s) e in
    let k = movement_key (movement r x.warehouse x.variant adjustment) in
    let same = request_key r s x adjustment in
    let left : quantity_of k s'.db.stock_levels ≡ r.quantity =
      rw (h.quantities k, same_key_self k) refl in
    (
      counted,
      subst (λ j. quantity_of j s'.db.stock_levels ≡ r.quantity) same left,
      subst (λ j. t.quantity_delta ≡ r.quantity -ℤ quantity_of j s.db.stock_levels) same
          (rw h.row refl),
      rw h.row refl,
      (x, tracked),
    )
