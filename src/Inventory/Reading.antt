-- ===== src/Inventory/Reading.antt =====
-- What `get_stock_level` of backend/app/modules/inventory/service.py shows against the balances and the
-- ledger.
use retail_os.Core.Ensures.{Ensures-run, Ensures-ok, Ensures-read, Ensures}
use retail_os.Inventory.Lookups.{get_variant_and_product-Finds, FindsProduct}
use retail_os.Inventory.Balance.{ledger_sum, quantity_of, IsBalanced}
use retail_os.Core.Session.{ok, Session}
use retail_os.Prelude.Int.{int_laws}
use retail_os.Inventory.Reads.{StockLevelSummary, get_stock_level, total}
use retail_os.Prelude.Rows.{any, select_one, select_all, affected_rows}
use retail_os.Inventory.StockLevelRepository.{in_warehouse, level_quantity, is_level, Key}
use retail_os.Inventory.Models.{StockLevel}
use retail_os.Prelude.{
  ◌∙◌, ap, some, ◌&&◌, ◌==◌, inr, arith, inl, refl, Bool-cases, ◌∷◌, [], ◌≤◌, ◌≡◌, List, ℕ, Bool,
}
use retail_os.Core.Db.{Db}
use retail_os.Inventory.StockLevelRepository
use retail_os.Prelude.Pages.{select_all-same}

-- The unique constraint of the table: a key has at most one row.
abbrev pub HasUniqueKeys : Db → Type 0
HasUniqueKeys db = (k : Key) → affected_rows (is_level k) db.stock_levels ≤ 1

select_all-none :
    {A : Type 0} (p : A → Bool) (xs : List A) → affected_rows p xs ≡ 0 → select_all p xs ≡ []
select_all-none p [] h = refl
select_all-none p (x ∷ xs) h = elim (Bool-cases (p x)) [
  | inl e ↦ absurd (ground (arith, rw e at h))
  | inr e ↦ rw e (select_all-none p xs (ground (arith, rw e at h)))
]

total-one :
    (p : StockLevel → Bool) (levels : List StockLevel)
    → affected_rows p levels ≤ 1
    → total (select_all p levels) ≡ level_quantity (select_one p levels)
total-one p [] h = refl
total-one p (l ∷ levels) h = elim (Bool-cases (p l)) [
  | inl e ↦ rw (e, select_all-none p levels (ground (arith, rw e at h))) (omega int_laws)
  | inr e ↦ rw e (total-one p levels (ground (arith, rw e at h)))
]

abbrev pub shown_key : ℕ → ℕ → ℕ → Key
shown_key company_id variant_id warehouse_id = record {
  company_id = company_id;
  warehouse_id = warehouse_id;
  product_variant_id = variant_id;
}

shown_total :
    (company_id variant_id warehouse_id : ℕ) (db : Db)
    → HasUniqueKeys db
    → total (
        select_all
          (λ l.
            l.company_id == company_id
            && (any (λ i. l.product_variant_id == i) (variant_id ∷ [])
                && in_warehouse (some warehouse_id) l))
          db.stock_levels)
      ≡ quantity_of (shown_key company_id variant_id warehouse_id) db.stock_levels
shown_total company_id variant_id warehouse_id db unique =
    let k = shown_key company_id variant_id warehouse_id in
    ap total (select_all-same _ (is_level k) db.stock_levels λ l. ground arith)
    ∙ total-one (is_level k) db.stock_levels (unique k)

abbrev pub IsShown : ℕ → ℕ → ℕ → Session → StockLevelSummary → Session → Type 0
IsShown company_id variant_id warehouse_id s x s' =
    let k = shown_key company_id variant_id warehouse_id in
    (s' ≡ s)
    × FindsProduct company_id variant_id s x.variant x.product
    × (x.quantity ≡ quantity_of k s.db.stock_levels)
    × (x.quantity ≡ ledger_sum k s.db.stock_transactions)

get_stock_level-IsShown :
    (company_id variant_id warehouse_id : ℕ) (s : Session)
    → HasUniqueKeys s.db
    → IsBalanced s.db
    → Ensures
        (IsShown company_id variant_id warehouse_id s)
        (get_stock_level company_id variant_id (some warehouse_id) s)
unfolding get_stock_level StockLevelRepository.list_for_variant_ids
get_stock_level-IsShown company_id variant_id warehouse_id s unique balanced =
    let Q = IsShown company_id variant_id warehouse_id s in
    let same = shown_total company_id variant_id warehouse_id s.db unique in
    Ensures-read Q (λ vp. FindsProduct company_id variant_id s vp.0 vp.1) _ _ s
      (get_variant_and_product-Finds company_id variant_id s)
      λ vp known.
        Ensures-run Q _ _ s _ s refl
          (refl, known, same, same ∙ balanced (shown_key company_id variant_id warehouse_id))

-- While every key has at most one balance and the balances are the sums of the ledger, the stock level
-- that is shown for a variant in a warehouse is its balance, and the sum of its ledger; the read
-- changes nothing.
pub get_stock_level-shows :
    (company_id variant_id warehouse_id : ℕ) (s : Session) {x : StockLevelSummary} {s' : Session}
    → HasUniqueKeys s.db
    → IsBalanced s.db
    → get_stock_level company_id variant_id (some warehouse_id) s ≡ (ok x, s')
    → IsShown company_id variant_id warehouse_id s x s'
get_stock_level-shows company_id variant_id warehouse_id s unique balanced e =
    Ensures-ok (IsShown company_id variant_id warehouse_id s) _
      (get_stock_level-IsShown company_id variant_id warehouse_id s unique balanced) e
