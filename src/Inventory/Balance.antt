-- ===== src/Inventory/Balance.antt =====
-- What the balances and the ledger of backend/app/modules/inventory/models.py stand for: a quantity
-- for each key, and the sum of the deltas for each key.
use retail_os.Prelude.{
  ℕ, ◌+◌, ◌≡◌, refl, Bool, true, false, none, some, List, [], ◌∷◌, ◌++◌, arith, ◌&&◌, ◌==◌,
  if◌then◌else◌, Bool-cases, inl, inr,
}
use retail_os.Prelude.Int.{ℤ, pos, ◌+ℤ◌, int_laws}
use retail_os.Prelude.Rows.{select_one, update_where}
use retail_os.Core.Db.{Db}
use retail_os.Inventory.Models.{StockLevel, StockTransaction}
use retail_os.Inventory.StockLevelRepository.{Key, is_level, level_quantity, new_level}

abbrev pub quantity_of : Key → List StockLevel → ℤ
quantity_of k levels = level_quantity (select_one (is_level k) levels)

abbrev pub is_entry : Key → StockTransaction → Bool
is_entry k t =
    t.company_id == k.company_id
    && (t.warehouse_id == k.warehouse_id && t.product_variant_id == k.product_variant_id)

abbrev pub entry_delta : Key → StockTransaction → ℤ
entry_delta k t = if is_entry k t then t.quantity_delta else pos 0

abbrev pub ledger_sum : Key → List StockTransaction → ℤ
ledger_sum k [] = pos 0
ledger_sum k (t ∷ ts) = entry_delta k t +ℤ ledger_sum k ts

-- Every balance is the sum of its ledger.
abbrev pub IsBalanced : Db → Type 0
IsBalanced db = (k : Key) → quantity_of k db.stock_levels ≡ ledger_sum k db.stock_transactions

abbrev pub same_key : Key → Key → Bool
same_key j k =
    j.company_id == k.company_id
    && (j.warehouse_id == k.warehouse_id && j.product_variant_id == k.product_variant_id)

pub ledger_sum-append :
    (k : Key) (ts : List StockTransaction) (t : StockTransaction)
    → ledger_sum k (ts ++ t ∷ []) ≡ ledger_sum k ts +ℤ entry_delta k t
ledger_sum-append k [] t = omega int_laws
ledger_sum-append k (x ∷ ts) t = rw (ledger_sum-append k ts t) (omega int_laws)

pub quantity_of-new :
    (j k : Key) (id : ℕ) (q : ℤ) (levels : List StockLevel)
    → select_one (is_level k) levels ≡ none
    → quantity_of j (levels ++ new_level id k q ∷ [])
      ≡ (if same_key k j then q else quantity_of j levels)
quantity_of-new j k id q [] h = ground arith
quantity_of-new j k id q (l ∷ levels) h = ground (arith, quantity_of-new j k id q levels)

-- `add_quantity` and `set_quantity` at once
abbrev pub change_quantity : (ℤ → ℤ) → StockLevel → StockLevel
change_quantity g l = record l { quantity = g l.quantity; version = l.version + 1 }

is_level-same : (j k : Key) (l : StockLevel) → is_level k l ≡ true → is_level j l ≡ same_key k j
is_level-same j k l h = ground arith

quantity_of-update_other :
    (g : ℤ → ℤ) (j k : Key) (levels : List StockLevel)
    → same_key k j ≡ false
    → quantity_of j (update_where (is_level k) (change_quantity g) levels) ≡ quantity_of j levels
quantity_of-update_other g j k [] h = refl
quantity_of-update_other g j k (x ∷ levels) h = elim (Bool-cases (is_level k x)) [
  | inl e ↦ rw (e, is_level-same j k x e, h) (quantity_of-update_other g j k levels h)
  | inr e ↦ rw e (ground (arith, quantity_of-update_other g j k levels h))
]

pub quantity_of-update :
    (g : ℤ → ℤ) (j k : Key) (l : StockLevel) (levels : List StockLevel)
    → select_one (is_level k) levels ≡ some l
    → quantity_of j (update_where (is_level k) (change_quantity g) levels)
      ≡ (if same_key k j then g l.quantity else quantity_of j levels)
quantity_of-update g j k l [] h = cc
quantity_of-update g j k l (x ∷ levels) h = elim (Bool-cases (is_level k x)) [
  | inl e ↦
      rw (e, is_level-same j k x e)
        (ground (arith, rw e at h, quantity_of-update_other g j k levels))
  | inr e ↦ rw e (ground (arith, quantity_of-update g j k l levels (rw e at h)))
]
