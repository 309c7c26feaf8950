-- ===== src/Inventory/StockLevelRepository.antt =====
-- `StockLevelRepository` of backend/app/modules/inventory/repository.py. A statement runs as one step
-- on the table: PostgreSQL's row lock is what makes it one.
use retail_os.Prelude.{
  ℕ, ◌+◌, Bool, Option, none, some, List, [], ◌∷◌, ◌++◌, ◌&&◌, not, ◌==◌, is_none, true,
  if◌then◌else◌,
}
use retail_os.Prelude.Int.{ℤ, pos, ◌+ℤ◌, in_int32}
use retail_os.Prelude.Rows.{select_one, select_all, update_where, any}
use retail_os.Core.Exceptions.{data_error}
use retail_os.Core.Session.{M, pure, gets, raise_if, modify_db, ◌>>=◌, ◌>>◌}
use retail_os.Inventory.Models.{StockLevel}

-- the unique key of a balance
pub record Key : Type 0 where
  pub company_id : ℕ
  pub warehouse_id : ℕ
  pub product_variant_id : ℕ

abbrev pub is_level : Key → StockLevel → Bool
is_level k l =
    l.company_id == k.company_id
    && (l.warehouse_id == k.warehouse_id && l.product_variant_id == k.product_variant_id)

unfoldable pub get : Key → M (Option StockLevel)
get k = gets λ s. select_one (is_level k) s.db.stock_levels

abbrev pub in_warehouse : Option ℕ → StockLevel → Bool
in_warehouse none l = true
in_warehouse (some warehouse_id) l = l.warehouse_id == warehouse_id

-- With no ids, the code returns before the query; the query would select nothing.
unfoldable pub list_for_variant_ids : ℕ → List ℕ → Option ℕ → M (List StockLevel)
list_for_variant_ids company_id [] warehouse_id = pure []
list_for_variant_ids company_id (id ∷ ids) warehouse_id = gets λ s.
    select_all
      (λ l.
        l.company_id == company_id
        && (any (λ i. l.product_variant_id == i) (id ∷ ids) && in_warehouse warehouse_id l))
      s.db.stock_levels

abbrev pub new_level : ℕ → Key → ℤ → StockLevel
new_level id k quantity = record {
  id = id;
  company_id = k.company_id;
  warehouse_id = k.warehouse_id;
  product_variant_id = k.product_variant_id;
  quantity = quantity;
  version = 1;
}

abbrev pub add_quantity : ℤ → StockLevel → StockLevel
add_quantity delta l = record l { quantity = l.quantity +ℤ delta; version = l.version + 1 }

abbrev pub put_levels : List StockLevel → M (Unit {0})
put_levels levels = modify_db λ db. record db { stock_levels = levels }

-- INSERT ... ON CONFLICT DO UPDATE ... RETURNING quantity. The driver refuses a parameter, and the
-- database a sum, that INTEGER does not hold.
unfoldable pub upsert_delta : ℕ → Key → ℤ → M ℤ
unfolding ◌>>=◌
upsert_delta id k delta = do
  raise_if (not (in_int32 delta)) data_error
  levels ← gets (λ s. s.db.stock_levels)
  elim (select_one (is_level k) levels) [
    | none ↦ put_levels (levels ++ new_level id k delta ∷ []) >> pure delta
    | some l ↦ do
      let quantity = l.quantity +ℤ delta
      raise_if (not (in_int32 quantity)) data_error
      put_levels (update_where (is_level k) (add_quantity delta) levels)
      pure quantity
  ]

abbrev pub set_quantity : ℤ → StockLevel → StockLevel
set_quantity quantity l = record l { quantity = quantity; version = l.version + 1 }

-- INSERT ... ON CONFLICT DO NOTHING, on the rows
abbrev pub insert_missing : ℕ → Key → List StockLevel → List StockLevel
insert_missing id k levels =
    if is_none (select_one (is_level k) levels)
    then levels ++ new_level id k (pos 0) ∷ []
    else levels

abbrev pub level_quantity : Option StockLevel → ℤ
level_quantity none = pos 0
level_quantity (some l) = l.quantity

-- The three statements: INSERT ... ON CONFLICT DO NOTHING, SELECT ... FOR UPDATE, UPDATE. The
-- second always finds the row that the first has left or made.
unfoldable pub set_absolute : ℕ → Key → ℤ → M ℤ
unfolding ◌>>=◌
set_absolute id k new_quantity = do
  inserted ← gets (λ s. insert_missing id k s.db.stock_levels)
  put_levels inserted
  let previous_quantity = level_quantity (select_one (is_level k) inserted)
  raise_if (not (in_int32 new_quantity)) data_error
  put_levels (update_where (is_level k) (set_quantity new_quantity) inserted)
  pure previous_quantity
