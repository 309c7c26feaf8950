-- ===== src/Inventory/History.antt =====
-- The ledger in pages: `list_page` of backend/app/modules/inventory/repository.py,
-- `list_transactions` of service.py and api.py there.
use retail_os.Core.Exceptions.{value_error}
use retail_os.Prelude.Rows.{select_all, order_by, take, length}
use retail_os.Core.Session.{gets, or_raise, ◌>>=◌, pure, M}
use retail_os.Inventory.Cursors.{decode_cursor, encode_cursor, Codecs}
use retail_os.Csv.Wire.{Text}
use retail_os.Core.Time.{DateTime}
use retail_os.Prelude.{
  ◌+◌, ◌||◌, leb, ltb, ◌&&◌, ◌==◌, ℕ, Bool, true, false, Option, none, some, List,
}
use retail_os.Prelude.Pages.{last}
use retail_os.Inventory.Models.{StockTransaction, MovementType}

abbrev pub is_movement : MovementType → MovementType → Bool
is_movement MovementType.stock_in MovementType.stock_in = true
is_movement MovementType.stock_out MovementType.stock_out = true
is_movement MovementType.transfer_out MovementType.transfer_out = true
is_movement MovementType.transfer_in MovementType.transfer_in = true
is_movement MovementType.adjustment MovementType.adjustment = true
is_movement _ _ = false

-- the parameters of a request for a page, but for the cursor and the limit
pub record TransactionFilter : Type 0 where
  pub warehouse_id : Option ℕ
  pub product_variant_id : Option ℕ
  pub movement_type : Option MovementType
  pub date_from : Option DateTime
  pub date_to : Option DateTime

-- `if x is not None: stmt = stmt.where(...)`
abbrev pub asks : {A : Type 0} → Option A → (A → Bool) → Bool
asks none p = true
asks (some a) p = p a

abbrev pub selects : ℕ → TransactionFilter → StockTransaction → Bool
selects company_id f t =
    t.company_id == company_id
    && asks f.warehouse_id (λ w. t.warehouse_id == w)
    && asks f.product_variant_id (λ v. t.product_variant_id == v)
    && asks f.movement_type (is_movement t.movement_type)
    && asks f.date_from (λ d. leb d t.created_at)
    && asks f.date_to (leb t.created_at)

-- `tuple_(created_at, id) < tuple_(cursor_created_at, cursor_id)`
abbrev pub is_before : DateTime × ℕ → StockTransaction → Bool
is_before (created_at, id) t =
    ltb t.created_at created_at || (t.created_at == created_at && ltb t.id id)

-- the WHERE of the statement
abbrev pub stands : ℕ → TransactionFilter → Option (DateTime × ℕ) → StockTransaction → Bool
stands company_id filter key t = selects company_id filter t && asks key (λ k. is_before k t)

-- `order_by(created_at.desc(), id.desc())`
abbrev pub newer : StockTransaction → StockTransaction → Bool
newer a b = is_before (a.created_at, a.id) b

pub record RawTransactionPage : Type 0 where
  pub items : List StockTransaction
  pub next_cursor : Option Text
  pub has_more : Bool

module _ (libs : Codecs) where
  -- `encode_cursor(page_rows[-1]...) if has_more and page_rows else None`
  abbrev pub cursor_of : Bool → Option StockTransaction → Option Text
  cursor_of true (some t) = some (encode_cursor libs t.created_at t.id)
  cursor_of _ _ = none

  -- The page for the rows that the statement returned.
  unfoldable pub page_of : ℕ → List StockTransaction → RawTransactionPage
  page_of limit rows =
      let has_more = ltb limit (length rows) in
      record {
        items = take limit rows;
        next_cursor = cursor_of has_more (last (take limit rows));
        has_more = has_more;
      }

  abbrev pub cursor_condition : Option Text → M (Option (DateTime × ℕ))
  cursor_condition none = pure none
  cursor_condition (some cursor) =
      or_raise (decode_cursor libs cursor) value_error >>= λ key. pure (some key)

  unfoldable pub list_page : ℕ → TransactionFilter → Option Text → ℕ → M RawTransactionPage
  list_page company_id filter cursor limit = do
    key ← cursor_condition cursor
    rows ← gets λ s.
        take (limit + 1)
          (order_by newer (select_all (stands company_id filter key) s.db.stock_transactions))
    pure (page_of limit rows)
