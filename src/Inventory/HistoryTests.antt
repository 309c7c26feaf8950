-- ===== src/Inventory/HistoryTests.antt =====
-- The shop of Inventory/Tests.antt with three rows in its ledger, on which the pages and the endpoints of
-- backend/app/modules/inventory/api.py are run.
use retail_os.Inventory.StockLevelRepository.{upsert_delta}
use retail_os.Users.RbacService.{collect, get_effective_permission_codes}
use retail_os.Auth.Dependencies.{access_payload, get_current_user, require_permission}
use retail_os.Core.Envelope.{completed, success_envelope}
use retail_os.Core.Config.{default_settings}
use retail_os.Auth.Tests.{toys}
use retail_os.Core.Session.{◌>>=◌, ok, Session}
use retail_os.Inventory.Listing.{list_transactions-Listed, Listed}
use retail_os.Inventory.Schemas.{Page}
use retail_os.Inventory.Calls.{perform-Called, Called}
use retail_os.Prelude.Int.{pos}
use retail_os.Inventory.Paging.{visit-history, visit}
use retail_os.Inventory.History.{list_page, page_of, TransactionFilter}
use retail_os.Inventory.Service.{
  write_ledger_row, check_policy, record_delta_movement, get_variant_and_product, get_warehouse,
  ledger_row,
}
use retail_os.Inventory.Cursors.{
  bar, decode-encode_cursor, encode_cursor, Codecs, decode_cursor, IsCodec,
}
use retail_os.Prelude.Rows.{All, length}
use retail_os.Csv.Wire.{is, Text}
use Prim.Native.Char.{code, Char, char}
use retail_os.Prelude.{false, String, ℕ, zero, suc, some, none, [], ◌∷◌, ◌≡◌, refl, ap, arith, List}
use retail_os.Inventory.Cursors.{bar}
use retail_os.Inventory.Models.{StockTransaction, stock_in}
use retail_os.Inventory.Operations.{movement, receive}
use retail_os.Inventory.Tests.{of, warehouse, shirt_variant}
use retail_os.Catalog.Tests.{store}
use retail_os.Inventory.Schemas
use retail_os.Inventory.Calls
use retail_os.Inventory.Endpoints
use retail_os.Users.UserRepository

abbrev stroke : Char
stroke = char 97 tt

abbrev strokes : ℕ → Text
strokes zero = []
strokes (suc n) = stroke ∷ strokes n

length-strokes : (n : ℕ) → length (strokes n) ≡ n
length-strokes zero = refl
length-strokes (suc n) = ground (arith, length-strokes n)

strokes-no_bar : (n : ℕ) → All (λ c. is c bar ≡ false) (strokes n)
strokes-no_bar zero = tt
strokes-no_bar (suc n) = (refl, strokes-no_bar n)

-- numbers as strokes
abbrev unary : Codecs
unary = record {
  isoformat = strokes;
  fromisoformat = λ t. some (length t);
  str_uuid = strokes;
  parse_uuid = λ t. some (length t);
  urlsafe_b64encode = λ t. t;
  urlsafe_b64decode = some;
}

unary-IsCodec : IsCodec unary
unary-IsCodec =
    (λ t. ap some (length-strokes t), λ n. ap some (length-strokes n), λ raw. refl, strokes-no_bar)

decode-encode_cursor_example : decode_cursor unary (encode_cursor unary 9 4) ≡ some (9, 4)
decode-encode_cursor_example = decode-encode_cursor unary unary-IsCodec 9 4

-- a row of the ledger, by its id and instant
abbrev row : ℕ → ℕ → StockTransaction
row id at =
    ledger_row (movement (of 8) (warehouse 10 "Main") shirt_variant stock_in) (pos 8) (pos 8) id at

abbrev rows : List StockTransaction
rows = row 4 9 ∷ row 6 9 ∷ row 5 7 ∷ []

abbrev stall : String → Session
stall code =
    let s = store code in
    record s {
      db = record (s.db) { warehouses = warehouse 10 "Main" ∷ []; stock_transactions = rows };
    }

abbrev every : TransactionFilter
every = record {
  warehouse_id = none;
  product_variant_id = none;
  movement_type = none;
  date_from = none;
  date_to = none;
}

-- The two rows of one instant come in the order of their ids, each on a page of its own.
visit-history_example :
    visit unary 1 every 1 4 none (stall "inventory.read")
    ≡ (ok (row 6 9 ∷ row 4 9 ∷ row 5 7 ∷ []), stall "inventory.read")
visit-history_example =
    visit-history unary 1 every 1 4 (stall "inventory.read") unary-IsCodec
      (refl, (refl, (refl, tt))) (omega arith) (omega arith)

abbrev delivery : Calls.Request
delivery = Calls.Request.stock_in (record {
  warehouse_id = 10;
  product_variant_id = 21;
  quantity = pos 2;
  reason = none;
  note = none;
})

perform-Called_example :
    let s = stall "inventory.stock_in" in
    Called toys default_settings
      (some "access")
      "inventory.stock_in"
      (λ user.
        Calls.Done delivery user s
          (Calls.perform toys default_settings (some "access") delivery s).1)
      s
unfolding Calls.perform Calls.permission ◌>>=◌ Endpoints.stock_in Endpoints.with_permission
    require_permission get_current_user access_payload UserRepository.get_by_id
    get_effective_permission_codes collect receive get_warehouse get_variant_and_product
    record_delta_movement upsert_delta check_policy write_ledger_row
perform-Called_example =
    perform-Called toys default_settings (some "access") delivery (stall "inventory.stock_in")
      {s' = (Calls.perform toys default_settings (some "access") delivery
        (stall "inventory.stock_in")).1}
      refl

abbrev first_page : Schemas.Page Schemas.StockTransactionRead
first_page = Schemas.read_page (page_of unary 2 (row 6 9 ∷ row 4 9 ∷ row 5 7 ∷ []))

list_transactions-Listed_example :
    Listed toys default_settings
      (some "access")
      every
      2
      (success_envelope (some first_page) completed)
      (stall "inventory.read")
      (stall "inventory.read")
unfolding Endpoints.list_transactions list_page ◌>>=◌ page_of Endpoints.with_permission
    require_permission get_current_user access_payload UserRepository.get_by_id
    get_effective_permission_codes collect
list_transactions-Listed_example =
    list_transactions-Listed toys default_settings (some "access") unary every none 2
      (stall "inventory.read") refl
