-- ===== src/Inventory/ReadingTests.antt =====
-- The shop of Inventory/Tests.antt with one balance and its ledger, on which the reads of
-- backend/app/modules/inventory/service.py are run.
use retail_os.Inventory.Models.{stock_in}
use retail_os.Inventory.Operations.{movement}
use retail_os.Inventory.Service.{ledger_row, get_variant_and_product}
use retail_os.Inventory.Balance.{IsBalanced}
use retail_os.Prelude.{refl, some, [], ◌∷◌, arith}
use retail_os.Inventory.Tests.{warehouse, of, shirt_variant, shirt, level, shop}
use retail_os.Inventory.Reads.{get_stock_level}
use retail_os.Prelude.Int.{pos, ◌+ℤ◌}
use retail_os.Inventory.Reading.{get_stock_level-shows, IsShown, HasUniqueKeys}
use retail_os.Core.Session.{◌>>=◌, Session}
use retail_os.Inventory.StockLevelRepository

abbrev counted : Session
counted = record shop {
  db = record (shop.db) {
    stock_levels = level 30 10 ∷ [];
    stock_transactions =
        ledger_row (movement (of 8) (warehouse 10 "Main") shirt_variant stock_in) (pos 8) (pos 8) 40
          900
        ∷ [];
  };
}

counted-HasUniqueKeys : HasUniqueKeys counted.db
counted-HasUniqueKeys k = ground arith

counted-IsBalanced : IsBalanced counted.db
unfolding ◌+ℤ◌
counted-IsBalanced k = ground arith

get_stock_level-shows_example :
    IsShown 1 21 10 counted
      (record {
        warehouse_id = some 10;
        product = shirt;
        variant = shirt_variant;
        quantity = pos 8;
      })
      counted
unfolding get_stock_level get_variant_and_product StockLevelRepository.list_for_variant_ids ◌>>=◌
    ◌+ℤ◌
get_stock_level-shows_example =
    get_stock_level-shows 1 21 10 counted counted-HasUniqueKeys counted-IsBalanced refl
