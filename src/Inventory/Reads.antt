-- ===== src/Inventory/Reads.antt =====
-- `get_stock_level`, `list_stock` and `list_low_stock` of `InventoryService`, in
-- backend/app/modules/inventory/service.py.
use retail_os.Inventory.Service.{get_variant_and_product}
use retail_os.Prelude.Rows.{select_all}
use retail_os.Catalog.Models.{ProductVariant, Product}
use retail_os.Core.Session.{pure, ◌>>=◌, M}
use retail_os.Inventory.Models.{StockLevel}
use retail_os.Catalog.ProductRepository.{is_product}
use retail_os.Prelude.Int.{◌+ℤ◌, leb_ℤ, pos, ℤ}
use retail_os.Prelude.{
  if◌then◌else◌, ◌++◌, [], true, map, ◌==◌, ◌∷◌, none, some, ◌&&◌, false, String, ℕ, List, Bool,
  Option,
}
use retail_os.Inventory.StockLevelRepository
use retail_os.Catalog.ProductRepository
use retail_os.Catalog.ProductVariantRepository

pub record StockLevelSummary : Type 0 where
  pub warehouse_id : Option ℕ
  pub product : Product
  pub variant : ProductVariant
  pub quantity : ℤ

abbrev pub below : ℤ → Option ℤ → Bool
below quantity none = false
below quantity (some threshold) = leb_ℤ quantity threshold

abbrev pub is_low_stock : StockLevelSummary → Bool
is_low_stock x = x.product.track_inventory && below x.quantity x.product.low_stock_threshold

-- `sum(level.quantity for level in levels)`
abbrev pub total : List StockLevel → ℤ
total [] = pos 0
total (l ∷ levels) = l.quantity +ℤ total levels

unfoldable pub get_stock_level : ℕ → ℕ → Option ℕ → M StockLevelSummary
get_stock_level company_id product_variant_id warehouse_id = do
  (variant, product) ← get_variant_and_product company_id product_variant_id
  levels ←
      StockLevelRepository.list_for_variant_ids company_id (product_variant_id ∷ []) warehouse_id
  pure (record {
    warehouse_id = warehouse_id;
    product = product;
    variant = variant;
    quantity = total levels;
  })

-- `variants_by_id` and `products_by_variant_id`, in the order of insertion. A variant has one
-- product, so that no key is met twice.
unfoldable pub variants_of : ℕ → List Product → M (List (ProductVariant × Product))
variants_of company_id [] = pure []
variants_of company_id (product ∷ products) = do
  variants ← ProductVariantRepository.list_for_product company_id product.id
  rest ← variants_of company_id products
  pure (map (λ variant. (variant, product)) variants ++ rest)

-- `quantity_by_variant_id.get(variant_id, 0)`
abbrev pub quantity_by_variant_id : List StockLevel → ℕ → ℤ
quantity_by_variant_id levels variant_id =
    total (select_all (λ l. l.product_variant_id == variant_id) levels)

abbrev pub summary : Option ℕ → List StockLevel → ProductVariant × Product → StockLevelSummary
summary warehouse_id levels (variant, product) = record {
  warehouse_id = warehouse_id;
  product = product;
  variant = variant;
  quantity = quantity_by_variant_id levels variant.id;
}

-- `matches` is PostgreSQL's ILIKE, as in `ProductRepository`.
module _ (matches : String → String → Bool) where
  unfoldable pub list_stock :
      ℕ → Option ℕ → Option String → Option ℕ → Bool → M (List StockLevelSummary)
  list_stock company_id warehouse_id search category_id low_stock_only = do
    products ← ProductRepository.list_for_company matches company_id search category_id
    variants ← variants_of company_id products
    levels ←
        StockLevelRepository.list_for_variant_ids company_id (map (λ v. v.0.id) variants)
          warehouse_id
    let summaries = map (summary warehouse_id levels) variants
    pure (if low_stock_only then select_all is_low_stock summaries else summaries)

  abbrev pub list_low_stock : ℕ → Option ℕ → M (List StockLevelSummary)
  list_low_stock company_id warehouse_id = list_stock company_id warehouse_id none none true
