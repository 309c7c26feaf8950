-- ===== src/Catalog/ProductCsvExport.antt =====
-- `export_company_products` of backend/app/modules/products_catalog/service.py.
use retail_os.Csv.Wire.{Text}
use retail_os.Csv.Export.{write_products_csv, ProductExportRow}
use retail_os.Core.Session.{◌>>=◌, pure, M}
use retail_os.Prelude.Rows.{select_one}
use retail_os.Catalog.Models.{
  men, women, kids, unisex, ProductVariant, Product, ProductGender, ProductUnit, Brand, Category,
}
use retail_os.Prelude.{[], ◌++◌, map, ◌∷◌, none, ◌==◌, some, Bool, String, ℕ, Option, List}
use retail_os.Catalog.CategoryRepository
use retail_os.Catalog.BrandRepository
use retail_os.Catalog.UnitRepository
use retail_os.Catalog.ProductRepository
use retail_os.Catalog.ProductVariantRepository

-- `categories.get(product.category_id) if product.category_id else None`
abbrev category_name : List Category → Option ℕ → Option String
category_name categories none = none
category_name categories (some id) = elim (select_one (λ c. c.id == id) categories) [
  | none ↦ none
  | some c ↦ some c.name
]

abbrev brand_name : List Brand → Option ℕ → Option String
brand_name brands none = none
brand_name brands (some id) = elim (select_one (λ b. b.id == id) brands) [
  | none ↦ none
  | some b ↦ some b.name
]

-- `units.get(product.base_unit_id, "")`
abbrev unit_name : List ProductUnit → ℕ → String
unit_name units id = elim (select_one (λ u. u.id == id) units) [
  | none ↦ ""
  | some u ↦ u.abbreviation
]

abbrev gender_value : Option ProductGender → Option String
gender_value none = none
gender_value (some men) = some "men"
gender_value (some women) = some "women"
gender_value (some kids) = some "kids"
gender_value (some unisex) = some "unisex"

abbrev export_row :
    List Category → List Brand → List ProductUnit → Product → ProductVariant → ProductExportRow
export_row categories brands units product variant = record {
  sku = product.sku;
  name = product.name;
  description = product.description;
  category = category_name categories product.category_id;
  brand = brand_name brands product.brand_id;
  unit = unit_name units product.base_unit_id;
  gender = gender_value product.gender;
  season = product.season;
  age_group = product.age_group;
  hsn_code = product.hsn_code;
  tax_percent = product.tax_percent;
  track_inventory = product.track_inventory;
  allow_negative_stock = product.allow_negative_stock;
  low_stock_threshold = product.low_stock_threshold;
  is_active = product.is_active;
  variant_sku = variant.sku;
  size = variant.size;
  color = variant.color;
  purchase_price = variant.purchase_price;
  selling_price = variant.selling_price;
  mrp = variant.mrp;
}

-- the loops over the products and their variants
unfoldable pub export_rows :
    ℕ → List Category → List Brand → List ProductUnit → List Product → M (List ProductExportRow)
export_rows company_id categories brands units [] = pure []
export_rows company_id categories brands units (product ∷ products) = do
  variants ← ProductVariantRepository.list_for_product company_id product.id
  rows ← export_rows company_id categories brands units products
  pure (map (export_row categories brands units product) variants ++ rows)

-- `matches` is the ILIKE of `ProductRepository`, which is not asked here.
unfoldable pub export_company_products : (String → String → Bool) → ℕ → M Text
export_company_products matches company_id = do
  products ← ProductRepository.list_for_company matches company_id none none
  categories ← CategoryRepository.list_for_company company_id
  brands ← BrandRepository.list_for_company company_id
  units ← UnitRepository.list_available_for_company company_id
  rows ← export_rows company_id categories brands units products
  pure (write_products_csv rows)
