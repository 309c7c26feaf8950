-- ===== src/Catalog/ImportTests.antt =====
-- The import of a file into the shop of Catalog/Tests.antt: a new product with two variants, and one
-- whose SKU is taken. backend/app/modules/products_catalog/service.py.
use retail_os.Catalog.Importing.{import_company_products-Imported, Imported}
use retail_os.Catalog.Tests.{store}
use retail_os.Csv.Tests.{file}
use retail_os.Prelude.{refl, [], ◌∷◌, ◌≡◌, List}
use retail_os.Core.Decimal.{fits_numeric}
use retail_os.Core.Session.{ok, ◌>>=◌}
use retail_os.Csv.Wire.{read_rows}
use retail_os.Csv.Values.{parse_bool}
use retail_os.Csv.Numbers.{int_of, decimal_of}
use retail_os.Csv.Groups.{
  parse_products_csv, ProductImportGroup, cell, parse_optional_int, parse_optional_decimal,
  parse_decimal, parse_group, parse_variant, parse_row, parse_rows, parse_table,
}
use retail_os.Catalog.Creation.{
  create_product, create_variants, create_variant, check_category, check_brand,
}
use retail_os.Catalog.ProductCsvService.{
  is_valid_variant, is_valid_group, parse_gender, resolve_unit, resolve_brand_id,
  resolve_category_id, import_one_group, nested, import_group, import_groups,
  import_company_products, created, skipped,
}
use retail_os.Catalog.CategoryRepository
use retail_os.Catalog.UnitRepository
use retail_os.Catalog.UnitService
use retail_os.Catalog.ProductRepository
use retail_os.Catalog.ProductVariantRepository

import_company_products-Imported_example :
    (groups : List ProductImportGroup) × (parse_products_csv file (store "products.import")
      ≡ (ok groups, store "products.import"))
    × Imported groups
        (store "products.import")
        (created "CAP" ∷ skipped "SHIRT" "A product with this SKU already exists" ∷ [])
        (import_company_products 1 file (store "products.import")).1
unfolding import_company_products import_groups import_group nested import_one_group
    resolve_category_id resolve_brand_id resolve_unit parse_gender is_valid_group is_valid_variant
    parse_table parse_rows parse_row parse_variant parse_group parse_decimal parse_optional_decimal
    parse_optional_int cell decimal_of int_of parse_bool read_rows ◌>>=◌ create_product
    create_variants create_variant check_category check_brand
    UnitService.ensure_available_for_company UnitService.get UnitRepository.get_by_id
    UnitRepository.list_available_for_company ProductRepository.get_by_sku ProductRepository.create
    ProductVariantRepository.get_by_sku ProductVariantRepository.create CategoryRepository.get_by_id
    fits_numeric
import_company_products-Imported_example =
    import_company_products-Imported 1 file (store "products.import")
      {s' = (import_company_products 1 file (store "products.import")).1} refl
