-- ===== src/Catalog/ProductService.antt =====
-- `ProductService` of backend/app/modules/products_catalog/service.py. Its `create` and what it
-- calls stand in Catalog/Creation.antt, its `update` in Catalog/Changes.antt.
use retail_os.Core.Exceptions.{not_found_exception}
use retail_os.Catalog.Models.{ProductVariant, Product}
use retail_os.Catalog.ProductRepository.{is_product}
use retail_os.Prelude.{List, Option, Bool, String, ℕ}
use retail_os.Core.Session.{pure, or_raise, M, ◌>>=◌}
use retail_os.Catalog.ProductRepository
use retail_os.Catalog.ProductVariantRepository

unfoldable pub get : ℕ → ℕ → M Product
unfolding ◌>>=◌ ProductRepository.get_by_id
get company_id product_id = do
  or_raise (← ProductRepository.get_by_id company_id product_id)
      (not_found_exception "Product not found")

unfoldable pub get_with_variants : ℕ → ℕ → M (Product × List ProductVariant)
get_with_variants company_id product_id = do
  product ← get company_id product_id
  variants ← ProductVariantRepository.list_for_product company_id product_id
  pure (product, variants)

abbrev pub list_for_company :
    (String → String → Bool) → ℕ → Option String → Option ℕ → M (List Product)
list_for_company matches company_id search category_id =
    ProductRepository.list_for_company matches company_id search category_id
