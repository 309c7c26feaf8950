-- ===== src/Catalog/Endpoints/Products.antt =====
-- backend/app/modules/products_catalog/api.py: the endpoints on products, but for the import and the
-- export of files.
use retail_os.Catalog.Endpoints.{guarded}
use retail_os.Core.Envelope.{completed, success_envelope, SuccessEnvelope}
use retail_os.Core.Session.{pure, ◌>>=◌, M}
use retail_os.Catalog.Views.{read_variant, ProductRead, read_product, ProductWithVariantsRead}
use retail_os.Core.Config.{Settings}
use retail_os.Prelude.{map, ℕ, Bool, String, false, Option, some, none, List}
use retail_os.Core.Security.{Libraries}
use retail_os.Catalog.Schemas.{ProductCreate, ProductUpdate}
use retail_os.Catalog.Models.{ProductVariant, Product}
use retail_os.Catalog.ProductService
use retail_os.Catalog.Creation
use retail_os.Catalog.Changes

abbrev read_with_variants : Product × List ProductVariant → ProductWithVariantsRead
read_with_variants x = record { product = read_product x.0; variants = map read_variant x.1 }

-- `ProductUpdate(is_active=False)`
abbrev pub disabling : ProductUpdate
disabling = record {
  name = none;
  description = none;
  category_id = none;
  brand_id = none;
  gender = none;
  season = none;
  age_group = none;
  hsn_code = none;
  tax_percent = none;
  track_inventory = none;
  allow_negative_stock = none;
  low_stock_threshold = none;
  is_active = some (some false);
}

module _ (libs : Libraries) (settings : Settings) (credentials : Option String) where
  abbrev Endpoint : Type 0 → Type 0
  Endpoint A = M (SuccessEnvelope A)

  unfoldable pub list_products :
      (String → String → Bool) → Option String → Option ℕ → Endpoint (List ProductRead)
  list_products matches search category_id =
      guarded "products.read" libs settings credentials λ company_id.
        ProductService.list_for_company matches company_id search category_id >>= λ xs.
        pure (success_envelope (some (map read_product xs)) completed)

  unfoldable pub create_product : ProductCreate → Endpoint (ProductWithVariantsRead)
  create_product request = guarded "products.create" libs settings credentials λ company_id.
      Creation.create_product company_id request >>= λ x.
      pure (success_envelope (some (read_with_variants x)) "Product created")

  unfoldable pub get_product : ℕ → Endpoint (ProductWithVariantsRead)
  get_product product_id = guarded "products.read" libs settings credentials λ company_id.
      ProductService.get_with_variants company_id product_id >>= λ x.
      pure (success_envelope (some (read_with_variants x)) completed)

  unfoldable pub update_product : ℕ → ProductUpdate → ℕ → Endpoint (ProductRead)
  update_product product_id request expected_version =
      guarded "products.update" libs settings credentials λ company_id.
        Changes.update_product company_id product_id request expected_version >>= λ x.
        pure (success_envelope (some (read_product x)) "Product updated")

  unfoldable pub disable_product : ℕ → ℕ → Endpoint (Unit {0})
  disable_product product_id expected_version =
      guarded "products.delete" libs settings credentials λ company_id.
        Changes.update_product company_id product_id disabling expected_version >>= λ _.
        pure (success_envelope none "Product disabled")
