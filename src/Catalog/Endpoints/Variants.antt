-- ===== src/Catalog/Endpoints/Variants.antt =====
-- backend/app/modules/products_catalog/api.py: the endpoints on variants, barcodes and images.
use retail_os.Catalog.Endpoints.{guarded}
use retail_os.Catalog.Views.{
  read_image, read_barcode, read_variant, ProductImageRead, ProductBarcodeRead, ProductVariantRead,
}
use retail_os.Catalog.Schemas.{
  ProductImageCreate, ProductBarcodeCreate, ProductVariantUpdate, ProductVariantInput,
}
use retail_os.Core.Envelope.{completed, success_envelope, SuccessEnvelope}
use retail_os.Core.Session.{pure, ◌>>=◌, M}
use retail_os.Prelude.{map, some, List, ℕ, String, Option}
use retail_os.Core.Config.{Settings}
use retail_os.Core.Security.{Libraries}
use retail_os.Catalog.ProductVariantService
use retail_os.Catalog.ProductBarcodeService
use retail_os.Catalog.ProductImageService

module _ (libs : Libraries) (settings : Settings) (credentials : Option String) where
  abbrev Endpoint : Type 0 → Type 0
  Endpoint A = M (SuccessEnvelope A)

  unfoldable pub list_product_variants : ℕ → Endpoint (List ProductVariantRead)
  list_product_variants product_id = guarded "products.read" libs settings credentials λ company_id.
      ProductVariantService.list_for_product company_id product_id >>= λ xs.
      pure (success_envelope (some (map read_variant xs)) completed)

  unfoldable pub add_product_variant : ℕ → ProductVariantInput → Endpoint (ProductVariantRead)
  add_product_variant product_id request =
      guarded "products.update" libs settings credentials λ company_id.
        ProductVariantService.add_variant company_id product_id request >>= λ x.
        pure (success_envelope (some (read_variant x)) "Variant added")

  unfoldable pub update_product_variant :
      ℕ → ProductVariantUpdate → ℕ → Endpoint (ProductVariantRead)
  update_product_variant variant_id request expected_version =
      guarded "products.update" libs settings credentials λ company_id.
        ProductVariantService.update company_id variant_id request expected_version >>= λ x.
        pure (success_envelope (some (read_variant x)) "Variant updated")

  unfoldable pub list_variant_barcodes : ℕ → Endpoint (List ProductBarcodeRead)
  list_variant_barcodes variant_id = guarded "products.read" libs settings credentials λ company_id.
      ProductBarcodeService.list_for_variant company_id variant_id >>= λ xs.
      pure (success_envelope (some (map read_barcode xs)) completed)

  unfoldable pub add_variant_barcode : ℕ → ProductBarcodeCreate → Endpoint (ProductBarcodeRead)
  add_variant_barcode variant_id request =
      guarded "products.update" libs settings credentials λ company_id.
        ProductBarcodeService.add_barcode company_id variant_id request >>= λ x.
        pure (success_envelope (some (read_barcode x)) "Barcode added")

  unfoldable pub list_product_images : ℕ → Endpoint (List ProductImageRead)
  list_product_images product_id = guarded "products.read" libs settings credentials λ company_id.
      ProductImageService.list_for_product company_id product_id >>= λ xs.
      pure (success_envelope (some (map read_image xs)) completed)

  unfoldable pub add_product_image : ℕ → ProductImageCreate → Endpoint (ProductImageRead)
  add_product_image product_id request =
      guarded "products.update" libs settings credentials λ company_id.
        ProductImageService.add_image company_id product_id request >>= λ x.
        pure (success_envelope (some (read_image x)) "Image added")
