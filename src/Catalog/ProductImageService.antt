-- ===== src/Catalog/ProductImageService.antt =====
-- `ProductImageService` of backend/app/modules/products_catalog/service.py.
use retail_os.Core.Exceptions.{not_found_exception}
use retail_os.Prelude.Rows.{update_where}
use retail_os.Catalog.Schemas.{ProductImageCreate}
use retail_os.Core.Session.{pure, uuid4, for_each, raise_if, ◌>>◌, modify_db, ◌>>=◌, when, M}
use retail_os.Catalog.Models.{ProductImage}
use retail_os.Prelude.{false, is_none, ◌==◌, List, ℕ}
use retail_os.Catalog.ProductRepository
use retail_os.Catalog.ProductImageRepository

abbrev pub list_for_product : ℕ → ℕ → M (List ProductImage)
list_for_product company_id product_id =
    ProductImageRepository.list_for_product company_id product_id

-- `if existing_image.is_primary: existing_image.is_primary = False`
abbrev pub clear_primary : ProductImage → M (Unit {0})
clear_primary existing = when existing.is_primary (
    modify_db λ db. record db {
      product_images =
          update_where (λ i. i.id == existing.id) (λ i. record i { is_primary = false })
            db.product_images;
    })

abbrev pub new_image : ℕ → ℕ → ℕ → ProductImageCreate → ProductImage
new_image id company_id product_id r = record {
  id = id;
  company_id = company_id;
  product_id = product_id;
  image_url = r.image_url;
  display_order = r.display_order;
  is_primary = r.is_primary;
}

unfoldable pub add_image : ℕ → ℕ → ProductImageCreate → M ProductImage
add_image company_id product_id request = do
  found ← ProductRepository.get_by_id company_id product_id
  raise_if (is_none found) (not_found_exception "Product not found")
  existing ← ProductImageRepository.list_for_product company_id product_id
  when request.is_primary (for_each clear_primary existing)
  id ← uuid4
  ProductImageRepository.create (new_image id company_id product_id request)
  pure (new_image id company_id product_id request)
