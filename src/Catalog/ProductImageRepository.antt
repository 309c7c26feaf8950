-- ===== src/Catalog/ProductImageRepository.antt =====
-- `ProductImageRepository` of backend/app/modules/products_catalog/repository.py.
use retail_os.Core.Exceptions.{data_error}
use retail_os.Prelude.Int.{in_int32, leb_ℤ}
use retail_os.Prelude.Rows.{select_all, order_by}
use retail_os.Catalog.Models.{ProductImage}
use retail_os.Prelude.{[], ◌∷◌, ◌++◌, not, ◌&&◌, ◌==◌, Bool, List, ℕ}
use retail_os.Core.Session.{modify_db, raise_if, ◌>>◌, gets, ◌>>=◌, M}

abbrev pub is_of_product : ℕ → ℕ → ProductImage → Bool
is_of_product company_id product_id i = i.company_id == company_id && i.product_id == product_id

unfoldable pub list_for_product : ℕ → ℕ → M (List ProductImage)
list_for_product company_id product_id = gets λ s.
    order_by (λ x y. leb_ℤ x.display_order y.display_order)
      (select_all (is_of_product company_id product_id) s.db.product_images)

unfoldable pub create : ProductImage → M (Unit {0})
unfolding ◌>>=◌
create image = do
  raise_if (not (in_int32 image.display_order)) data_error
  modify_db λ db. record db { product_images = db.product_images ++ image ∷ [] }
