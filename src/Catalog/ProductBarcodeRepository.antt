-- ===== src/Catalog/ProductBarcodeRepository.antt =====
-- `ProductBarcodeRepository` of backend/app/modules/products_catalog/repository.py.
use retail_os.Core.Exceptions.{integrity_error}
use retail_os.Prelude.Rows.{any, select_all, select_one}
use retail_os.Catalog.Models.{ProductBarcode}
use retail_os.Prelude.{[], ◌∷◌, ◌++◌, is_none, str_eq, ◌&&◌, ◌==◌, Option, Bool, List, String, ℕ}
use retail_os.Core.Session.{modify_db, raise_if, ◌>>◌, gets, ◌>>=◌, M}

abbrev pub has_barcode : ℕ → String → ProductBarcode → Bool
has_barcode company_id barcode b =
    b.company_id == company_id && (str_eq b.barcode barcode && is_none b.deleted_at)

unfoldable pub get_by_barcode : ℕ → String → M (Option ProductBarcode)
get_by_barcode company_id barcode =
    gets λ s. select_one (has_barcode company_id barcode) s.db.product_barcodes

abbrev pub is_of_variant : ℕ → ℕ → ProductBarcode → Bool
is_of_variant company_id variant_id b =
    b.company_id == company_id && (b.product_variant_id == variant_id && is_none b.deleted_at)

unfoldable pub list_for_variant : ℕ → ℕ → M (List ProductBarcode)
list_for_variant company_id variant_id =
    gets λ s. select_all (is_of_variant company_id variant_id) s.db.product_barcodes

-- The unique constraint on `(company_id, barcode)` counts deleted rows too.
abbrev pub is_taken : ℕ → String → ProductBarcode → Bool
is_taken company_id barcode b = b.company_id == company_id && str_eq b.barcode barcode

unfoldable pub create : ProductBarcode → M (Unit {0})
unfolding ◌>>=◌
create barcode = do
  raise_if (← gets λ s. any (is_taken barcode.company_id barcode.barcode) s.db.product_barcodes)
      integrity_error
  modify_db λ db. record db { product_barcodes = db.product_barcodes ++ barcode ∷ [] }
