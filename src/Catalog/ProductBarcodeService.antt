-- ===== src/Catalog/ProductBarcodeService.antt =====
-- `ProductBarcodeService` of backend/app/modules/products_catalog/service.py.
use retail_os.Core.Exceptions.{field_exception, not_found_exception}
use retail_os.Prelude.Rows.{update_where}
use retail_os.Catalog.Schemas.{ProductBarcodeCreate}
use retail_os.Core.Session.{pure, uuid4, for_each, raise_if, ◌>>◌, modify_db, ◌>>=◌, when, M}
use retail_os.Catalog.Models.{ProductBarcode}
use retail_os.Prelude.{[], ◌∷◌, concat, not, false, is_none, ◌==◌, none, List, ℕ}
use retail_os.Catalog.ProductVariantRepository
use retail_os.Catalog.ProductBarcodeRepository

abbrev pub list_for_variant : ℕ → ℕ → M (List ProductBarcode)
list_for_variant company_id variant_id =
    ProductBarcodeRepository.list_for_variant company_id variant_id

-- `if existing_barcode.is_primary: existing_barcode.is_primary = False`
abbrev pub clear_primary : ProductBarcode → M (Unit {0})
clear_primary existing = when existing.is_primary (
    modify_db λ db. record db {
      product_barcodes =
          update_where (λ b. b.id == existing.id) (λ b. record b { is_primary = false })
            db.product_barcodes;
    })

abbrev pub new_barcode : ℕ → ℕ → ℕ → ProductBarcodeCreate → ProductBarcode
new_barcode id company_id variant_id r = record {
  id = id;
  company_id = company_id;
  product_variant_id = variant_id;
  barcode = r.barcode;
  barcode_type = r.barcode_type;
  is_primary = r.is_primary;
  deleted_at = none;
}

unfoldable pub add_barcode : ℕ → ℕ → ProductBarcodeCreate → M ProductBarcode
add_barcode company_id variant_id request = do
  found ← ProductVariantRepository.get_by_id company_id variant_id
  raise_if (is_none found) (not_found_exception "Product variant not found")
  taken ← ProductBarcodeRepository.get_by_barcode company_id request.barcode
  raise_if (not (is_none taken))
      (field_exception (concat ("Barcode '" ∷ request.barcode ∷ "' already exists" ∷ [])) "barcode")
  existing ← ProductBarcodeRepository.list_for_variant company_id variant_id
  when request.is_primary (for_each clear_primary existing)
  id ← uuid4
  ProductBarcodeRepository.create (new_barcode id company_id variant_id request)
  pure (new_barcode id company_id variant_id request)
