-- ===== src/Catalog/ProductVariantRepository.antt =====
-- `ProductVariantRepository` of backend/app/modules/products_catalog/repository.py.
use retail_os.Core.Decimal.{fits_nullable, fits_numeric}
use retail_os.Prelude.{
  not, ℕ, String, Bool, Option, List, [], ◌∷◌, ◌++◌, ◌&&◌, ◌==◌, is_none, str_eq, text_le,
}
use retail_os.Prelude.Rows.{select_one, select_all, any, order_by}
use retail_os.Core.Session.{M, gets, raise_if, modify_db, ◌>>=◌, ◌>>◌}
use retail_os.Core.Exceptions.{data_error, integrity_error}
use retail_os.Catalog.Models.{ProductVariant}

abbrev pub is_variant : ℕ → ℕ → ProductVariant → Bool
is_variant company_id variant_id v =
    v.id == variant_id && (v.company_id == company_id && is_none v.deleted_at)

unfoldable pub get_by_id : ℕ → ℕ → M (Option ProductVariant)
get_by_id company_id variant_id =
    gets λ s. select_one (is_variant company_id variant_id) s.db.product_variants

abbrev pub has_sku : ℕ → String → ProductVariant → Bool
has_sku company_id sku v = v.company_id == company_id && (str_eq v.sku sku && is_none v.deleted_at)

unfoldable pub get_by_sku : ℕ → String → M (Option ProductVariant)
get_by_sku company_id sku = gets λ s. select_one (has_sku company_id sku) s.db.product_variants

unfoldable pub list_for_product : ℕ → ℕ → M (List ProductVariant)
list_for_product company_id product_id = gets λ s.
    order_by (λ x y. text_le x.sku y.sku)
      (select_all
        (λ v. v.company_id == company_id && (v.product_id == product_id && is_none v.deleted_at))
        s.db.product_variants)

-- The unique constraint on `(company_id, sku)` counts deleted rows too.
abbrev pub is_taken : ℕ → String → ProductVariant → Bool
is_taken company_id sku v = v.company_id == company_id && str_eq v.sku sku

-- the prices in their columns
abbrev pub fits_prices : ProductVariant → Bool
fits_prices v =
    fits_numeric 12 2 v.purchase_price
    && (fits_numeric 12 2 v.selling_price && fits_nullable 12 2 v.mrp)

unfoldable pub create : ProductVariant → M (Unit {0})
unfolding ◌>>=◌
create variant = do
  raise_if (not (fits_prices variant)) data_error
  raise_if (← gets λ s. any (is_taken variant.company_id variant.sku) s.db.product_variants)
      integrity_error
  modify_db λ db. record db { product_variants = db.product_variants ++ variant ∷ [] }
