-- ===== src/Catalog/ProductRepository.antt =====
-- `ProductRepository` of backend/app/modules/products_catalog/repository.py. `matches search text` is
-- PostgreSQL's `text ILIKE '%search%'`; names are ordered by their bytes.
use retail_os.Core.Decimal.{fits_nullable}
use retail_os.Prelude.Int.{in_int32, ℤ}
use retail_os.Prelude.{
  not, ℕ, String, Bool, true, Option, none, some, List, [], ◌∷◌, ◌++◌, ◌&&◌, ◌||◌, ◌==◌, is_none,
  is_id, str_eq, text_le,
}
use retail_os.Prelude.Rows.{select_one, select_all, any, order_by}
use retail_os.Core.Session.{M, gets, raise_if, modify_db, ◌>>=◌, ◌>>◌}
use retail_os.Core.Exceptions.{data_error, integrity_error}
use retail_os.Catalog.Models.{Product}

abbrev pub is_product : ℕ → ℕ → Product → Bool
is_product company_id product_id p =
    p.id == product_id && (p.company_id == company_id && is_none p.deleted_at)

unfoldable pub get_by_id : ℕ → ℕ → M (Option Product)
get_by_id company_id product_id =
    gets λ s. select_one (is_product company_id product_id) s.db.products

abbrev pub has_sku : ℕ → String → Product → Bool
has_sku company_id sku p = p.company_id == company_id && (str_eq p.sku sku && is_none p.deleted_at)

unfoldable pub get_by_sku : ℕ → String → M (Option Product)
get_by_sku company_id sku = gets λ s. select_one (has_sku company_id sku) s.db.products

module _ (matches : String → String → Bool) where
  -- `if search:`, which an empty text fails too
  abbrev pub found : Option String → Product → Bool
  found none p = true
  found (some search) p = str_eq search "" || (matches search p.name || matches search p.sku)

  abbrev pub in_category : Option ℕ → Product → Bool
  in_category none p = true
  in_category (some category_id) p = is_id p.category_id category_id

  unfoldable pub list_for_company : ℕ → Option String → Option ℕ → M (List Product)
  list_for_company company_id search category_id = gets λ s.
      order_by (λ x y. text_le x.name y.name)
        (select_all
          (λ p.
            p.company_id == company_id
            && (is_none p.deleted_at && (found search p && in_category category_id p)))
          s.db.products)

-- The unique constraint on `(company_id, sku)` counts deleted rows too.
abbrev pub is_taken : ℕ → String → Product → Bool
is_taken company_id sku p = p.company_id == company_id && str_eq p.sku sku

abbrev pub fits_threshold : Option ℤ → Bool
fits_threshold none = true
fits_threshold (some n) = in_int32 n

unfoldable pub create : Product → M (Unit {0})
unfolding ◌>>=◌
create product = do
  raise_if
      (not (fits_nullable 5 2 product.tax_percent && fits_threshold product.low_stock_threshold))
      data_error
  raise_if (← gets λ s. any (is_taken product.company_id product.sku) s.db.products) integrity_error
  modify_db λ db. record db { products = db.products ++ product ∷ [] }
