-- ===== src/Catalog/BrandRepository.antt =====
-- `BrandRepository` of backend/app/modules/products_catalog/repository.py. Names are ordered by their
-- bytes.
use retail_os.Core.Exceptions.{integrity_error}
use retail_os.Prelude.Rows.{select_all, any, order_by, select_one}
use retail_os.Catalog.Models.{Brand}
use retail_os.Prelude.{
  [], ◌∷◌, ◌++◌, str_eq, is_none, text_le, ◌&&◌, ◌==◌, Bool, String, List, Option, ℕ,
}
use retail_os.Core.Session.{modify_db, raise_if, ◌>>◌, gets, ◌>>=◌, M}

abbrev pub is_brand : ℕ → ℕ → Brand → Bool
is_brand company_id brand_id b =
    b.id == brand_id && (b.company_id == company_id && is_none b.deleted_at)

unfoldable pub get_by_id : ℕ → ℕ → M (Option Brand)
get_by_id company_id brand_id = gets λ s. select_one (is_brand company_id brand_id) s.db.brands

unfoldable pub list_for_company : ℕ → M (List Brand)
list_for_company company_id = gets λ s.
    order_by (λ x y. text_le x.name y.name)
      (select_all (λ b. b.company_id == company_id && is_none b.deleted_at) s.db.brands)

abbrev pub has_name : ℕ → String → Brand → Bool
has_name company_id name b =
    b.company_id == company_id && (str_eq b.name name && is_none b.deleted_at)

unfoldable pub get_by_name : ℕ → String → M (Option Brand)
get_by_name company_id name = gets λ s. select_one (has_name company_id name) s.db.brands

-- The unique constraint on `(company_id, name)` counts deleted rows too.
abbrev pub is_taken : ℕ → String → Brand → Bool
is_taken company_id name b = b.company_id == company_id && str_eq b.name name

unfoldable pub create : Brand → M (Unit {0})
unfolding ◌>>=◌
create brand = do
  raise_if (← gets λ s. any (is_taken brand.company_id brand.name) s.db.brands) integrity_error
  modify_db λ db. record db { brands = db.brands ++ brand ∷ [] }
