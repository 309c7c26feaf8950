-- ===== src/Catalog/CategoryRepository.antt =====
-- `CategoryRepository` of backend/app/modules/products_catalog/repository.py. Texts are ordered by
-- their bytes.
use retail_os.Core.Exceptions.{integrity_error, data_error}
use retail_os.Prelude.Int.{leb_ℤ, in_int32, ltb_ℤ}
use retail_os.Prelude.Rows.{any, select_all, order_by, select_one}
use retail_os.Catalog.Models.{Category}
use retail_os.Prelude.{
  [], ◌∷◌, ◌++◌, text_le, str_eq, ◌||◌, is_none, not, ◌&&◌, ◌==◌, String, List, Option, Bool, ℕ,
}
use retail_os.Core.Session.{modify_db, raise_if, gets, ◌>>◌, ◌>>=◌, M}

abbrev pub is_category : ℕ → ℕ → Category → Bool
is_category company_id category_id c =
    c.id == category_id && (c.company_id == company_id && is_none c.deleted_at)

unfoldable pub get_by_id : ℕ → ℕ → M (Option Category)
get_by_id company_id category_id =
    gets λ s. select_one (is_category company_id category_id) s.db.categories

-- ORDER BY display_order, name
abbrev pub before : Category → Category → Bool
before x y =
    ltb_ℤ x.display_order y.display_order
    || (leb_ℤ x.display_order y.display_order && text_le x.name y.name)

unfoldable pub list_for_company : ℕ → M (List Category)
list_for_company company_id = gets λ s.
    order_by before
      (select_all (λ c. c.company_id == company_id && is_none c.deleted_at) s.db.categories)

abbrev pub has_name : ℕ → String → Category → Bool
has_name company_id name c =
    c.company_id == company_id && (str_eq c.name name && is_none c.deleted_at)

unfoldable pub get_by_name : ℕ → String → M (Option Category)
get_by_name company_id name = gets λ s. select_one (has_name company_id name) s.db.categories

-- The unique constraint on `(company_id, name)` counts deleted rows too.
abbrev pub is_taken : ℕ → String → Category → Bool
is_taken company_id name c = c.company_id == company_id && str_eq c.name name

unfoldable pub create : Category → M (Unit {0})
unfolding ◌>>=◌
create category = do
  raise_if (not (in_int32 category.display_order)) data_error
  raise_if (← gets λ s. any (is_taken category.company_id category.name) s.db.categories)
      integrity_error
  modify_db λ db. record db { categories = db.categories ++ category ∷ [] }
