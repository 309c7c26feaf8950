-- ===== src/Catalog/UnitRepository.antt =====
-- `UnitRepository` of backend/app/modules/products_catalog/repository.py. Names are ordered by their
-- bytes.
use retail_os.Core.Exceptions.{integrity_error}
use retail_os.Prelude.Rows.{select_all, any, order_by, select_one}
use retail_os.Catalog.Models.{ProductUnit}
use retail_os.Prelude.{
  [], ◌∷◌, ◌++◌, none, str_eq, is_id, some, text_le, ◌||◌, ◌&&◌, false, is_none, ◌==◌, Bool, String,
  List, Option, ℕ,
}
use retail_os.Core.Session.{modify_db, raise_if, ◌>>◌, gets, ◌>>=◌, M}

abbrev pub is_unit : ℕ → ProductUnit → Bool
is_unit unit_id u = u.id == unit_id && is_none u.deleted_at

unfoldable pub get_by_id : ℕ → M (Option ProductUnit)
get_by_id unit_id = gets λ s. select_one (is_unit unit_id) s.db.units

abbrev pub is_available : ℕ → ProductUnit → Bool
is_available company_id u =
    (is_none u.company_id || is_id u.company_id company_id) && is_none u.deleted_at

unfoldable pub list_available_for_company : ℕ → M (List ProductUnit)
list_available_for_company company_id =
    gets
      λ s. order_by (λ x y. text_le x.name y.name) (select_all (is_available company_id) s.db.units)

-- The unique constraint on `(company_id, abbreviation)` counts deleted rows too, and takes no two
-- NULLs for equal.
abbrev pub is_taken : Option ℕ → String → ProductUnit → Bool
is_taken none abbreviation u = false
is_taken (some company_id) abbreviation u =
    is_id u.company_id company_id && str_eq u.abbreviation abbreviation

unfoldable pub create : ProductUnit → M (Unit {0})
unfolding ◌>>=◌
create unit = do
  raise_if (← gets λ s. any (is_taken unit.company_id unit.abbreviation) s.db.units) integrity_error
  modify_db λ db. record db { units = db.units ++ unit ∷ [] }
