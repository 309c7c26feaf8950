-- ===== src/Catalog/UnitService.antt =====
-- `UnitService` of backend/app/modules/products_catalog/service.py.
use retail_os.Prelude.Rows.{any}
use retail_os.Core.Exceptions.{field_exception, not_found_exception}
use retail_os.Catalog.Models.{ProductUnit}
use retail_os.Catalog.Schemas.{UnitCreate}
use retail_os.Prelude.{
  [], ◌∷◌, is_id, concat, ◌&&◌, str_eq, is_none, none, not, false, Bool, some, List, ℕ,
}
use retail_os.Core.Session.{uuid4, pure, raise_if, ◌>>◌, or_raise, M, ◌>>=◌}
use retail_os.Catalog.UnitRepository

unfoldable pub get : ℕ → M ProductUnit
unfolding ◌>>=◌ UnitRepository.get_by_id
get unit_id = do
  or_raise (← UnitRepository.get_by_id unit_id) (not_found_exception "Unit not found")

abbrev pub list_available_for_company : ℕ → M (List ProductUnit)
list_available_for_company company_id = UnitRepository.list_available_for_company company_id

abbrev pub new_unit : ℕ → ℕ → UnitCreate → ProductUnit
new_unit id company_id r = record {
  id = id;
  company_id = some company_id;
  name = r.name;
  abbreviation = r.abbreviation;
  is_system = false;
  deleted_at = none;
  version = 1;
}

unfoldable pub create : ℕ → UnitCreate → M ProductUnit
create company_id request = do
  available ← UnitRepository.list_available_for_company company_id
  raise_if (any (λ u. str_eq u.abbreviation request.abbreviation) available) (
      field_exception
        (concat ("Unit abbreviation '" ∷ request.abbreviation ∷ "' is already in use" ∷ []))
        "abbreviation")
  id ← uuid4
  UnitRepository.create (new_unit id company_id request)
  pure (new_unit id company_id request)

-- another company's unit
abbrev pub is_foreign : ℕ → ProductUnit → Bool
is_foreign company_id u = not (is_none u.company_id) && not (is_id u.company_id company_id)

unfoldable pub ensure_available_for_company : ℕ → ℕ → M ProductUnit
unfolding ◌>>=◌ get UnitRepository.get_by_id
ensure_available_for_company company_id unit_id = do
  unit ← get unit_id
  raise_if (is_foreign company_id unit)
      (field_exception "Unit does not belong to this company" "base_unit_id")
  pure unit
