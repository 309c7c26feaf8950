-- ===== src/Catalog/BrandService.antt =====
-- `BrandService` of backend/app/modules/products_catalog/service.py.
use retail_os.Prelude.Rows.{any}
use retail_os.Core.Versioned.{versioned_update}
use retail_os.Core.Exceptions.{field_exception, conflict_exception, not_found_exception}
use retail_os.Prelude.Fields.{given, set, is_null, set_required, is_set}
use retail_os.Core.Db.{Db}
use retail_os.Catalog.Models.{Brand}
use retail_os.Catalog.Schemas.{BrandCreate, BrandUpdate}
use retail_os.Prelude.{
  [], ◌∷◌, concat, is_none, some, ◌+◌, not, ◌&&◌, false, ◌||◌, none, if◌then◌else◌, ◌==◌, String,
  true, List, Option, Bool, ℕ,
}
use retail_os.Core.Session.{pure, uuid4, raise_if, ◌>>◌, or_raise, M, ◌>>=◌}
use retail_os.Catalog.BrandRepository

unfoldable pub get : ℕ → ℕ → M Brand
unfolding ◌>>=◌ BrandRepository.get_by_id
get company_id brand_id = do
  or_raise (← BrandRepository.get_by_id company_id brand_id) (not_found_exception "Brand not found")

abbrev pub list_for_company : ℕ → M (List Brand)
list_for_company company_id = BrandRepository.list_for_company company_id

abbrev pub new_brand : ℕ → ℕ → BrandCreate → Brand
new_brand id company_id r = record {
  id = id;
  company_id = company_id;
  name = r.name;
  logo_url = r.logo_url;
  description = r.description;
  is_active = true;
  deleted_at = none;
  version = 1;
}

unfoldable pub create : ℕ → BrandCreate → M Brand
create company_id request = do
  taken ← BrandRepository.get_by_name company_id request.name
  raise_if (not (is_none taken))
      (field_exception (concat ("Brand '" ∷ request.name ∷ "' already exists" ∷ [])) "name")
  id ← uuid4
  BrandRepository.create (new_brand id company_id request)
  pure (new_brand id company_id request)

abbrev pub has_changes : BrandUpdate → Bool
has_changes r = is_set r.name || is_set r.logo_url || is_set r.description || is_set r.is_active

abbrev pub apply_changes : BrandUpdate → Brand → Brand
apply_changes r b = record b {
  name = set_required r.name b.name;
  logo_url = set r.logo_url b.logo_url;
  description = set r.description b.description;
  is_active = set_required r.is_active b.is_active;
  version = b.version + 1;
}

-- the name that the request gives is another row's
abbrev pub name_taken : ℕ → ℕ → Option String → Db → Bool
name_taken company_id brand_id none db = false
name_taken company_id brand_id (some name) db =
    any (λ b. not (b.id == brand_id) && BrandRepository.is_taken company_id name b) db.brands

abbrev pub violates : ℕ → ℕ → BrandUpdate → Db → Bool
violates company_id brand_id r db =
    is_null r.name || is_null r.is_active || name_taken company_id brand_id (given r.name) db

abbrev pub is_version : ℕ → ℕ → ℕ → Brand → Bool
is_version company_id brand_id expected_version b =
    b.id == brand_id && (b.company_id == company_id && b.version == expected_version)

unfoldable pub update : ℕ → ℕ → BrandUpdate → ℕ → M Brand
update company_id brand_id request expected_version =
    if has_changes request
    then versioned_update (λ db. db.brands) (λ brands db. record db { brands = brands })
        (is_version company_id brand_id expected_version) (apply_changes request)
        (violates company_id brand_id request) (BrandRepository.get_by_id company_id brand_id)
        (not_found_exception "Brand not found")
        (conflict_exception "Brand was modified by someone else. Reload and try again.")
    else get company_id brand_id
