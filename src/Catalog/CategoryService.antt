-- ===== src/Catalog/CategoryService.antt =====
-- `CategoryService` of backend/app/modules/products_catalog/service.py.
use retail_os.Core.Versioned.{versioned_update}
use retail_os.Prelude.Int.{in_int32}
use retail_os.Prelude.Rows.{any}
use retail_os.Core.Exceptions.{conflict_exception, data_error, field_exception, not_found_exception}
use retail_os.Prelude.Fields.{set, set_required, given, is_null, is_set}
use retail_os.Catalog.Models.{Category}
use retail_os.Core.Db.{Db}
use retail_os.Catalog.CategoryRepository.{is_category}
use retail_os.Catalog.Schemas.{CategoryCreate, CategoryUpdate}
use retail_os.Prelude.{
  [], ◌∷◌, concat, is_id, ◌+◌, is_none, ◌&&◌, not, if◌then◌else◌, ◌==◌, none, false, ◌||◌, some,
  true, String, List, Bool, Option, ℕ,
}
use retail_os.Core.Session.{uuid4, raise_if, ◌>>◌, or_raise, pure, M, ◌>>=◌}
use retail_os.Catalog.CategoryRepository

unfoldable pub get : ℕ → ℕ → M Category
unfolding ◌>>=◌ CategoryRepository.get_by_id
get company_id category_id = do
  or_raise (← CategoryRepository.get_by_id company_id category_id)
      (not_found_exception "Category not found")

abbrev pub list_for_company : ℕ → M (List Category)
list_for_company company_id = CategoryRepository.list_for_company company_id

abbrev pub new_category : ℕ → ℕ → CategoryCreate → Category
new_category id company_id r = record {
  id = id;
  company_id = company_id;
  name = r.name;
  parent_category_id = r.parent_category_id;
  description = r.description;
  image_url = r.image_url;
  display_order = r.display_order;
  is_active = true;
  deleted_at = none;
  version = 1;
}

-- `if parent_category_id is not None: await self.get(...)`
unfoldable pub check_parent : ℕ → Option ℕ → M (Unit {0})
unfolding ◌>>=◌ get CategoryRepository.get_by_id
check_parent company_id none = pure tt
check_parent company_id (some parent_id) = get company_id parent_id >> pure tt

unfoldable pub create : ℕ → CategoryCreate → M Category
create company_id request = do
  taken ← CategoryRepository.get_by_name company_id request.name
  raise_if (not (is_none taken))
      (field_exception (concat ("Category '" ∷ request.name ∷ "' already exists" ∷ [])) "name")
  check_parent company_id request.parent_category_id
  id ← uuid4
  CategoryRepository.create (new_category id company_id request)
  pure (new_category id company_id request)

abbrev pub has_changes : CategoryUpdate → Bool
has_changes r =
    is_set r.name
    || is_set r.parent_category_id
    || is_set r.description
    || is_set r.image_url
    || is_set r.display_order
    || is_set r.is_active

abbrev pub apply_changes : CategoryUpdate → Category → Category
apply_changes r c = record c {
  name = set_required r.name c.name;
  parent_category_id = set r.parent_category_id c.parent_category_id;
  description = set r.description c.description;
  image_url = set r.image_url c.image_url;
  display_order = set_required r.display_order c.display_order;
  is_active = set_required r.is_active c.is_active;
  version = c.version + 1;
}

-- the name that the request gives is another row's
abbrev pub name_taken : ℕ → ℕ → Option String → Db → Bool
name_taken company_id category_id none db = false
name_taken company_id category_id (some name) db =
    any (λ c. not (c.id == category_id) && CategoryRepository.is_taken company_id name c)
      db.categories

abbrev pub violates : ℕ → ℕ → CategoryUpdate → Db → Bool
violates company_id category_id r db =
    is_null r.name
    || is_null r.display_order
    || is_null r.is_active
    || name_taken company_id category_id (given r.name) db

abbrev pub out_of_range : CategoryUpdate → Bool
out_of_range r = elim (given r.display_order) [ none ↦ false | some n ↦ not (in_int32 n) ]

abbrev pub is_version : ℕ → ℕ → ℕ → Category → Bool
is_version company_id category_id expected_version c =
    c.id == category_id && (c.company_id == company_id && c.version == expected_version)

unfoldable pub update : ℕ → ℕ → CategoryUpdate → ℕ → M Category
update company_id category_id request expected_version =
    if has_changes request
    then raise_if (is_id (given request.parent_category_id) category_id)
        (field_exception "A category cannot be its own parent" "parent_category_id")
      >> (check_parent company_id (given request.parent_category_id)
          >> (raise_if (out_of_range request) data_error
              >> versioned_update (λ db. db.categories)
                  (λ categories db. record db { categories = categories })
                  (is_version company_id category_id expected_version) (apply_changes request)
                  (violates company_id category_id request)
                  (CategoryRepository.get_by_id company_id category_id)
                  (not_found_exception "Category not found")
                  (conflict_exception
                    "Category was modified by someone else. Reload and try again.")))
    else get company_id category_id
