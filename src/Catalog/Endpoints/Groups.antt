-- ===== src/Catalog/Endpoints/Groups.antt =====
-- backend/app/modules/products_catalog/api.py: the endpoints on categories, brands and units.
use retail_os.Catalog.Endpoints.{guarded}
use retail_os.Catalog.Views.{
  read_unit, read_brand, read_category, UnitRead, BrandRead, CategoryRead,
}
use retail_os.Core.Envelope.{completed, success_envelope, SuccessEnvelope}
use retail_os.Catalog.Schemas.{BrandUpdate, CategoryUpdate, UnitCreate, BrandCreate, CategoryCreate}
use retail_os.Core.Session.{pure, ◌>>=◌, M}
use retail_os.Prelude.{map, some, ℕ, List, String, Option}
use retail_os.Core.Config.{Settings}
use retail_os.Core.Security.{Libraries}
use retail_os.Catalog.CategoryService
use retail_os.Catalog.BrandService
use retail_os.Catalog.UnitService

module _ (libs : Libraries) (settings : Settings) (credentials : Option String) where
  abbrev Endpoint : Type 0 → Type 0
  Endpoint A = M (SuccessEnvelope A)

  unfoldable pub list_categories : Endpoint (List CategoryRead)
  list_categories = guarded "categories.read" libs settings credentials λ company_id.
      CategoryService.list_for_company company_id >>= λ xs.
      pure (success_envelope (some (map read_category xs)) completed)

  unfoldable pub create_category : CategoryCreate → Endpoint (CategoryRead)
  create_category request = guarded "categories.create" libs settings credentials λ company_id.
      CategoryService.create company_id request >>= λ x.
      pure (success_envelope (some (read_category x)) "Category created")

  unfoldable pub get_category : ℕ → Endpoint (CategoryRead)
  get_category category_id = guarded "categories.read" libs settings credentials λ company_id.
      CategoryService.get company_id category_id >>= λ x.
      pure (success_envelope (some (read_category x)) completed)

  unfoldable pub update_category : ℕ → CategoryUpdate → ℕ → Endpoint (CategoryRead)
  update_category category_id request expected_version =
      guarded "categories.update" libs settings credentials λ company_id.
        CategoryService.update company_id category_id request expected_version >>= λ x.
        pure (success_envelope (some (read_category x)) "Category updated")

  unfoldable pub list_brands : Endpoint (List BrandRead)
  list_brands = guarded "brands.read" libs settings credentials λ company_id.
      BrandService.list_for_company company_id >>= λ xs.
      pure (success_envelope (some (map read_brand xs)) completed)

  unfoldable pub create_brand : BrandCreate → Endpoint (BrandRead)
  create_brand request = guarded "brands.create" libs settings credentials λ company_id.
      BrandService.create company_id request >>= λ x.
      pure (success_envelope (some (read_brand x)) "Brand created")

  unfoldable pub get_brand : ℕ → Endpoint (BrandRead)
  get_brand brand_id = guarded "brands.read" libs settings credentials λ company_id.
      BrandService.get company_id brand_id >>= λ x.
      pure (success_envelope (some (read_brand x)) completed)

  unfoldable pub update_brand : ℕ → BrandUpdate → ℕ → Endpoint (BrandRead)
  update_brand brand_id request expected_version =
      guarded "brands.update" libs settings credentials λ company_id.
        BrandService.update company_id brand_id request expected_version >>= λ x.
        pure (success_envelope (some (read_brand x)) "Brand updated")

  unfoldable pub list_units : Endpoint (List UnitRead)
  list_units = guarded "units.read" libs settings credentials λ company_id.
      UnitService.list_available_for_company company_id >>= λ xs.
      pure (success_envelope (some (map read_unit xs)) completed)

  unfoldable pub create_unit : UnitCreate → Endpoint (UnitRead)
  create_unit request = guarded "units.create" libs settings credentials λ company_id.
      UnitService.create company_id request >>= λ x.
      pure (success_envelope (some (read_unit x)) "Unit created")
