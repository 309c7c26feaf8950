-- ===== src/Catalog/Tests.antt =====
-- A shop with one product and one category, on which the theorems about the catalogue are run:
-- backend/app/modules/products_catalog/service.py.
use retail_os.Users.RbacService.{collect, get_effective_permission_codes}
use retail_os.Core.Security.{decode_token}
use retail_os.Auth.Dependencies.{access_payload, get_current_user, require_permission}
use retail_os.Catalog.Endpoints.{guarded}
use retail_os.Catalog.Upkeep.{serve_all-IsCatalog}
use retail_os.Catalog.Updates.{category_update-once, variant_update-once, product_update-once}
use retail_os.Catalog.Creating.{rows_from}
use retail_os.Core.Keeps.{IsCommitted}
use retail_os.Core.Refused.{Refused}
use retail_os.Catalog.UnitRepository
use retail_os.Catalog.CategoryRepository
use retail_os.Catalog.ProductVariantRepository
use retail_os.Catalog.ProductRepository
use retail_os.Catalog.UnitService
use retail_os.Prelude.Int.{pos}
use retail_os.Core.Config.{default_settings}
use retail_os.Core.Decimal.{fits_numeric, Decimal}
use retail_os.Core.Session.{start, ◌>>=◌, Session}
use retail_os.Catalog.Invariant.{IsCatalog}
use retail_os.Catalog.Serving.{perform-Permitted, Permitted}
use retail_os.Core.Versioned.{versioned_update}
use retail_os.Catalog.Creation.{
  check_brand, create_variant, check_category, name_variant, create_variants,
}
use retail_os.Catalog.Schemas.{
  CategoryUpdate, ProductVariantUpdate, ProductUpdate, ProductVariantInput, ProductCreate,
}
use retail_os.Prelude.{List, false, [], refl, true, ◌∷◌, arith, ◌≡◌, none, some, ℕ, String}
use retail_os.Catalog.Models.{Category, ProductUnit}
use retail_os.Catalog.Requests.{Request, Call, perform, permission, serve_all}
use retail_os.Auth.Tests.{toys}
use retail_os.Users.Models.{PermissionAction}
use retail_os.Users.Tests.{office}
use retail_os.Inventory.Tests.{shirt, shirt_variant}
use retail_os.Catalog.CategoryService
use retail_os.Catalog.ProductVariantService
use retail_os.Catalog.Creation
use retail_os.Catalog.Endpoints.Products
use retail_os.Users.UserRepository
use retail_os.Users.PermissionRepository
use retail_os.Catalog.Changes

abbrev pub piece : ProductUnit
piece = record {
  id = 3;
  company_id = none;
  name = "Piece";
  abbreviation = "pc";
  is_system = true;
  deleted_at = none;
  version = 1;
}

abbrev clothes : Category
clothes = record {
  id = 40;
  company_id = 1;
  name = "Clothes";
  parent_category_id = none;
  description = none;
  image_url = none;
  display_order = pos 0;
  is_active = true;
  deleted_at = none;
  version = 1;
}

-- Ann may do what the code stands for.
abbrev pub store : String → Session
store code = start 1000 100 (record (office.db) {
  permissions =
      record {
        id = 8;
        code = code;
        permission_module = "products";
        screen = none;
        action = PermissionAction.create;
        description = none;
      }
      ∷ [];
  units = piece ∷ [];
  categories = clothes ∷ [];
  products = shirt ∷ [];
  product_variants = shirt_variant ∷ [];
})

abbrev euros : ℕ → Decimal
euros n = record { unscaled = pos n; scale = 0 }

abbrev sized : String → String → ProductVariantInput
sized sku size = record {
  sku = sku;
  size = some size;
  color = some "Blue";
  purchase_price = euros 8;
  selling_price = euros 12;
  mrp = none;
}

abbrev trousers : ProductCreate
trousers = record {
  sku = "TROUSERS";
  name = "Trousers";
  description = none;
  category_id = some 40;
  brand_id = none;
  base_unit_id = 3;
  gender = none;
  season = none;
  age_group = none;
  hsn_code = none;
  tax_percent = none;
  track_inventory = true;
  allow_negative_stock = false;
  low_stock_threshold = none;
  has_variants = true;
  purchase_price = euros 0;
  selling_price = euros 0;
  mrp = none;
  variants = sized "T-M" "M" ∷ sized "T-L" "L" ∷ [];
}

blue :
    (Creation.create_product 1 trousers (store "products.create")).1.db.product_variants
    ≡ shirt_variant ∷ rows_from 101 1 100 trousers.variants
unfolding Creation.create_product create_variants create_variant check_category check_brand ◌>>=◌
    UnitService.ensure_available_for_company UnitService.get UnitRepository.get_by_id
    ProductRepository.get_by_sku ProductRepository.create ProductVariantRepository.get_by_sku
    ProductVariantRepository.create CategoryRepository.get_by_id fits_numeric
blue = refl

named : name_variant (some "M") (some "Blue") ≡ some "Blue / M"
named = refl

abbrev rename : String → ProductUpdate
rename name = record {
  name = some (some name);
  description = none;
  category_id = none;
  brand_id = none;
  gender = none;
  season = none;
  age_group = none;
  hsn_code = none;
  tax_percent = none;
  track_inventory = none;
  allow_negative_stock = none;
  low_stock_threshold = none;
  is_active = none;
}

abbrev resize : String → ProductVariantUpdate
resize size = record {
  size = some (some size);
  color = none;
  purchase_price = none;
  selling_price = none;
  mrp = none;
  is_active = none;
}

abbrev rename_category : String → CategoryUpdate
rename_category name = record {
  name = some (some name);
  parent_category_id = none;
  description = none;
  image_url = none;
  display_order = none;
  is_active = none;
}

product_update-once_example :
    let s' = (Changes.update_product 1 20 (rename "Blouse") 1 (store "products.update")).1 in
    Refused (Changes.update_product 1 20 (rename "Skirt") 1) s'
unfolding Changes.update_product check_category check_brand versioned_update ◌>>=◌
    ProductRepository.get_by_id fits_numeric
product_update-once_example =
    product_update-once 1 20 1 (rename "Blouse") (rename "Skirt") (store "products.update")
      {s' = (Changes.update_product 1 20 (rename "Blouse") 1 (store "products.update")).1} refl refl
      refl

variant_update-once_example :
    let s' = (ProductVariantService.update 1 21 (resize "L") 1 (store "products.update")).1 in
    Refused (ProductVariantService.update 1 21 (resize "S") 1) s'
unfolding ProductVariantService.update ProductVariantService.renamed ProductVariantService.get
    versioned_update ◌>>=◌ ProductVariantRepository.get_by_id fits_numeric
variant_update-once_example =
    variant_update-once 1 21 1 (resize "L") (resize "S") (store "products.update")
      {s' = (ProductVariantService.update 1 21 (resize "L") 1 (store "products.update")).1} refl
      refl refl

category_update-once_example :
    let s' =
      (CategoryService.update 1 40 (rename_category "Wear") 1 (store "categories.update")).1 in
    Refused (CategoryService.update 1 40 (rename_category "Dress") 1) s'
unfolding CategoryService.update CategoryService.check_parent versioned_update ◌>>=◌
    CategoryRepository.get_by_id
category_update-once_example =
    category_update-once 1 40 1 (rename_category "Wear") (rename_category "Dress")
      (store "categories.update")
      {s' = (CategoryService.update 1 40 (rename_category "Wear") 1 (store "categories.update")).1}
      refl refl refl

abbrev ask : Request
ask = Request.create_product trousers

perform-Permitted_example :
    Permitted "products.create" toys default_settings (some "access") (store "products.create")
unfolding perform permission Products.create_product guarded require_permission get_current_user
    access_payload decode_token UserRepository.get_by_id get_effective_permission_codes collect
    UserRepository.get_role_ids PermissionRepository.list_codes_for_role Creation.create_product
    create_variants create_variant check_category check_brand ◌>>=◌
    UnitService.ensure_available_for_company UnitService.get UnitRepository.get_by_id
    ProductRepository.get_by_sku ProductRepository.create ProductVariantRepository.get_by_sku
    ProductVariantRepository.create CategoryRepository.get_by_id fits_numeric
perform-Permitted_example =
    perform-Permitted toys default_settings (some "access") ask (store "products.create")
      {s' = (perform toys default_settings (some "access") ask (store "products.create")).1} refl

store-IsCatalog : IsCatalog (store "products.create").db
store-IsCatalog = record {
  has_variants = (refl, tt);
  products_distinct = (refl, tt);
  variants_distinct = (refl, tt);
  one_primary = λ c v. omega arith;
}

-- The second call has no token, and the third finds the SKU taken.
abbrev calls : List Call
calls = (1000, some "access", ask) ∷ (1001, none, ask) ∷ (1002, some "access", ask) ∷ []

serve_all-IsCatalog_example :
    let s' = serve_all toys default_settings calls (store "products.create") in
    IsCommitted s' × IsCatalog s'.saved
serve_all-IsCatalog_example =
    serve_all-IsCatalog toys default_settings calls (store "products.create") refl store-IsCatalog
