-- ===== src/Catalog/Creation.antt =====
-- `ProductService.create` of backend/app/modules/products_catalog/service.py, with the creation of the
-- variants.
use retail_os.Core.Exceptions.{not_found_exception, field_exception}
use retail_os.Catalog.Models.{Product, ProductVariant}
use retail_os.Catalog.ProductRepository.{is_product}
use retail_os.Core.Session.{uuid4, raise_if, ◌>>◌, pure, M, ◌>>=◌}
use retail_os.Catalog.Schemas.{ProductVariantInput, ProductCreate}
use retail_os.Prelude.{
  ◌&&◌, is_none, not, false, concat, str_eq, true, ◌∷◌, some, Bool, if◌then◌else◌, ◌++◌, none, [],
  String, ℕ, List, Option,
}
use retail_os.Catalog.ProductRepository
use retail_os.Catalog.ProductVariantRepository
use retail_os.Catalog.CategoryRepository
use retail_os.Catalog.BrandRepository
use retail_os.Catalog.UnitService

-- `if p`: the part is there and not empty
abbrev pub given_part : Option String → List String
given_part none = []
given_part (some part) = if str_eq part "" then [] else part ∷ []

abbrev pub join_parts : List String → Option String
join_parts [] = none
join_parts (part ∷ []) = some part
join_parts (part ∷ other ∷ rest) = some (concat (part ∷ " / " ∷ other ∷ []))

-- `_variant_name`
abbrev pub name_variant : Option String → Option String → Option String
name_variant size color = join_parts (given_part color ++ given_part size)

abbrev pub new_variant : ℕ → ℕ → ℕ → ProductVariantInput → ProductVariant
new_variant id company_id product_id r = record {
  id = id;
  company_id = company_id;
  product_id = product_id;
  sku = r.sku;
  size = r.size;
  color = r.color;
  variant_name = name_variant r.size r.color;
  purchase_price = r.purchase_price;
  selling_price = r.selling_price;
  mrp = r.mrp;
  is_active = true;
  deleted_at = none;
  version = 1;
}

-- `_create_variant`
unfoldable pub create_variant : ℕ → ℕ → ProductVariantInput → M ProductVariant
create_variant company_id product_id request = do
  taken ← ProductVariantRepository.get_by_sku company_id request.sku
  raise_if (not (is_none taken))
      (field_exception (concat ("Variant SKU '" ∷ request.sku ∷ "' already exists" ∷ [])) "sku")
  id ← uuid4
  ProductVariantRepository.create (new_variant id company_id product_id request)
  pure (new_variant id company_id product_id request)

-- the loop over `data.variants`
unfoldable pub create_variants : ℕ → ℕ → List ProductVariantInput → M (List ProductVariant)
create_variants company_id product_id [] = pure []
create_variants company_id product_id (request ∷ rest) = do
  variant ← create_variant company_id product_id request
  others ← create_variants company_id product_id rest
  pure (variant ∷ others)

-- the variant of a product without variants, which has the product's SKU
abbrev pub implicit_variant : ProductCreate → ProductVariantInput
implicit_variant r = record {
  sku = r.sku;
  size = none;
  color = none;
  purchase_price = r.purchase_price;
  selling_price = r.selling_price;
  mrp = r.mrp;
}

abbrev pub variant_inputs : ProductCreate → List ProductVariantInput
variant_inputs r = if r.has_variants then r.variants else implicit_variant r ∷ []

abbrev pub new_product : ℕ → ℕ → ProductCreate → Product
new_product id company_id r = record {
  id = id;
  company_id = company_id;
  sku = r.sku;
  name = r.name;
  description = r.description;
  category_id = r.category_id;
  brand_id = r.brand_id;
  base_unit_id = r.base_unit_id;
  gender = r.gender;
  season = r.season;
  age_group = r.age_group;
  hsn_code = r.hsn_code;
  tax_percent = r.tax_percent;
  has_variants = r.has_variants;
  track_inventory = r.track_inventory;
  allow_negative_stock = r.allow_negative_stock;
  low_stock_threshold = r.low_stock_threshold;
  is_active = true;
  deleted_at = none;
  version = 1;
}

unfoldable pub check_category : ℕ → Option ℕ → M (Unit {0})
unfolding ◌>>=◌ CategoryRepository.get_by_id
check_category company_id none = pure tt
check_category company_id (some category_id) = do
  category ← CategoryRepository.get_by_id company_id category_id
  raise_if (is_none category) (not_found_exception "Category not found")

unfoldable pub check_brand : ℕ → Option ℕ → M (Unit {0})
unfolding ◌>>=◌ BrandRepository.get_by_id
check_brand company_id none = pure tt
check_brand company_id (some brand_id) = do
  brand ← BrandRepository.get_by_id company_id brand_id
  raise_if (is_none brand) (not_found_exception "Brand not found")

-- `not data.variants`
abbrev pub is_empty : List ProductVariantInput → Bool
is_empty [] = true
is_empty _ = false

-- `ProductService.create`
unfoldable pub create_product : ℕ → ProductCreate → M (Product × List ProductVariant)
create_product company_id request = do
  taken ← ProductRepository.get_by_sku company_id request.sku
  raise_if (not (is_none taken))
      (field_exception (concat ("Product SKU '" ∷ request.sku ∷ "' already exists" ∷ [])) "sku")
  check_category company_id request.category_id
  check_brand company_id request.brand_id
  unit ← UnitService.ensure_available_for_company company_id request.base_unit_id
  raise_if (request.has_variants && is_empty request.variants)
      (field_exception "At least one variant is required when has_variants=True" "variants")
  id ← uuid4
  ProductRepository.create (new_product id company_id request)
  variants ← create_variants company_id id (variant_inputs request)
  pure (new_product id company_id request, variants)
