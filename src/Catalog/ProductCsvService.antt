-- ===== src/Catalog/ProductCsvService.antt =====
-- `ProductCsvService` of backend/app/modules/products_catalog/service.py.
use Prim.Native.String.{count}
use retail_os.Catalog.Creation.{create_product}
use retail_os.Prelude.Rows.{any, select_one, length}
use retail_os.Csv.Values.{chars, is_word}
use retail_os.Core.Decimal.{Decimal}
use retail_os.Core.Exceptions.{validation_error, field_exception, runtime_error, app, Exception}
use retail_os.Catalog.Schemas.{ProductCreate, ProductVariantInput}
use retail_os.Prelude.Int.{leb_ℤ, pos, ℤ}
use retail_os.Catalog.Models.{unisex, kids, women, men, ProductUnit, ProductGender, Brand, Category}
use retail_os.Csv.Groups.{parse_products_csv, ProductImportGroup, ProductImportVariantRow}
use retail_os.Csv.Numbers.{special, finite, Number}
use retail_os.Csv.Wire.{Text}
use retail_os.Core.Session.{raise_if, ◌>>◌, err, or_raise, uuid4, ok, pure, M, ◌>>=◌}
use retail_os.Prelude.{
  ◌||◌, not, concat, ◌^◌, str_eq, ◌*◌, false, is_none, [], map, ltb, ◌∷◌, ◌&&◌, leb, if◌then◌else◌,
  true, some, none, Bool, List, ℕ, Option, String,
}
use retail_os.Catalog.CategoryRepository
use retail_os.Catalog.BrandRepository
use retail_os.Catalog.UnitRepository
use retail_os.Catalog.ProductRepository

-- `ProductImportRowResult`, with its status as the constructor.
pub data ProductImportRowResult : Type 0 where
  created : String → ProductImportRowResult
  skipped : String → String → ProductImportRowResult
  error : String → String → ProductImportRowResult

-- `if existing is not None`
abbrev pub if_found : {A B : Type 0} → Option A → (A → M B) → M B → M B
if_found none f m = m
if_found (some a) f m = f a

abbrev named_category : ℕ → ℕ → String → Category
named_category id company_id name = record {
  id = id;
  company_id = company_id;
  name = name;
  parent_category_id = none;
  description = none;
  image_url = none;
  display_order = pos 0;
  is_active = true;
  deleted_at = none;
  version = 1;
}

-- `_resolve_category_id`
unfoldable pub resolve_category_id : ℕ → Option String → M (Option ℕ)
resolve_category_id company_id none = pure none
resolve_category_id company_id (some name) = do
  existing ← CategoryRepository.get_by_name company_id name
  if_found existing (λ c. pure (some c.id))
      (do id ← uuid4; CategoryRepository.create (named_category id company_id name); pure (some id))

abbrev named_brand : ℕ → ℕ → String → Brand
named_brand id company_id name = record {
  id = id;
  company_id = company_id;
  name = name;
  logo_url = none;
  description = none;
  is_active = true;
  deleted_at = none;
  version = 1;
}

-- `_resolve_brand_id`
unfoldable pub resolve_brand_id : ℕ → Option String → M (Option ℕ)
resolve_brand_id company_id none = pure none
resolve_brand_id company_id (some name) = do
  existing ← BrandRepository.get_by_name company_id name
  if_found existing (λ b. pure (some b.id))
      (do id ← uuid4; BrandRepository.create (named_brand id company_id name); pure (some id))

-- `_resolve_unit`
unfoldable pub resolve_unit : ℕ → String → M ProductUnit
unfolding ◌>>=◌ UnitRepository.list_available_for_company
resolve_unit company_id abbreviation = do
  units ← UnitRepository.list_available_for_company company_id
  or_raise (select_one (λ u. str_eq u.abbreviation abbreviation) units)
      (field_exception (concat ("Unknown unit '" ∷ abbreviation ∷ "'" ∷ [])) "unit")

-- `ProductGender(gender.lower())`
abbrev gender_of : Text → Option ProductGender
gender_of t =
    if is_word t "men"
    then some men
    else if is_word t "women"
    then some women
    else if is_word t "kids"
    then some kids
    else if is_word t "unisex"
    then some unisex
    else none

-- `_parse_gender`
unfoldable pub parse_gender : Option String → M (Option ProductGender)
unfolding ◌>>=◌
parse_gender none = pure none
parse_gender (some gender) =
    or_raise (gender_of (chars gender)) (
      field_exception
        (concat
          ("Unknown gender '" ∷ gender ∷ "' — expected one of: men, women, kids, unisex" ∷ []))
        "gender")
    >>= λ g. pure (some g)

-- The limits that pydantic asks of the fields that a file gives.
abbrev fits_text : ℕ → String → Bool
fits_text most s = leb 1 (count s) && leb (count s) most

abbrev fits_optional : ℕ → Option String → Bool
fits_optional most none = true
fits_optional most (some s) = leb (count s) most

-- `ge=0` on a number, which refuses an infinity and a NaN too
abbrev is_amount : Number → Bool
is_amount (finite d) = leb_ℤ (pos 0) d.unscaled
is_amount special = false

abbrev is_optional_amount : Option Number → Bool
is_optional_amount none = true
is_optional_amount (some x) = is_amount x

-- `le=100`
abbrev is_percent : Option Number → Bool
is_percent none = true
is_percent (some (finite d)) = leb_ℤ d.unscaled (pos (100 * 10 ^ d.scale))
is_percent (some special) = false

abbrev is_threshold : Option ℤ → Bool
is_threshold none = true
is_threshold (some n) = leb_ℤ (pos 0) n

unfoldable pub is_valid_variant : ProductImportVariantRow → Bool
is_valid_variant v =
    fits_text 100 v.variant_sku
    && fits_optional 50 v.size
    && fits_optional 50 v.color
    && is_amount v.purchase_price
    && is_amount v.selling_price
    && is_optional_amount v.mrp

unfoldable pub is_valid_group : ProductImportGroup → ProductImportVariantRow → Bool
is_valid_group g first =
    fits_text 100 g.sku
    && fits_text 200 g.name
    && fits_optional 50 g.season
    && fits_optional 50 g.age_group
    && fits_optional 20 g.hsn_code
    && is_optional_amount g.tax_percent
    && is_percent g.tax_percent
    && is_threshold g.low_stock_threshold
    && is_amount first.purchase_price
    && is_amount first.selling_price
    && is_optional_amount first.mrp

-- the Decimal of a number that was validated
abbrev amount : Number → Decimal
amount (finite d) = d
amount special = record { unscaled = pos 0; scale = 0 }

abbrev optional_amount : Option Number → Option Decimal
optional_amount none = none
optional_amount (some x) = some (amount x)

abbrev variant_input : ProductImportVariantRow → ProductVariantInput
variant_input v = record {
  sku = v.variant_sku;
  size = v.size;
  color = v.color;
  purchase_price = amount v.purchase_price;
  selling_price = amount v.selling_price;
  mrp = optional_amount v.mrp;
}

-- `ProductCreate(...)`, for the ids that the names were resolved to
abbrev product_request :
    ProductImportGroup
    → ProductImportVariantRow
    → Bool
    → Option ℕ
    → Option ℕ
    → ℕ
    → Option ProductGender
    → ProductCreate
product_request g first has_variants category_id brand_id unit_id gender = record {
  sku = g.sku;
  name = g.name;
  description = g.description;
  category_id = category_id;
  brand_id = brand_id;
  base_unit_id = unit_id;
  gender = gender;
  season = g.season;
  age_group = g.age_group;
  hsn_code = g.hsn_code;
  tax_percent = optional_amount g.tax_percent;
  track_inventory = g.track_inventory;
  allow_negative_stock = g.allow_negative_stock;
  low_stock_threshold = g.low_stock_threshold;
  has_variants = has_variants;
  purchase_price = amount first.purchase_price;
  selling_price = amount first.selling_price;
  mrp = optional_amount first.mrp;
  variants = if has_variants then map variant_input g.variants else [];
}

-- `group.variants[0]`
abbrev first_of : List ProductImportVariantRow → Option ProductImportVariantRow
first_of [] = none
first_of (v ∷ vs) = some v

-- `_import_one_group`; a group without a variant would be an IndexError
unfoldable pub import_one_group : ℕ → ProductImportGroup → M (Unit {0})
import_one_group company_id group = do
  category_id ← resolve_category_id company_id group.category
  brand_id ← resolve_brand_id company_id group.brand
  unit ← resolve_unit company_id group.unit
  gender ← parse_gender group.gender
  let has_variants = ltb 1 (length group.variants)
  first ← or_raise (first_of group.variants) runtime_error
  raise_if
      (not (is_valid_group group first)
        || (has_variants && any (λ v. not (is_valid_variant v)) group.variants))
      validation_error
  product ←
      create_product company_id
        (product_request group first has_variants category_id brand_id unit.id gender)
  pure tt

abbrev pub undone : String → Exception → M ProductImportRowResult
undone sku (app e) s = (ok (error sku e.message), s)
undone sku e s = (err e, s)

-- `async with self._session.begin_nested()` under `except AppException`: what raises is undone, and an
-- AppException becomes an entry of the results.
unfoldable pub nested : String → M (Unit {0}) → M ProductImportRowResult
nested sku action s =
    let (r, s') = action s in
    elim r [ ok _ ↦ (ok (created sku), s') | err e ↦ undone sku e (record s' { db = s.db }) ]

-- one group of the loop
unfoldable pub import_group : ℕ → ProductImportGroup → M ProductImportRowResult
import_group company_id group = do
  existing ← ProductRepository.get_by_sku company_id group.sku
  if is_none existing
      then nested group.sku (import_one_group company_id group)
      else pure (skipped group.sku "A product with this SKU already exists")

unfoldable pub import_groups : ℕ → List ProductImportGroup → M (List ProductImportRowResult)
import_groups company_id [] = pure []
import_groups company_id (group ∷ groups) = do
  result ← import_group company_id group
  results ← import_groups company_id groups
  pure (result ∷ results)

unfoldable pub import_company_products : ℕ → Text → M (List ProductImportRowResult)
import_company_products company_id csv_text =
    parse_products_csv csv_text >>= λ groups. import_groups company_id groups
