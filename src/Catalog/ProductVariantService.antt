-- ===== src/Catalog/ProductVariantService.antt =====
-- `ProductVariantService` of backend/app/modules/products_catalog/service.py.
use retail_os.Catalog.Creation.{new_variant, name_variant}
use retail_os.Core.Versioned.{versioned_update}
use retail_os.Core.Decimal.{fits_nullable}
use retail_os.Prelude.Rows.{update_where}
use retail_os.Core.Exceptions.{conflict_exception, field_exception, data_error, not_found_exception}
use retail_os.Prelude.Fields.{given, set_required, set, is_null, is_set}
use retail_os.Core.Db.{Db}
use retail_os.Catalog.Schemas.{ProductVariantInput, ProductVariantUpdate}
use retail_os.Catalog.Models.{ProductVariant, Product}
use retail_os.Prelude.{
  [], ◌∷◌, none, concat, some, is_none, ◌+◌, true, ◌&&◌, ◌||◌, if◌then◌else◌, ◌==◌, not, String,
  List, Option, Bool, ℕ,
}
use retail_os.Core.Session.{when, uuid4, pure, ◌>>◌, raise_if, modify_db, or_raise, M, ◌>>=◌}
use retail_os.Catalog.ProductRepository
use retail_os.Catalog.ProductVariantRepository

unfoldable pub get : ℕ → ℕ → M ProductVariant
unfolding ◌>>=◌ ProductVariantRepository.get_by_id
get company_id variant_id = do
  or_raise (← ProductVariantRepository.get_by_id company_id variant_id)
      (not_found_exception "Product variant not found")

abbrev pub list_for_product : ℕ → ℕ → M (List ProductVariant)
list_for_product company_id product_id =
    ProductVariantRepository.list_for_product company_id product_id

-- `product.has_variants = True` and `product.version += 1`
abbrev pub mark_variants : Product → M (Unit {0})
mark_variants product = modify_db λ db. record db {
  products =
      update_where (λ p. p.id == product.id)
        (λ p. record p { has_variants = true; version = product.version + 1 }) db.products;
}

unfoldable pub add_variant : ℕ → ℕ → ProductVariantInput → M ProductVariant
add_variant company_id product_id request = do
  found ← ProductRepository.get_by_id company_id product_id
  product ← or_raise found (not_found_exception "Product not found")
  taken ← ProductVariantRepository.get_by_sku company_id request.sku
  raise_if (not (is_none taken))
      (field_exception (concat ("Variant SKU '" ∷ request.sku ∷ "' already exists" ∷ [])) "sku")
  id ← uuid4
  ProductVariantRepository.create (new_variant id company_id product_id request)
  when (not product.has_variants) (mark_variants product)
  pure (new_variant id company_id product_id request)

abbrev pub has_changes : ProductVariantUpdate → Bool
has_changes r =
    is_set r.size
    || is_set r.color
    || is_set r.purchase_price
    || is_set r.selling_price
    || is_set r.mrp
    || is_set r.is_active

-- the values of the UPDATE, with the name computed before, if any
abbrev pub apply_changes :
    ProductVariantUpdate → Option (Option String) → ProductVariant → ProductVariant
apply_changes r variant_name v = record v {
  size = set r.size v.size;
  color = set r.color v.color;
  variant_name = set variant_name v.variant_name;
  purchase_price = set_required r.purchase_price v.purchase_price;
  selling_price = set_required r.selling_price v.selling_price;
  mrp = set r.mrp v.mrp;
  is_active = set_required r.is_active v.is_active;
  version = v.version + 1;
}

-- a null in a column that is NOT NULL
abbrev pub violates : ProductVariantUpdate → Db → Bool
violates r db = is_null r.purchase_price || is_null r.selling_price || is_null r.is_active

abbrev pub out_of_range : ProductVariantUpdate → Bool
out_of_range r = not (
    fits_nullable 12 2 (given r.purchase_price)
    && (fits_nullable 12 2 (given r.selling_price) && fits_nullable 12 2 (given r.mrp)))

-- `changes["variant_name"]`, where the size or the color changes
unfoldable pub renamed : ℕ → ℕ → ProductVariantUpdate → M (Option (Option String))
unfolding ◌>>=◌ get ProductVariantRepository.get_by_id
renamed company_id variant_id request =
    if is_set request.size || is_set request.color
    then get company_id variant_id >>= (λ existing.
      pure
        (some (name_variant (set request.size existing.size) (set request.color existing.color))))
    else pure none

abbrev pub is_version : ℕ → ℕ → ℕ → ProductVariant → Bool
is_version company_id variant_id expected_version v =
    v.id == variant_id && (v.company_id == company_id && v.version == expected_version)

-- the UPDATE, and what follows it
abbrev pub write_changes :
    ℕ → ℕ → ProductVariantUpdate → ℕ → Option (Option String) → M ProductVariant
write_changes company_id variant_id request expected_version variant_name =
    raise_if (out_of_range request) data_error
    >> versioned_update (λ db. db.product_variants)
        (λ product_variants db. record db { product_variants = product_variants })
        (is_version company_id variant_id expected_version) (apply_changes request variant_name)
        (violates request) (ProductVariantRepository.get_by_id company_id variant_id)
        (not_found_exception "Product variant not found")
        (conflict_exception "Product variant was modified by someone else. Reload and try again.")

unfoldable pub update : ℕ → ℕ → ProductVariantUpdate → ℕ → M ProductVariant
update company_id variant_id request expected_version =
    if has_changes request
    then renamed company_id variant_id request
      >>= write_changes company_id variant_id request expected_version
    else get company_id variant_id
