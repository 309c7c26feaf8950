-- ===== src/Catalog/Changes.antt =====
-- `ProductService.update` of backend/app/modules/products_catalog/service.py.
use retail_os.Core.Versioned.{versioned_update}
use retail_os.Core.Exceptions.{conflict_exception, not_found_exception, data_error}
use retail_os.Catalog.Creation.{check_brand, check_category}
use retail_os.Core.Decimal.{fits_nullable}
use retail_os.Catalog.Models.{Product}
use retail_os.Prelude.Fields.{given, set, set_required, is_null, is_set}
use retail_os.Core.Session.{raise_if, ◌>>◌, M}
use retail_os.Core.Db.{Db}
use retail_os.Catalog.ProductRepository.{is_product}
use retail_os.Prelude.{◌+◌, ◌&&◌, if◌then◌else◌, ◌==◌, ◌||◌, not, Bool, ℕ}
use retail_os.Catalog.Schemas.{ProductUpdate}
use retail_os.Catalog.ProductRepository
use retail_os.Catalog.ProductService

abbrev pub has_changes : ProductUpdate → Bool
has_changes r =
    is_set r.name
    || is_set r.description
    || is_set r.category_id
    || is_set r.brand_id
    || is_set r.gender
    || is_set r.season
    || is_set r.age_group
    || is_set r.hsn_code
    || is_set r.tax_percent
    || is_set r.track_inventory
    || is_set r.allow_negative_stock
    || is_set r.low_stock_threshold
    || is_set r.is_active

abbrev pub apply_changes : ProductUpdate → Product → Product
apply_changes r p = record p {
  name = set_required r.name p.name;
  description = set r.description p.description;
  category_id = set r.category_id p.category_id;
  brand_id = set r.brand_id p.brand_id;
  gender = set r.gender p.gender;
  season = set r.season p.season;
  age_group = set r.age_group p.age_group;
  hsn_code = set r.hsn_code p.hsn_code;
  tax_percent = set r.tax_percent p.tax_percent;
  track_inventory = set_required r.track_inventory p.track_inventory;
  allow_negative_stock = set_required r.allow_negative_stock p.allow_negative_stock;
  low_stock_threshold = set r.low_stock_threshold p.low_stock_threshold;
  is_active = set_required r.is_active p.is_active;
  version = p.version + 1;
}

-- a null in a column that is NOT NULL
abbrev pub violates : ProductUpdate → Db → Bool
violates r db =
    is_null r.name
    || is_null r.track_inventory
    || is_null r.allow_negative_stock
    || is_null r.is_active

abbrev pub out_of_range : ProductUpdate → Bool
out_of_range r = not (
    fits_nullable 5 2 (given r.tax_percent)
    && ProductRepository.fits_threshold (given r.low_stock_threshold))

abbrev pub is_version : ℕ → ℕ → ℕ → Product → Bool
is_version company_id product_id expected_version p =
    p.id == product_id && (p.company_id == company_id && p.version == expected_version)

-- `ProductService.update`
unfoldable pub update_product : ℕ → ℕ → ProductUpdate → ℕ → M Product
update_product company_id product_id request expected_version =
    if has_changes request
    then check_category company_id (given request.category_id)
      >> (check_brand company_id (given request.brand_id)
          >> (raise_if (out_of_range request) data_error
              >> versioned_update (λ db. db.products)
                  (λ products db. record db { products = products })
                  (is_version company_id product_id expected_version) (apply_changes request)
                  (violates request) (ProductRepository.get_by_id company_id product_id)
                  (not_found_exception "Product not found")
                  (conflict_exception
                    "Product was modified by someone else. Reload and try again.")))
    else ProductService.get company_id product_id
