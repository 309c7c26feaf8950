-- ===== src/Catalog/Requests.antt =====
-- The endpoints of backend/app/modules/products_catalog/api.py that write, as requests under
-- `get_db_session`.
use retail_os.Csv.Wire.{Text}
use retail_os.Core.Session.{pure, Session, ◌>>=◌, get_db_session, M}
use retail_os.Core.Config.{Settings}
use retail_os.Core.Time.{DateTime}
use retail_os.Core.Security.{Libraries}
use retail_os.Prelude.{[], ◌∷◌, List, Option, ℕ, String}
use retail_os.Catalog.Schemas.{
  ProductImageCreate, ProductBarcodeCreate, ProductVariantUpdate, ProductVariantInput,
  ProductUpdate, ProductCreate, UnitCreate, BrandUpdate, BrandCreate, CategoryUpdate,
  CategoryCreate,
}
use retail_os.Catalog.Endpoints.Groups
use retail_os.Catalog.Endpoints.Products
use retail_os.Catalog.Endpoints.Variants
use retail_os.Catalog.Endpoints.Files

pub data Request : Type 0 where
  create_category : CategoryCreate → Request
  update_category : ℕ → CategoryUpdate → ℕ → Request
  create_brand : BrandCreate → Request
  update_brand : ℕ → BrandUpdate → ℕ → Request
  create_unit : UnitCreate → Request
  create_product : ProductCreate → Request
  update_product : ℕ → ProductUpdate → ℕ → Request
  disable_product : ℕ → ℕ → Request
  add_product_variant : ℕ → ProductVariantInput → Request
  update_product_variant : ℕ → ProductVariantUpdate → ℕ → Request
  add_variant_barcode : ℕ → ProductBarcodeCreate → Request
  add_product_image : ℕ → ProductImageCreate → Request
  import_products : Option Text → Request

-- the permission that an endpoint asks for
unfoldable pub permission : Request → String
permission (Request.create_category r) = "categories.create"
permission (Request.update_category id r v) = "categories.update"
permission (Request.create_brand r) = "brands.create"
permission (Request.update_brand id r v) = "brands.update"
permission (Request.create_unit r) = "units.create"
permission (Request.create_product r) = "products.create"
permission (Request.update_product id r v) = "products.update"
permission (Request.disable_product id v) = "products.delete"
permission (Request.add_product_variant id r) = "products.update"
permission (Request.update_product_variant id r v) = "products.update"
permission (Request.add_variant_barcode id r) = "products.update"
permission (Request.add_product_image id r) = "products.update"
permission (Request.import_products file) = "products.import"

module _ (libs : Libraries) (settings : Settings) (credentials : Option String) where
  unfoldable pub perform : Request → M (Unit {0})
  perform (Request.create_category r) =
      Groups.create_category libs settings credentials r >>= λ _. pure tt
  perform (Request.update_category id r v) =
      Groups.update_category libs settings credentials id r v >>= λ _. pure tt
  perform (Request.create_brand r) =
      Groups.create_brand libs settings credentials r >>= λ _. pure tt
  perform (Request.update_brand id r v) =
      Groups.update_brand libs settings credentials id r v >>= λ _. pure tt
  perform (Request.create_unit r) = Groups.create_unit libs settings credentials r >>= λ _. pure tt
  perform (Request.create_product r) =
      Products.create_product libs settings credentials r >>= λ _. pure tt
  perform (Request.update_product id r v) =
      Products.update_product libs settings credentials id r v >>= λ _. pure tt
  perform (Request.disable_product id v) =
      Products.disable_product libs settings credentials id v >>= λ _. pure tt
  perform (Request.add_product_variant id r) =
      Variants.add_product_variant libs settings credentials id r >>= λ _. pure tt
  perform (Request.update_product_variant id r v) =
      Variants.update_product_variant libs settings credentials id r v >>= λ _. pure tt
  perform (Request.add_variant_barcode id r) =
      Variants.add_variant_barcode libs settings credentials id r >>= λ _. pure tt
  perform (Request.add_product_image id r) =
      Variants.add_product_image libs settings credentials id r >>= λ _. pure tt
  perform (Request.import_products file) =
      Files.import_products libs settings credentials file >>= λ _. pure tt

-- One request on a committed database, with its own instant and credentials.
abbrev pub Call : Type 0
Call = DateTime × Option String × Request

module _ (libs : Libraries) (settings : Settings) where
  unfoldable pub serve : Call → Session → Session
  unfolding get_db_session perform
  serve (now, credentials, request) s =
      (get_db_session (perform libs settings credentials request) (record s { now = now })).1

  unfoldable pub serve_all : List Call → Session → Session
  unfolding serve
  serve_all [] s = s
  serve_all (x ∷ xs) s = serve_all xs (serve x s)
