-- ===== src/Catalog/Atomic.antt =====
-- No operation of backend/app/modules/products_catalog/service.py commits by itself.
use retail_os.Catalog.Changes.{update_product}
use retail_os.Catalog.Schemas.{
  ProductUpdate, UnitCreate, BrandUpdate, BrandCreate, CategoryUpdate, CategoryCreate,
  ProductImageCreate, ProductBarcodeCreate, ProductCreate, ProductVariantInput,
  ProductVariantUpdate,
}
use retail_os.Core.Keeps.{Keeps-versioned, Keeps-pure, Keeps-bind, Keeps, keeps_rules}
use retail_os.Catalog.Creation.{
  create_product, create_variants, create_variant, check_brand, check_category,
}
use retail_os.Prelude.{[], refl, none, ◌∷◌, some, arith, List, Option, ℕ}
use retail_os.Catalog.ProductRepository.{is_product}
use retail_os.Catalog.Models.{
  Product, ProductImage, ProductBarcode, ProductVariant, ProductUnit, Brand, Category,
}
use retail_os.Catalog.BrandRepository
use retail_os.Catalog.BrandService
use retail_os.Catalog.CategoryRepository
use retail_os.Catalog.CategoryService
use retail_os.Catalog.ProductBarcodeRepository
use retail_os.Catalog.ProductBarcodeService
use retail_os.Catalog.ProductImageRepository
use retail_os.Catalog.ProductImageService
use retail_os.Catalog.ProductRepository
use retail_os.Catalog.ProductService
use retail_os.Catalog.ProductVariantRepository
use retail_os.Catalog.ProductVariantService
use retail_os.Catalog.UnitRepository
use retail_os.Catalog.UnitService

pub category_create-Keeps : (x : Category) → Keeps (CategoryRepository.create x)
unfolding CategoryRepository.create
category_create-Keeps x = record { at = λ s. ground arith }

pub brand_create-Keeps : (x : Brand) → Keeps (BrandRepository.create x)
unfolding BrandRepository.create
brand_create-Keeps x = record { at = λ s. ground arith }

pub unit_create-Keeps : (x : ProductUnit) → Keeps (UnitRepository.create x)
unfolding UnitRepository.create
unit_create-Keeps x = record { at = λ s. ground arith }

pub product_create-Keeps : (x : Product) → Keeps (ProductRepository.create x)
unfolding ProductRepository.create
product_create-Keeps x = record { at = λ s. ground arith }

pub variant_create-Keeps : (x : ProductVariant) → Keeps (ProductVariantRepository.create x)
unfolding ProductVariantRepository.create
variant_create-Keeps x = record { at = λ s. ground arith }

pub barcode_create-Keeps : (x : ProductBarcode) → Keeps (ProductBarcodeRepository.create x)
unfolding ProductBarcodeRepository.create
barcode_create-Keeps x = record { at = λ s. ground arith }

pub image_create-Keeps : (x : ProductImage) → Keeps (ProductImageRepository.create x)
unfolding ProductImageRepository.create
image_create-Keeps x = record { at = λ s. ground arith }

pub category_get-Keeps : (c id : ℕ) → Keeps (CategoryService.get c id)
unfolding CategoryService.get
category_get-Keeps c id = record { at = λ s. ground arith }

pub brand_get-Keeps : (c id : ℕ) → Keeps (BrandService.get c id)
unfolding BrandService.get
brand_get-Keeps c id = record { at = λ s. ground arith }

pub product_get-Keeps : (c id : ℕ) → Keeps (ProductService.get c id)
unfolding ProductService.get
product_get-Keeps c id = record { at = λ s. ground arith }

pub variant_get-Keeps : (c id : ℕ) → Keeps (ProductVariantService.get c id)
unfolding ProductVariantService.get
variant_get-Keeps c id = record { at = λ s. ground arith }

pub ensure_available_for_company-Keeps :
    (c id : ℕ) → Keeps (UnitService.ensure_available_for_company c id)
unfolding UnitService.ensure_available_for_company
ensure_available_for_company-Keeps c id = record { at = λ s. ground arith }

pub renamed-Keeps :
    (c id : ℕ) (r : ProductVariantUpdate) → Keeps (ProductVariantService.renamed c id r)
unfolding ProductVariantService.renamed
renamed-Keeps c id r = record { at = λ s. ground arith }

pub check_parent-Keeps : (c : ℕ) (id : Option ℕ) → Keeps (CategoryService.check_parent c id)
unfolding CategoryService.check_parent
check_parent-Keeps c none = record { at = λ s. refl }
check_parent-Keeps c (some id) = record { at = λ s. ground arith }

pub check_category-Keeps : (c : ℕ) (id : Option ℕ) → Keeps (check_category c id)
unfolding check_category
check_category-Keeps c none = record { at = λ s. refl }
check_category-Keeps c (some id) = record { at = λ s. ground arith }

pub check_brand-Keeps : (c : ℕ) (id : Option ℕ) → Keeps (check_brand c id)
unfolding check_brand
check_brand-Keeps c none = record { at = λ s. refl }
check_brand-Keeps c (some id) = record { at = λ s. ground arith }

pub ruleset leaf_rules = (
  keeps_rules, category_create-Keeps, brand_create-Keeps, unit_create-Keeps, product_create-Keeps,
  variant_create-Keeps, barcode_create-Keeps, image_create-Keeps, category_get-Keeps,
  brand_get-Keeps, product_get-Keeps, variant_get-Keeps, ensure_available_for_company-Keeps,
  renamed-Keeps, check_parent-Keeps, check_category-Keeps, check_brand-Keeps,
)

create_variant-Keeps : (c id : ℕ) (r : ProductVariantInput) → Keeps (create_variant c id r)
unfolding create_variant ProductVariantRepository.get_by_sku
create_variant-Keeps c id r = search leaf_rules depth 10

create_variants-Keeps : (c id : ℕ) (rs : List ProductVariantInput) → Keeps (create_variants c id rs)
unfolding create_variants
create_variants-Keeps c id [] = search keeps_rules
create_variants-Keeps c id (r ∷ rs) =
    Keeps-bind _ _ (create_variant-Keeps c id r)
      λ v. Keeps-bind _ _ (create_variants-Keeps c id rs) λ vs. Keeps-pure _

pub create_product-Keeps : (c : ℕ) (r : ProductCreate) → Keeps (create_product c r)
unfolding create_product ProductRepository.get_by_sku
create_product-Keeps c r = search (leaf_rules, create_variants-Keeps) depth 16

pub update_product-Keeps : (c id v : ℕ) (r : ProductUpdate) → Keeps (update_product c id r v)
unfolding update_product ProductRepository.get_by_id
update_product-Keeps c id v r = search (leaf_rules, Keeps-versioned) depth 12

pub update_variant-Keeps :
    (c id v : ℕ) (r : ProductVariantUpdate) → Keeps (ProductVariantService.update c id r v)
unfolding ProductVariantService.update ProductVariantRepository.get_by_id
update_variant-Keeps c id v r = search (leaf_rules, Keeps-versioned) depth 12

pub add_variant-Keeps :
    (c id : ℕ) (r : ProductVariantInput) → Keeps (ProductVariantService.add_variant c id r)
unfolding ProductVariantService.add_variant ProductRepository.get_by_id
    ProductVariantRepository.get_by_sku
add_variant-Keeps c id r = search leaf_rules depth 16

pub add_barcode-Keeps :
    (c id : ℕ) (r : ProductBarcodeCreate) → Keeps (ProductBarcodeService.add_barcode c id r)
unfolding ProductBarcodeService.add_barcode ProductVariantRepository.get_by_id
    ProductBarcodeRepository.get_by_barcode ProductBarcodeRepository.list_for_variant
add_barcode-Keeps c id r = search leaf_rules depth 16

pub add_image-Keeps :
    (c id : ℕ) (r : ProductImageCreate) → Keeps (ProductImageService.add_image c id r)
unfolding ProductImageService.add_image ProductRepository.get_by_id
    ProductImageRepository.list_for_product
add_image-Keeps c id r = search leaf_rules depth 16

pub create_category-Keeps : (c : ℕ) (r : CategoryCreate) → Keeps (CategoryService.create c r)
unfolding CategoryService.create CategoryRepository.get_by_name
create_category-Keeps c r = search leaf_rules depth 14

pub update_category-Keeps :
    (c id v : ℕ) (r : CategoryUpdate) → Keeps (CategoryService.update c id r v)
unfolding CategoryService.update CategoryRepository.get_by_id
update_category-Keeps c id v r = search (leaf_rules, Keeps-versioned) depth 12

pub create_brand-Keeps : (c : ℕ) (r : BrandCreate) → Keeps (BrandService.create c r)
unfolding BrandService.create BrandRepository.get_by_name
create_brand-Keeps c r = search leaf_rules depth 14

pub update_brand-Keeps : (c id v : ℕ) (r : BrandUpdate) → Keeps (BrandService.update c id r v)
unfolding BrandService.update BrandRepository.get_by_id
update_brand-Keeps c id v r = search (leaf_rules, Keeps-versioned) depth 12

pub create_unit-Keeps : (c : ℕ) (r : UnitCreate) → Keeps (UnitService.create c r)
unfolding UnitService.create UnitRepository.list_available_for_company
create_unit-Keeps c r = search leaf_rules depth 14
