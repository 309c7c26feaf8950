-- ===== src/Catalog/Views.antt =====
-- The responses of backend/app/modules/products_catalog/schemas.py, each with the `model_validate` that
-- builds it from a row.
use retail_os.Prelude.{ℕ, String, Bool, Option, List}
use retail_os.Prelude.Int.{ℤ}
use retail_os.Core.Decimal.{Decimal}
use retail_os.Catalog.Models.{
  ProductGender, BarcodeType, Category, Brand, ProductUnit, Product, ProductVariant, ProductBarcode,
  ProductImage,
}

pub record CategoryRead : Type 0 where
  pub id : ℕ
  pub company_id : ℕ
  pub name : String
  pub parent_category_id : Option ℕ
  pub description : Option String
  pub image_url : Option String
  pub display_order : ℤ
  pub is_active : Bool
  pub version : ℕ

abbrev pub read_category : Category → CategoryRead
read_category x = record {
  id = x.id;
  company_id = x.company_id;
  name = x.name;
  parent_category_id = x.parent_category_id;
  description = x.description;
  image_url = x.image_url;
  display_order = x.display_order;
  is_active = x.is_active;
  version = x.version;
}

pub record BrandRead : Type 0 where
  pub id : ℕ
  pub company_id : ℕ
  pub name : String
  pub logo_url : Option String
  pub description : Option String
  pub is_active : Bool
  pub version : ℕ

abbrev pub read_brand : Brand → BrandRead
read_brand x = record {
  id = x.id;
  company_id = x.company_id;
  name = x.name;
  logo_url = x.logo_url;
  description = x.description;
  is_active = x.is_active;
  version = x.version;
}

pub record UnitRead : Type 0 where
  pub id : ℕ
  pub company_id : Option ℕ
  pub name : String
  pub abbreviation : String
  pub is_system : Bool

abbrev pub read_unit : ProductUnit → UnitRead
read_unit x = record {
  id = x.id;
  company_id = x.company_id;
  name = x.name;
  abbreviation = x.abbreviation;
  is_system = x.is_system;
}

pub record ProductVariantRead : Type 0 where
  pub id : ℕ
  pub company_id : ℕ
  pub product_id : ℕ
  pub sku : String
  pub size : Option String
  pub color : Option String
  pub variant_name : Option String
  pub purchase_price : Decimal
  pub selling_price : Decimal
  pub mrp : Option Decimal
  pub is_active : Bool
  pub version : ℕ

abbrev pub read_variant : ProductVariant → ProductVariantRead
read_variant x = record {
  id = x.id;
  company_id = x.company_id;
  product_id = x.product_id;
  sku = x.sku;
  size = x.size;
  color = x.color;
  variant_name = x.variant_name;
  purchase_price = x.purchase_price;
  selling_price = x.selling_price;
  mrp = x.mrp;
  is_active = x.is_active;
  version = x.version;
}

pub record ProductRead : Type 0 where
  pub id : ℕ
  pub company_id : ℕ
  pub sku : String
  pub name : String
  pub description : Option String
  pub category_id : Option ℕ
  pub brand_id : Option ℕ
  pub base_unit_id : ℕ
  pub gender : Option ProductGender
  pub season : Option String
  pub age_group : Option String
  pub hsn_code : Option String
  pub tax_percent : Option Decimal
  pub has_variants : Bool
  pub track_inventory : Bool
  pub allow_negative_stock : Bool
  pub low_stock_threshold : Option ℤ
  pub is_active : Bool
  pub version : ℕ

abbrev pub read_product : Product → ProductRead
read_product x = record {
  id = x.id;
  company_id = x.company_id;
  sku = x.sku;
  name = x.name;
  description = x.description;
  category_id = x.category_id;
  brand_id = x.brand_id;
  base_unit_id = x.base_unit_id;
  gender = x.gender;
  season = x.season;
  age_group = x.age_group;
  hsn_code = x.hsn_code;
  tax_percent = x.tax_percent;
  has_variants = x.has_variants;
  track_inventory = x.track_inventory;
  allow_negative_stock = x.allow_negative_stock;
  low_stock_threshold = x.low_stock_threshold;
  is_active = x.is_active;
  version = x.version;
}

pub record ProductBarcodeRead : Type 0 where
  pub id : ℕ
  pub company_id : ℕ
  pub product_variant_id : ℕ
  pub barcode : String
  pub barcode_type : BarcodeType
  pub is_primary : Bool

abbrev pub read_barcode : ProductBarcode → ProductBarcodeRead
read_barcode x = record {
  id = x.id;
  company_id = x.company_id;
  product_variant_id = x.product_variant_id;
  barcode = x.barcode;
  barcode_type = x.barcode_type;
  is_primary = x.is_primary;
}

pub record ProductImageRead : Type 0 where
  pub id : ℕ
  pub company_id : ℕ
  pub product_id : ℕ
  pub image_url : String
  pub display_order : ℤ
  pub is_primary : Bool

abbrev pub read_image : ProductImage → ProductImageRead
read_image x = record {
  id = x.id;
  company_id = x.company_id;
  product_id = x.product_id;
  image_url = x.image_url;
  display_order = x.display_order;
  is_primary = x.is_primary;
}

pub record ProductWithVariantsRead : Type 0 where
  pub product : ProductRead
  pub variants : List ProductVariantRead
