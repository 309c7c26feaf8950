-- ===== src/Catalog/Schemas.antt =====
-- backend/app/modules/products_catalog/schemas.py: the requests on the catalogue. What pydantic asks of
-- the fields holds of a request that reaches a service.
use retail_os.Prelude.{ℕ, String, Bool, Option, List}
use retail_os.Prelude.Int.{ℤ}
use retail_os.Core.Decimal.{Decimal}
use retail_os.Catalog.Models.{ProductGender, BarcodeType}

pub record CategoryCreate : Type 0 where
  pub name : String
  pub parent_category_id : Option ℕ
  pub description : Option String
  pub image_url : Option String
  pub display_order : ℤ

pub record CategoryUpdate : Type 0 where
  pub name : Option (Option String)
  pub parent_category_id : Option (Option ℕ)
  pub description : Option (Option String)
  pub image_url : Option (Option String)
  pub display_order : Option (Option ℤ)
  pub is_active : Option (Option Bool)

pub record BrandCreate : Type 0 where
  pub name : String
  pub logo_url : Option String
  pub description : Option String

pub record BrandUpdate : Type 0 where
  pub name : Option (Option String)
  pub logo_url : Option (Option String)
  pub description : Option (Option String)
  pub is_active : Option (Option Bool)

pub record UnitCreate : Type 0 where
  pub name : String
  pub abbreviation : String

pub record ProductVariantInput : Type 0 where
  pub sku : String
  pub size : Option String
  pub color : Option String
  pub purchase_price : Decimal
  pub selling_price : Decimal
  pub mrp : Option Decimal

pub record ProductVariantUpdate : Type 0 where
  pub size : Option (Option String)
  pub color : Option (Option String)
  pub purchase_price : Option (Option Decimal)
  pub selling_price : Option (Option Decimal)
  pub mrp : Option (Option Decimal)
  pub is_active : Option (Option Bool)

pub record ProductCreate : Type 0 where
  pub sku : String
  pub name : String
  pub description : Option String
  pub category_id : Option ℕ
  pub brand_id : Option ℕ
  pub base_unit_id : ℕ
  pub gender : Option ProductGender
  pub season : Option String
  pub age_group : Option String
  pub hsn_code : Option String
  pub tax_percent : Option Decimal
  pub track_inventory : Bool
  pub allow_negative_stock : Bool
  pub low_stock_threshold : Option ℤ
  pub has_variants : Bool
  pub purchase_price : Decimal
  pub selling_price : Decimal
  pub mrp : Option Decimal
  pub variants : List ProductVariantInput

pub record ProductUpdate : Type 0 where
  pub name : Option (Option String)
  pub description : Option (Option String)
  pub category_id : Option (Option ℕ)
  pub brand_id : Option (Option ℕ)
  pub gender : Option (Option ProductGender)
  pub season : Option (Option String)
  pub age_group : Option (Option String)
  pub hsn_code : Option (Option String)
  pub tax_percent : Option (Option Decimal)
  pub track_inventory : Option (Option Bool)
  pub allow_negative_stock : Option (Option Bool)
  pub low_stock_threshold : Option (Option ℤ)
  pub is_active : Option (Option Bool)

pub record ProductBarcodeCreate : Type 0 where
  pub barcode : String
  pub barcode_type : BarcodeType
  pub is_primary : Bool

pub record ProductImageCreate : Type 0 where
  pub image_url : String
  pub display_order : ℤ
  pub is_primary : Bool
