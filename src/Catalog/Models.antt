-- ===== src/Catalog/Models.antt =====
-- backend/app/modules/products_catalog/models.py: the tables of the catalogue. The columns of
-- SyncMixin and AuditMixin, and the time stamps of the rows, which no code reads, are left out.
use retail_os.Prelude.{ℕ, String, Bool, Option}
use retail_os.Prelude.Int.{ℤ}
use retail_os.Core.Time.{DateTime}
use retail_os.Core.Decimal.{Decimal}

pub data ProductGender : Type 0 where
  men women kids unisex : ProductGender

pub data BarcodeType : Type 0 where
  ean13 upc_a code128 internal : BarcodeType

pub record Category : Type 0 where
  pub id : ℕ
  pub company_id : ℕ
  pub name : String
  pub parent_category_id : Option ℕ
  pub description : Option String
  pub image_url : Option String
  pub display_order : ℤ
  pub is_active : Bool
  pub deleted_at : Option DateTime
  pub version : ℕ

pub record Brand : Type 0 where
  pub id : ℕ
  pub company_id : ℕ
  pub name : String
  pub logo_url : Option String
  pub description : Option String
  pub is_active : Bool
  pub deleted_at : Option DateTime
  pub version : ℕ

-- `company_id` is `none` for a system default, which every company shares.
pub record ProductUnit : Type 0 where
  pub id : ℕ
  pub company_id : Option ℕ
  pub name : String
  pub abbreviation : String
  pub is_system : Bool
  pub deleted_at : Option DateTime
  pub version : ℕ

pub record Product : Type 0 where
  pub id : ℕ
  pub company_id : ℕ
  pub sku : String
  pub name : String
  pub description : Option String
  pub category_id : Option ℕ
  pub brand_id : Option ℕ
  pub base_unit_id : ℕ
  pub gender : Option ProductGender
  pub season : Option String
  pub age_group : Option String
  pub hsn_code : Option String
  pub tax_percent : Option Decimal
  pub has_variants : Bool
  pub track_inventory : Bool
  pub allow_negative_stock : Bool
  pub low_stock_threshold : Option ℤ
  pub is_active : Bool
  pub deleted_at : Option DateTime
  pub version : ℕ

pub record ProductVariant : Type 0 where
  pub id : ℕ
  pub company_id : ℕ
  pub product_id : ℕ
  pub sku : String
  pub size : Option String
  pub color : Option String
  pub variant_name : Option String
  pub purchase_price : Decimal
  pub selling_price : Decimal
  pub mrp : Option Decimal
  pub is_active : Bool
  pub deleted_at : Option DateTime
  pub version : ℕ

pub record ProductBarcode : Type 0 where
  pub id : ℕ
  pub company_id : ℕ
  pub product_variant_id : ℕ
  pub barcode : String
  pub barcode_type : BarcodeType
  pub is_primary : Bool
  pub deleted_at : Option DateTime

pub record ProductImage : Type 0 where
  pub id : ℕ
  pub company_id : ℕ
  pub product_id : ℕ
  pub image_url : String
  pub display_order : ℤ
  pub is_primary : Bool
