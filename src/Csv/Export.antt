-- ===== src/Csv/Export.antt =====
-- `write_products_csv` of backend/app/modules/products_catalog/csv_io.py.
use retail_os.Prelude.Int.{ℤ}
use retail_os.Core.Decimal.{Decimal}
use retail_os.Csv.Values.{chars}
use retail_os.Csv.Numbers.{str_int, str_decimal, str_digits}
use retail_os.Csv.Wire.{write_rows, Text}
use retail_os.Prelude.{none, some, if◌then◌else◌, [], map, ◌∷◌, Option, Bool, List, String}

pub record ProductExportRow : Type 0 where
  pub sku : String
  pub name : String
  pub description : Option String
  pub category : Option String
  pub brand : Option String
  pub unit : String
  pub gender : Option String
  pub season : Option String
  pub age_group : Option String
  pub hsn_code : Option String
  pub tax_percent : Option Decimal
  pub track_inventory : Bool
  pub allow_negative_stock : Bool
  pub low_stock_threshold : Option ℤ
  pub is_active : Bool
  pub variant_sku : String
  pub size : Option String
  pub color : Option String
  pub purchase_price : Decimal
  pub selling_price : Decimal
  pub mrp : Option Decimal

-- `EXPORT_COLUMNS`
abbrev pub export_columns : List String
export_columns =
    "sku" ∷ "name" ∷ "description" ∷ "category" ∷ "brand" ∷ "unit" ∷ "gender" ∷ "season"
    ∷ "age_group" ∷ "hsn_code" ∷ "tax_percent" ∷ "track_inventory" ∷ "allow_negative_stock"
    ∷ "low_stock_threshold" ∷ "is_active" ∷ "variant_sku" ∷ "size" ∷ "color" ∷ "purchase_price"
    ∷ "selling_price" ∷ "mrp" ∷ []

-- `_serialize`, for each type of a column
abbrev write_text : String → Text
write_text s = chars s

abbrev pub write_bool : Bool → Text
write_bool b = chars (if b then "true" else "false")

abbrev pub write_none : {A : Type 0} → (A → Text) → Option A → Text
write_none f none = []
write_none f (some x) = f x

-- the cells of a row, in the order of the columns
unfoldable pub serialize : ProductExportRow → List Text
unfolding str_digits
serialize row =
    write_text row.sku
    ∷ write_text row.name
    ∷ write_none write_text row.description
    ∷ write_none write_text row.category
    ∷ write_none write_text row.brand
    ∷ write_text row.unit
    ∷ write_none write_text row.gender
    ∷ write_none write_text row.season
    ∷ write_none write_text row.age_group
    ∷ write_none write_text row.hsn_code
    ∷ write_none str_decimal row.tax_percent
    ∷ write_bool row.track_inventory
    ∷ write_bool row.allow_negative_stock
    ∷ write_none str_int row.low_stock_threshold
    ∷ write_bool row.is_active
    ∷ write_text row.variant_sku
    ∷ write_none write_text row.size
    ∷ write_none write_text row.color
    ∷ str_decimal row.purchase_price
    ∷ str_decimal row.selling_price
    ∷ write_none str_decimal row.mrp
    ∷ []

abbrev pub table : List ProductExportRow → List (List Text)
table rows = map chars export_columns ∷ map serialize rows

unfoldable pub write_products_csv : List ProductExportRow → Text
unfolding serialize write_rows
write_products_csv rows = write_rows (table rows)
