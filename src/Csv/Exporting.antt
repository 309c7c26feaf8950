-- ===== src/Csv/Exporting.antt =====
-- A file that `write_products_csv` of backend/app/modules/products_catalog/csv_io.py writes, as
-- `csv.DictReader` reads it.
use retail_os.Csv.Groups.{get}
use retail_os.Prelude.{true, false}
use retail_os.Csv.Numbers.{str_int, str_decimal}
use retail_os.Prelude.Related.{Related}
use retail_os.Csv.Values.{chars, parse_bool}
use retail_os.Csv.RoundTrip.{read_rows-write_rows, rows_of}
use retail_os.Csv.Wire.{Text, read_rows}
use retail_os.Prelude.Rows.{length, All}
use retail_os.Prelude.{true, refl, none, some, Option, Bool, [], arith, ◌∷◌, map, ◌≡◌, ◌≤◌, List}
use retail_os.Csv.Export.{
  write_bool, write_none, export_columns, table, ProductExportRow, write_products_csv, serialize,
}

wide : (rows : List ProductExportRow) → All (λ r. 2 ≤ length r) (map serialize rows)
unfolding serialize
wide [] = tt
wide (row ∷ rows) = (omega arith, wide rows)

-- the cell of a column that may be empty
abbrev pub IsCell : {A : Type 0} → (A → Text) → Option A → Option Text → Type 0
IsCell write none c = c ≡ some []
IsCell write (some x) c = c ≡ some (write x)

-- A flag, as the import reads it, whatever its default.
abbrev pub IsFlag : Bool → Option Text → Type 0
IsFlag b c = (default : Bool) → parse_bool c default ≡ b

-- Under the name of each column stands the field of the row: a text as it is, a number as `str` writes
-- it, a flag in the words that the import knows, and nothing for None.
pub record IsExported (header : List Text) (row : ProductExportRow) (cells : List Text)
    : Type 0 where
  pub sku : get header cells "sku" ≡ some (chars row.sku)
  pub name : get header cells "name" ≡ some (chars row.name)
  pub description : IsCell chars row.description (get header cells "description")
  pub category : IsCell chars row.category (get header cells "category")
  pub brand : IsCell chars row.brand (get header cells "brand")
  pub unit : get header cells "unit" ≡ some (chars row.unit)
  pub gender : IsCell chars row.gender (get header cells "gender")
  pub season : IsCell chars row.season (get header cells "season")
  pub age_group : IsCell chars row.age_group (get header cells "age_group")
  pub hsn_code : IsCell chars row.hsn_code (get header cells "hsn_code")
  pub tax_percent : IsCell str_decimal row.tax_percent (get header cells "tax_percent")
  pub track_inventory : IsFlag row.track_inventory (get header cells "track_inventory")
  pub allow_negative_stock :
      IsFlag row.allow_negative_stock (get header cells "allow_negative_stock")
  pub low_stock_threshold :
      IsCell str_int row.low_stock_threshold (get header cells "low_stock_threshold")
  pub is_active : IsFlag row.is_active (get header cells "is_active")
  pub variant_sku : get header cells "variant_sku" ≡ some (chars row.variant_sku)
  pub size : IsCell chars row.size (get header cells "size")
  pub color : IsCell chars row.color (get header cells "color")
  pub purchase_price : get header cells "purchase_price" ≡ some (str_decimal row.purchase_price)
  pub selling_price : get header cells "selling_price" ≡ some (str_decimal row.selling_price)
  pub mrp : IsCell str_decimal row.mrp (get header cells "mrp")

written-IsCell :
    {A : Type 0} (write : A → Text) (o : Option A) → IsCell write o (some (write_none write o))
written-IsCell write none = refl
written-IsCell write (some x) = refl

written-IsFlag : (b : Bool) → IsFlag b (some (write_bool b))
unfolding parse_bool
written-IsFlag true = λ default. refl
written-IsFlag false = λ default. refl

abbrev columns : List Text
columns = map chars export_columns

serialize-IsExported : (row : ProductExportRow) → IsExported columns row (serialize row)
unfolding serialize
serialize-IsExported row = record {
  sku = refl;
  name = refl;
  description = written-IsCell chars row.description;
  category = written-IsCell chars row.category;
  brand = written-IsCell chars row.brand;
  unit = refl;
  gender = written-IsCell chars row.gender;
  season = written-IsCell chars row.season;
  age_group = written-IsCell chars row.age_group;
  hsn_code = written-IsCell chars row.hsn_code;
  tax_percent = written-IsCell str_decimal row.tax_percent;
  track_inventory = written-IsFlag row.track_inventory;
  allow_negative_stock = written-IsFlag row.allow_negative_stock;
  low_stock_threshold = written-IsCell str_int row.low_stock_threshold;
  is_active = written-IsFlag row.is_active;
  variant_sku = refl;
  size = written-IsCell chars row.size;
  color = written-IsCell chars row.color;
  purchase_price = refl;
  selling_price = refl;
  mrp = written-IsCell str_decimal row.mrp;
}

serialize-all :
    (rows : List ProductExportRow) → Related (IsExported columns) rows (map serialize rows)
serialize-all [] = tt
serialize-all (row ∷ rows) = (serialize-IsExported row, serialize-all rows)

-- An exported file is read back, whatever characters its texts hold, as a header and one row of cells for
-- each exported row, in order. Under the name of each column, the cells hold that field of the row: a
-- text as it is, a number as `str` writes it, a flag as a word that the import reads as that flag, and
-- the empty text for None.
pub read-write_products_csv :
    (rows : List ProductExportRow)
    → (header : List Text) × (cells : List (List Text)) × (read_rows (write_products_csv rows)
        ≡ rows_of (header ∷ cells))
      × Related (IsExported header) rows cells
unfolding write_products_csv
read-write_products_csv rows = (
  columns,
  map serialize rows,
  read_rows-write_rows (table rows) (omega arith, wide rows),
  serialize-all rows,
)
