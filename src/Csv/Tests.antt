-- ===== src/Csv/Tests.antt =====
-- Cells and files of backend/app/modules/products_catalog/csv_io.py on which the theorems are run.
use retail_os.Prelude.Related.{Related}
use retail_os.Csv.Collecting.{parse_products_csv-Parsed, Parsed}
use retail_os.Csv.Exporting.{IsExported, read-write_products_csv}
use retail_os.Csv.RoundTrip.{rows_of}
use retail_os.Core.Db.{empty_db}
use retail_os.Core.Decimal.{Decimal}
use retail_os.Csv.Groups.{
  parse_products_csv, ProductImportGroup, cell, parse_optional_int, parse_optional_decimal,
  parse_decimal, parse_group, parse_variant, parse_row, parse_rows, parse_table,
}
use retail_os.Core.Session.{err, ok, ◌>>=◌, start, Session}
use retail_os.Csv.Wire.{Text, read_rows}
use retail_os.Csv.Export.{write_products_csv, ProductExportRow}
use retail_os.Prelude.{map, List, [], ◌∷◌, ℕ, ◌≡◌, refl, some, none, true, false}
use retail_os.Prelude.Int.{pos, negsuc}
use retail_os.Csv.Values.{chars, parse_bool}
use retail_os.Csv.Numbers.{decimal_of, finite, str_decimal, str_digits, int_of}

price :
    decimal_of (chars "+1_299.50e0") ≡ some (finite (record { unscaled = pos 129950; scale = 2 }))
unfolding decimal_of
price = refl

written : str_decimal (record { unscaled = negsuc 4; scale = 2 }) ≡ chars "-0.05"
unfolding str_digits
written = refl

flag : parse_bool (some (chars " Yes ")) false ≡ true
unfolding parse_bool
flag = refl

threshold : (int_of (chars "1_0") ≡ some (pos 10)) × (int_of (chars "1__0") ≡ none)
unfolding int_of
threshold = (refl, refl)

abbrev cents : ℕ → Decimal
cents n = record { unscaled = pos n; scale = 2 }

abbrev cap : ProductExportRow
cap = record {
  sku = "CAP";
  name = "Cap, \"blue\"";
  description = some "two\nlines";
  category = none;
  brand = none;
  unit = "pc";
  gender = none;
  season = none;
  age_group = none;
  hsn_code = none;
  tax_percent = none;
  track_inventory = true;
  allow_negative_stock = false;
  low_stock_threshold = some (pos 3);
  is_active = true;
  variant_sku = "CAP-B";
  size = none;
  color = none;
  purchase_price = cents 850;
  selling_price = cents 1200;
  mrp = none;
}

read-write_products_csv_example :
    (header : List Text) × (cells : List (List Text)) × (read_rows
        (write_products_csv (cap ∷ cap ∷ []))
      ≡ rows_of (header ∷ cells))
    × Related (IsExported header) (cap ∷ cap ∷ []) cells
read-write_products_csv_example = read-write_products_csv (cap ∷ cap ∷ [])

abbrev pub file : Text
file =
    chars
      "sku,name,unit,variant_sku,purchase_price,selling_price\r\nCAP,Cap,pc,CAP-R,8,12\r\nSHIRT,Shirt,pc,,5,9.50\r\nCAP,,,CAP-B,8,12\r\n"

abbrev idle : Session
idle = start 1000 100 empty_db

abbrev groups : List ProductImportGroup
groups = elim (parse_products_csv file idle).0 [ ok gs ↦ gs | err e ↦ [] ]

parse_products_csv-Parsed_example : (idle ≡ idle) × Parsed (read_rows file) groups
unfolding parse_table parse_rows parse_row parse_variant parse_group parse_decimal
    parse_optional_decimal parse_optional_int cell decimal_of int_of parse_bool read_rows ◌>>=◌
parse_products_csv-Parsed_example = parse_products_csv-Parsed file idle refl

skus : map (λ g. g.sku) groups ≡ "CAP" ∷ "SHIRT" ∷ []
unfolding parse_table parse_rows parse_row parse_variant parse_group parse_decimal
    parse_optional_decimal parse_optional_int cell decimal_of int_of parse_bool read_rows ◌>>=◌
skus = refl
