-- ===== src/Csv/Groups.antt =====
-- `parse_products_csv` of backend/app/modules/products_catalog/csv_io.py.
use retail_os.Prelude.Int.{ℤ}
use retail_os.Prelude.Rows.{any, select_all, update_where}
use retail_os.Csv.Numbers.{Number, int_of, decimal_of}
use retail_os.Core.Exceptions.{csv_error, csv_import_error, Exception}
use retail_os.Csv.Wire.{done, broken, next, next, read_rows, Rows, Text}
use retail_os.Csv.Values.{is_empty, text_of, clean, parse_bool, strip_end, strip_start}
use retail_os.Core.Session.{or_raise, raise_if, raise, pure, ◌>>◌, M, ◌>>=◌}
use retail_os.Prelude.{
  ◌+◌, ◌&&◌, false, if◌then◌else◌, some, true, concat, not, ◌++◌, [], str_eq, none, ◌∷◌, Bool,
  Option, List, String, ℕ,
}

pub record ProductImportVariantRow : Type 0 where
  pub line_number : ℕ
  pub variant_sku : String
  pub size : Option String
  pub color : Option String
  pub purchase_price : Number
  pub selling_price : Number
  pub mrp : Option Number

pub record ProductImportGroup : Type 0 where
  pub sku : String
  pub name : String
  pub description : Option String
  pub category : Option String
  pub brand : Option String
  pub unit : String
  pub gender : Option String
  pub season : Option String
  pub age_group : Option String
  pub hsn_code : Option String
  pub tax_percent : Option Number
  pub track_inventory : Bool
  pub allow_negative_stock : Bool
  pub low_stock_threshold : Option ℤ
  pub variants : List ProductImportVariantRow

-- `raw_row.get(column)`. csv.DictReader pairs the columns with the cells; of two columns with one name
-- the later one counts, and a column without a cell is None.
abbrev pub get : List Text → List Text → String → Option Text
get [] cells column = none
get (name ∷ names) [] column = none
get (name ∷ names) (c ∷ cells) column =
    let later = get names cells column in
    if str_eq (text_of name) column && not (any (λ n. str_eq (text_of n) column) names)
    then some c
    else later

-- `f"{column} '{cleaned}' is not a valid {kind}"`
abbrev pub not_valid : ℕ → String → Text → String → Exception
not_valid line_number column cleaned kind =
    csv_import_error line_number
      (concat (column ∷ " '" ∷ text_of cleaned ∷ "' is not a valid " ∷ kind ∷ []))

-- `f"{column} is required"`
abbrev required : ℕ → String → Exception
required line_number column = csv_import_error line_number (concat (column ∷ " is required" ∷ []))

-- `_parse_optional_decimal`
unfoldable pub parse_optional_decimal : ℕ → Option Text → String → M (Option Number)
unfolding ◌>>=◌ decimal_of strip_start strip_end
parse_optional_decimal line_number value column =
    let cleaned = clean value in
    if is_empty cleaned
    then pure none
    else or_raise (decimal_of cleaned) (not_valid line_number column cleaned "number") >>= λ x.
        pure (some x)

-- `_parse_decimal`
unfoldable pub parse_decimal : ℕ → Option Text → String → M Number
unfolding ◌>>=◌ decimal_of strip_start strip_end
parse_decimal line_number value column =
    let cleaned = clean value in
    raise_if (is_empty cleaned) (required line_number column)
    >> or_raise (decimal_of cleaned) (not_valid line_number column cleaned "number")

-- `_parse_optional_int`
unfoldable pub parse_optional_int : ℕ → Option Text → String → M (Option ℤ)
unfolding ◌>>=◌ int_of strip_start strip_end
parse_optional_int line_number value column =
    let cleaned = clean value in
    if is_empty cleaned
    then pure none
    else or_raise (int_of cleaned) (not_valid line_number column cleaned "integer") >>= λ x.
        pure (some x)

abbrev pub has_sku : String → ProductImportGroup → Bool
has_sku sku g = str_eq g.sku sku

-- the cell of a column, cleaned
unfoldable pub cell : List Text → List Text → String → Text
unfolding strip_start strip_end
cell header cells column = clean (get header cells column)

-- `_clean(...) or sku`
abbrev pub or_else : Text → Text → Text
or_else [] t = t
or_else (c ∷ cs) t = c ∷ cs

-- `_none_if_blank`, of a cell that is cleaned
abbrev pub if_given : Text → Option String
if_given [] = none
if_given (c ∷ cs) = some (text_of (c ∷ cs))

unfoldable pub parse_variant : List Text → ℕ → List Text → Text → M ProductImportVariantRow
unfolding cell
parse_variant header line_number cells sku = do
  purchase_price ← parse_decimal line_number (get header cells "purchase_price") "purchase_price"
  selling_price ← parse_decimal line_number (get header cells "selling_price") "selling_price"
  mrp ← parse_optional_decimal line_number (get header cells "mrp") "mrp"
  let variant : ProductImportVariantRow = record {
    line_number = line_number;
    variant_sku = text_of (or_else (cell header cells "variant_sku") sku);
    size = if_given (cell header cells "size");
    color = if_given (cell header cells "color");
    purchase_price = purchase_price;
    selling_price = selling_price;
    mrp = mrp;
  }
  pure variant

-- the group that a row opens
unfoldable pub parse_group : List Text → ℕ → List Text → Text → M ProductImportGroup
unfolding cell parse_bool
parse_group header line_number cells sku = do
  raise_if (is_empty (cell header cells "unit")) (required line_number "unit")
  raise_if (is_empty (cell header cells "name")) (required line_number "name")
  tax_percent ← parse_optional_decimal line_number (get header cells "tax_percent") "tax_percent"
  low_stock_threshold ←
      parse_optional_int line_number (get header cells "low_stock_threshold") "low_stock_threshold"
  let group : ProductImportGroup = record {
    sku = text_of sku;
    name = text_of (cell header cells "name");
    description = if_given (cell header cells "description");
    category = if_given (cell header cells "category");
    brand = if_given (cell header cells "brand");
    gender = if_given (cell header cells "gender");
    season = if_given (cell header cells "season");
    age_group = if_given (cell header cells "age_group");
    hsn_code = if_given (cell header cells "hsn_code");
    unit = text_of (cell header cells "unit");
    tax_percent = tax_percent;
    track_inventory = parse_bool (get header cells "track_inventory") true;
    allow_negative_stock = parse_bool (get header cells "allow_negative_stock") false;
    low_stock_threshold = low_stock_threshold;
    variants = [];
  }
  pure group

-- `group.variants.append(variant)`, for the group of the SKU
abbrev pub append_variant :
    String → ProductImportVariantRow → List ProductImportGroup → List ProductImportGroup
append_variant sku variant groups =
    update_where (has_sku sku) (λ g. record g { variants = g.variants ++ variant ∷ [] }) groups

-- one round of the loop; `groups` are in the order in which they were opened
unfoldable pub parse_row :
    List Text → ℕ → List Text → List ProductImportGroup → M (List ProductImportGroup)
parse_row header line_number cells groups = do
  let sku = cell header cells "sku"
  raise_if (is_empty sku) (required line_number "sku")
  variant ← parse_variant header line_number cells sku
  if any (has_sku (text_of sku)) groups
      then pure (append_variant (text_of sku) variant groups)
      else parse_group header line_number cells sku >>= λ group.
          pure (append_variant (text_of sku) variant (groups ++ group ∷ []))

-- The loop. csv.DictReader passes over rows without a cell, which are not counted.
unfoldable pub parse_rows :
    List Text → ℕ → Rows → List ProductImportGroup → M (List ProductImportGroup)
parse_rows header line_number done groups = pure groups
parse_rows header line_number broken groups = raise csv_error
parse_rows header line_number (next [] rest) groups = parse_rows header line_number rest groups
parse_rows header line_number (next (c ∷ cs) rest) groups =
    parse_row header line_number (c ∷ cs) groups >>= λ groups'.
    parse_rows header (line_number + 1) rest groups'

-- `_REQUIRED_IMPORT_COLUMNS`, sorted
abbrev pub required_columns : List String
required_columns = "name" ∷ "purchase_price" ∷ "selling_price" ∷ "sku" ∷ "unit" ∷ "variant_sku" ∷ []

abbrev pub missing_columns : List Text → List String
missing_columns header =
    select_all (λ column. not (any (λ n. str_eq (text_of n) column) header)) required_columns

abbrev join_names : List String → String
join_names [] = ""
join_names (n ∷ []) = n
join_names (n ∷ m ∷ ns) = concat (n ∷ ", " ∷ join_names (m ∷ ns) ∷ [])

abbrev no_name : List String → Bool
no_name [] = true
no_name _ = false

unfoldable pub parse_table : Rows → M (List ProductImportGroup)
parse_table done = raise (csv_import_error 0 "CSV file has no header row")
parse_table broken = raise csv_error
parse_table (next header rest) =
    let missing = missing_columns header in
    raise_if (not (no_name missing))
      (csv_import_error 0 (concat ("Missing required column(s): " ∷ join_names missing ∷ [])))
    >> parse_rows header 2 rest []

abbrev pub parse_products_csv : Text → M (List ProductImportGroup)
parse_products_csv csv_text = parse_table (read_rows csv_text)
