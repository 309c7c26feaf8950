-- ===== src/Csv/Readings.antt =====
-- What the groups that `parse_products_csv` of backend/app/modules/products_catalog/csv_io.py returns
-- say of the cells of the file.
use retail_os.Core.Exceptions.{Exception}
use retail_os.Core.Ensures.{Ensures-raise_if, Ensures-read, Ensures}
use retail_os.Csv.Numbers.{int_of, decimal_of}
use retail_os.Core.Session.{◌>>=◌, or_raise, pure, Session}
use retail_os.Prelude.Related.{Related}
use retail_os.Prelude.Rows.{any, select_all, All, select_one}
use retail_os.Csv.Values.{is_empty, parse_bool, text_of, clean}
use retail_os.Csv.Groups.{
  or_else, if_given, get, cell, ProductImportGroup, ProductImportVariantRow, parse_decimal,
  parse_optional_decimal, parse_optional_int, parse_variant, parse_group,
}
use retail_os.Csv.Wire.{Text, Rows, done, broken, next}
use retail_os.Prelude.{
  refl, inr, inl, Option-cases, if◌then◌else◌, arith, some, none, str_eq, ◌≡◌, Bool, ◌+◌, String,
  Option, List, ℕ, true, false, [], ◌∷◌,
}

-- a row of cells with the number that the loop gives it
abbrev pub Row : Type 0
Row = ℕ × List Text

-- the rows that have a cell, up to the end of the file
abbrev pub numbered : ℕ → Rows → List Row
numbered n done = []
numbered n broken = []
numbered n (next [] rest) = numbered n rest
numbered n (next (c ∷ cs) rest) = (n, c ∷ cs) ∷ numbered (n + 1) rest

-- the value of a cell under a column's name, without the spaces around it
abbrev pub value : List Text → Row → String → Text
value header row column = clean (get header row.1 column)

-- the row has this SKU
abbrev pub sku_is : List Text → String → Row → Bool
sku_is header sku row = str_eq (text_of (value header row "sku")) sku

-- a value that may be blank
abbrev pub IsText : Text → Option String → Type 0
IsText [] o = o ≡ none
IsText (c ∷ cs) o = o ≡ some (text_of (c ∷ cs))

abbrev pub IsNumber : {A : Type 0} → (Text → Option A) → Text → Option A → Type 0
IsNumber reads [] o = o ≡ none
IsNumber {A} reads (c ∷ cs) o = (x : A) × (reads (c ∷ cs) ≡ some x) × (o ≡ some x)

-- A blank variant SKU stands for the SKU.
abbrev pub IsSku : Text → Text → String → Type 0
IsSku [] sku t = t ≡ text_of sku
IsSku (c ∷ cs) sku t = t ≡ text_of (c ∷ cs)

pub record IsVariant (header : List Text) (row : Row) (v : ProductImportVariantRow) : Type 0 where
  pub line : v.line_number ≡ row.0
  pub variant_sku : IsSku (value header row "variant_sku") (value header row "sku") v.variant_sku
  pub size : IsText (value header row "size") v.size
  pub color : IsText (value header row "color") v.color
  pub purchase_price : decimal_of (value header row "purchase_price") ≡ some v.purchase_price
  pub selling_price : decimal_of (value header row "selling_price") ≡ some v.selling_price
  pub mrp : IsNumber decimal_of (value header row "mrp") v.mrp

pub record IsGroup (header : List Text) (row : Row) (g : ProductImportGroup) : Type 0 where
  pub sku : g.sku ≡ text_of (value header row "sku")
  pub name : g.name ≡ text_of (value header row "name")
  pub unit : g.unit ≡ text_of (value header row "unit")
  pub description : IsText (value header row "description") g.description
  pub category : IsText (value header row "category") g.category
  pub brand : IsText (value header row "brand") g.brand
  pub gender : IsText (value header row "gender") g.gender
  pub season : IsText (value header row "season") g.season
  pub age_group : IsText (value header row "age_group") g.age_group
  pub hsn_code : IsText (value header row "hsn_code") g.hsn_code
  pub tax_percent : IsNumber decimal_of (value header row "tax_percent") g.tax_percent
  pub low_stock_threshold :
      IsNumber int_of (value header row "low_stock_threshold") g.low_stock_threshold
  pub track_inventory : g.track_inventory ≡ parse_bool (get header row.1 "track_inventory") true
  pub allow_negative_stock :
      g.allow_negative_stock ≡ parse_bool (get header row.1 "allow_negative_stock") false

-- Each group is opened by the first row with its SKU and has, in order, one variant for each row with
-- its SKU; the SKUs of the groups are those of the rows.
pub record IsRead (header : List Text) (rows : List Row) (groups : List ProductImportGroup)
    : Type 0 where
  pub fields :
      All
        (λ g.
          (row : Row) × (select_one (sku_is header g.sku) rows ≡ some row) × IsGroup header row g)
        groups
  pub variants :
      All
        (λ g. Related (IsVariant header) (select_all (sku_is header g.sku) rows) g.variants)
        groups
  pub skus : (k : String) → any (sku_is header k) rows ≡ any (λ g. str_eq g.sku k) groups

parse_decimal-Number :
    (n : ℕ) (c : Option Text) (column : String) (s : Session)
    → Ensures (λ x s'. (s' ≡ s) × (decimal_of (clean c) ≡ some x)) (parse_decimal n c column s)
unfolding parse_decimal
parse_decimal-Number n c column s = ground arith

optional-Number :
    {A : Type 0} (reads : Text → Option A) (t : Text) (e : Exception) (s : Session)
    → Ensures
        (λ x s'. (s' ≡ s) × IsNumber reads t x)
        ((if is_empty t then pure none else or_raise (reads t) e >>= λ x. pure (some x)) s)
unfolding ◌>>=◌
optional-Number reads [] e s = (refl, refl)
optional-Number reads (c ∷ cs) e s = elim (Option-cases (reads (c ∷ cs))) [
  | inl none_read ↦ rw none_read tt
  | inr (x, read) ↦ rw read (refl, (x, refl, refl))
]

parse_optional_decimal-Number :
    (n : ℕ) (c : Option Text) (column : String) (s : Session)
    → Ensures
        (λ x s'. (s' ≡ s) × IsNumber decimal_of (clean c) x)
        (parse_optional_decimal n c column s)
unfolding parse_optional_decimal
parse_optional_decimal-Number n c column s = optional-Number decimal_of (clean c) _ s

parse_optional_int-Number :
    (n : ℕ) (c : Option Text) (column : String) (s : Session)
    → Ensures (λ x s'. (s' ≡ s) × IsNumber int_of (clean c) x) (parse_optional_int n c column s)
unfolding parse_optional_int
parse_optional_int-Number n c column s = optional-Number int_of (clean c) _ s

if_given-IsText : (t : Text) → IsText t (if_given t)
if_given-IsText [] = refl
if_given-IsText (c ∷ cs) = refl

or_else-IsSku : (t sku : Text) → IsSku t sku (text_of (or_else t sku))
or_else-IsSku [] sku = refl
or_else-IsSku (c ∷ cs) sku = refl

pub parse_variant-IsVariant :
    (header : List Text) (n : ℕ) (cells : List Text) (s : Session)
    → Ensures
        (λ v s'. (s' ≡ s) × IsVariant header (n, cells) v)
        (parse_variant header n cells (cell header cells "sku") s)
unfolding parse_variant
parse_variant-IsVariant header n cells s =
    let row : Row = (n, cells) in
    let Q = λ (v : ProductImportVariantRow) (s' : Session). (s' ≡ s) × IsVariant header row v in
    Ensures-read Q (λ x. decimal_of (value header row "purchase_price") ≡ some x) _ _ s
      (parse_decimal-Number n _ _ s)
      λ purchase p.
        Ensures-read Q (λ x. decimal_of (value header row "selling_price") ≡ some x) _ _ s
          (parse_decimal-Number n _ _ s)
          λ selling q.
            Ensures-read Q (λ x. IsNumber decimal_of (value header row "mrp") x) _ _ s
              (parse_optional_decimal-Number n _ _ s)
              λ mrp r. (
                refl,
                record {
                  line = refl;
                  variant_sku = or_else-IsSku (value header row "variant_sku") _;
                  size = if_given-IsText (value header row "size");
                  color = if_given-IsText (value header row "color");
                  purchase_price = p;
                  selling_price = q;
                  mrp = r;
                },
              )

pub parse_group-IsGroup :
    (header : List Text) (n : ℕ) (cells : List Text) (s : Session)
    → Ensures
        (λ g s'. (s' ≡ s) × (IsGroup header (n, cells) g × (g.variants ≡ [])))
        (parse_group header n cells (cell header cells "sku") s)
unfolding parse_group
parse_group-IsGroup header n cells s =
    let row : Row = (n, cells) in
    let Q = λ (g : ProductImportGroup) (s' : Session).
      (s' ≡ s) × (IsGroup header row g × (g.variants ≡ [])) in
    Ensures-raise_if Q _ _ _ s λ _. Ensures-raise_if Q _ _ _ s λ _.
      Ensures-read Q (λ x. IsNumber decimal_of (value header row "tax_percent") x) _ _ s
        (parse_optional_decimal-Number n _ _ s)
        λ tax p.
          Ensures-read Q (λ x. IsNumber int_of (value header row "low_stock_threshold") x) _ _ s
            (parse_optional_int-Number n _ _ s)
            λ threshold q. (
              refl,
              (
                record {
                  sku = refl;
                  name = refl;
                  unit = refl;
                  description = if_given-IsText (value header row "description");
                  category = if_given-IsText (value header row "category");
                  brand = if_given-IsText (value header row "brand");
                  gender = if_given-IsText (value header row "gender");
                  season = if_given-IsText (value header row "season");
                  age_group = if_given-IsText (value header row "age_group");
                  hsn_code = if_given-IsText (value header row "hsn_code");
                  tax_percent = p;
                  low_stock_threshold = q;
                  track_inventory = refl;
                  allow_negative_stock = refl;
                },
                refl,
              ),
            )
