-- ===== src/Catalog/ImportAtomic.antt =====
-- The import of a file, `import_company_products` of
-- backend/app/modules/products_catalog/service.py, commits nothing by itself.
use retail_os.Csv.Grouping.{
  parse_optional_int-reads, parse_optional_decimal-reads, parse_decimal-reads,
}
use retail_os.Catalog.Endpoints.Files.{rescued}
use retail_os.Csv.Wire.{read_rows, Rows, done, broken, next}
use retail_os.Catalog.Atomic.{create_product-Keeps, leaf_rules}
use retail_os.Csv.Groups.{
  parse_table, parse_rows, parse_row, parse_group, parse_variant, parse_optional_int,
  parse_optional_decimal, parse_decimal, ProductImportGroup,
}
use retail_os.Core.Keeps.{
  Keeps-raise_if, Keeps-raise, Keeps-reads, Keeps-bind, Keeps-pure, keeps_rules, Keeps,
}
use retail_os.Core.Session.{err, ok, Result, Session, M}
use retail_os.Csv.Wire.{Text}
use retail_os.Catalog.ProductCsvService.{
  import_company_products, undone, if_found, import_groups, import_group, import_one_group,
  parse_gender, resolve_unit, resolve_brand_id, resolve_category_id, nested,
}
use retail_os.Prelude.{◌+◌, [], ◌∙◌, ◌∷◌, refl, ◌≡◌, none, List, some, arith, ℕ, String, Option}
use retail_os.Core.Exceptions.{
  Exception, app, invalid_token, integrity_error, data_error, validation_error, runtime_error,
  value_error, csv_error, csv_import_error,
}
use retail_os.Catalog.CategoryRepository
use retail_os.Catalog.BrandRepository
use retail_os.Catalog.ProductRepository

if_found-Keeps :
    {A B : Type 0} (o : Option A) (f : A → M B) (m : M B)
    → ((a : A) → Keeps (f a))
    → Keeps m
    → Keeps (if_found o f m)
if_found-Keeps none f m k h = record { at = λ s. h.at s }
if_found-Keeps (some a) f m k h = record { at = λ s. (k a).at s }

undone-saved : (sku : String) (e : Exception) (s : Session) → (undone sku e s).1.saved ≡ s.saved
undone-saved sku (app e) s = refl
undone-saved sku invalid_token s = refl
undone-saved sku integrity_error s = refl
undone-saved sku data_error s = refl
undone-saved sku validation_error s = refl
undone-saved sku runtime_error s = refl
undone-saved sku value_error s = refl
undone-saved sku csv_error s = refl
undone-saved sku (csv_import_error line message) s = refl

nested-Keeps : (sku : String) (m : M (Unit {0})) → Keeps m → Keeps (nested sku m)
unfolding nested
nested-Keeps sku m k = record { at = λ s. let (r, s₁) = m s in go r s s₁ (k.at s) }
  where
    go :
        (r : Result (Unit {0})) (s s₁ : Session)
        → s₁.saved ≡ s.saved
        → (nested sku (λ _. (r, s₁)) s).1.saved ≡ s.saved
    go (ok _) s s₁ e = e
    go (err x) s s₁ e = undone-saved sku x (record s₁ { db = s.db }) ∙ e

resolve_category_id-Keeps : (c : ℕ) (name : Option String) → Keeps (resolve_category_id c name)
unfolding resolve_category_id CategoryRepository.get_by_name
resolve_category_id-Keeps c none = search keeps_rules
resolve_category_id-Keeps c (some name) = search (leaf_rules, if_found-Keeps) depth 12

resolve_brand_id-Keeps : (c : ℕ) (name : Option String) → Keeps (resolve_brand_id c name)
unfolding resolve_brand_id BrandRepository.get_by_name
resolve_brand_id-Keeps c none = search keeps_rules
resolve_brand_id-Keeps c (some name) = search (leaf_rules, if_found-Keeps) depth 12

resolve_unit-Keeps : (c : ℕ) (name : String) → Keeps (resolve_unit c name)
unfolding resolve_unit
resolve_unit-Keeps c name = record { at = λ s. ground arith }

parse_gender-Keeps : (g : Option String) → Keeps (parse_gender g)
unfolding parse_gender
parse_gender-Keeps none = record { at = λ s. refl }
parse_gender-Keeps (some g) = record { at = λ s. ground arith }

import_one_group-Keeps : (c : ℕ) (g : ProductImportGroup) → Keeps (import_one_group c g)
unfolding import_one_group
import_one_group-Keeps c g =
    search
      (
        keeps_rules, resolve_category_id-Keeps, resolve_brand_id-Keeps, resolve_unit-Keeps,
        parse_gender-Keeps, create_product-Keeps,
      )
      depth 16

import_group-Keeps : (c : ℕ) (g : ProductImportGroup) → Keeps (import_group c g)
unfolding import_group ProductRepository.get_by_sku
import_group-Keeps c g = search (keeps_rules, nested-Keeps, import_one_group-Keeps) depth 8

import_groups-Keeps : (c : ℕ) (gs : List ProductImportGroup) → Keeps (import_groups c gs)
unfolding import_groups
import_groups-Keeps c [] = Keeps-pure []
import_groups-Keeps c (g ∷ gs) =
    Keeps-bind _ _ (import_group-Keeps c g)
      λ r. Keeps-bind _ _ (import_groups-Keeps c gs) λ rs. Keeps-pure _

decimal-Keeps :
    (n : ℕ) (value : Option Text) (column : String) → Keeps (parse_decimal n value column)
decimal-Keeps n value column = Keeps-reads _ (parse_decimal-reads n value column)

optional_decimal-Keeps :
    (n : ℕ) (value : Option Text) (column : String) → Keeps (parse_optional_decimal n value column)
optional_decimal-Keeps n value column = Keeps-reads _ (parse_optional_decimal-reads n value column)

optional_int-Keeps :
    (n : ℕ) (value : Option Text) (column : String) → Keeps (parse_optional_int n value column)
optional_int-Keeps n value column = Keeps-reads _ (parse_optional_int-reads n value column)

ruleset cell_rules = (keeps_rules, decimal-Keeps, optional_decimal-Keeps, optional_int-Keeps)

parse_variant-Keeps :
    (header : List Text) (n : ℕ) (cells : List Text) (sku : Text)
    → Keeps (parse_variant header n cells sku)
unfolding parse_variant
parse_variant-Keeps header n cells sku = search cell_rules depth 10

parse_group-Keeps :
    (header : List Text) (n : ℕ) (cells : List Text) (sku : Text)
    → Keeps (parse_group header n cells sku)
unfolding parse_group
parse_group-Keeps header n cells sku = search cell_rules depth 10

parse_row-Keeps :
    (header : List Text) (n : ℕ) (cells : List Text) (gs : List ProductImportGroup)
    → Keeps (parse_row header n cells gs)
unfolding parse_row
parse_row-Keeps header n cells gs =
    search (keeps_rules, parse_variant-Keeps, parse_group-Keeps) depth 10

parse_rows-Keeps :
    (header : List Text) (n : ℕ) (rows : Rows) (gs : List ProductImportGroup)
    → Keeps (parse_rows header n rows gs)
unfolding parse_rows
parse_rows-Keeps header n done gs = Keeps-pure gs
parse_rows-Keeps header n broken gs = Keeps-raise csv_error
parse_rows-Keeps header n (next [] rest) gs = parse_rows-Keeps header n rest gs
parse_rows-Keeps header n (next (c ∷ cs) rest) gs =
    Keeps-bind _ _ (parse_row-Keeps header n (c ∷ cs) gs)
      λ gs'. parse_rows-Keeps header (n + 1) rest gs'

parse-Keeps : (rows : Rows) → Keeps (parse_table rows)
unfolding parse_table
parse-Keeps done = Keeps-raise _
parse-Keeps broken = Keeps-raise csv_error
parse-Keeps (next header rest) =
    Keeps-bind _ _ (Keeps-raise_if _ _) λ _. parse_rows-Keeps header 2 rest []

pub import_company_products-Keeps :
    (c : ℕ) (csv_text : Text) → Keeps (import_company_products c csv_text)
unfolding import_company_products
import_company_products-Keeps c csv_text =
    Keeps-bind _ _ (parse-Keeps (read_rows csv_text)) λ gs. import_groups-Keeps c gs

pub rescued-Keeps : {A : Type 0} (m : M A) → Keeps m → Keeps (rescued m)
unfolding rescued
rescued-Keeps {A} m k = record { at = λ s. let (r, s₁) = m s in go r s s₁ (k.at s) }
  where
    go :
        (r : Result A) (s s₁ : Session)
        → s₁.saved ≡ s.saved
        → (rescued (λ _. (r, s₁)) s).1.saved ≡ s.saved
    go (ok a) s s₁ e = e
    go (err x) s s₁ e = e
