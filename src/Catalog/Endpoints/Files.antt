-- ===== src/Catalog/Endpoints/Files.antt =====
-- backend/app/modules/products_catalog/api.py: the export and the import of files.
use retail_os.Catalog.ProductCsvExport.{export_company_products}
use retail_os.Core.Envelope.{success_envelope, SuccessEnvelope}
use retail_os.Catalog.Endpoints.{guarded}
use retail_os.Csv.Wire.{Text}
use retail_os.Csv.Numbers.{str_digits}
use retail_os.Csv.Values.{text_of}
use retail_os.Core.Config.{Settings}
use retail_os.Prelude.Rows.{select_all, length}
use retail_os.Core.Security.{Libraries}
use retail_os.Core.Session.{pure, ◌>>=◌, or_raise, err, ok, M}
use retail_os.Core.Exceptions.{validation_exception, csv_import_error, Exception}
use retail_os.Catalog.ProductCsvService.{
  import_company_products, error, skipped, created, ProductImportRowResult,
}
use retail_os.Prelude.{
  some, ◌==◌, false, if◌then◌else◌, [], true, Option, ◌∷◌, concat, Bool, String, ℕ, List,
}

pub record ImportSummary : Type 0 where
  pub results : List ProductImportRowResult
  pub created_count : ℕ
  pub skipped_count : ℕ
  pub error_count : ℕ

abbrev is_created : ProductImportRowResult → Bool
is_created (created sku) = true
is_created _ = false

abbrev is_skipped : ProductImportRowResult → Bool
is_skipped (skipped sku message) = true
is_skipped _ = false

abbrev is_error : ProductImportRowResult → Bool
is_error (error sku message) = true
is_error _ = false

abbrev pub summary : List ProductImportRowResult → ImportSummary
summary results = record {
  results = results;
  created_count = length (select_all is_created results);
  skipped_count = length (select_all is_skipped results);
  error_count = length (select_all is_error results);
}

abbrev str : ℕ → String
str n = text_of (str_digits n n)

abbrev import_message : ImportSummary → String
import_message x = concat (
    "Import complete: "
    ∷ str x.created_count
    ∷ " created, "
    ∷ str x.skipped_count
    ∷ " skipped, "
    ∷ str x.error_count
    ∷ " errors"
    ∷ [])

-- `except CsvImportError as exc: raise ValidationException(...)`
abbrev pub to_validation : Exception → Exception
to_validation (csv_import_error line_number message) =
    validation_exception (
      if line_number == 0
      then message
      else concat ("Line " ∷ str line_number ∷ ": " ∷ message ∷ []))
to_validation e = e

unfoldable pub rescued : {A : Type 0} → M A → M A
rescued action s =
    let (r, s') = action s in elim r [ ok a ↦ (ok a, s') | err e ↦ (err (to_validation e), s') ]

module _ (libs : Libraries) (settings : Settings) (credentials : Option String) where
  -- the text of the response
  unfoldable pub export_products : (String → String → Bool) → M Text
  export_products matches =
      guarded "products.export" libs settings credentials
        λ company_id. export_company_products matches company_id

  -- `file` is the text that the upload decodes to, or none where it is not UTF-8.
  unfoldable pub import_products : Option Text → M (SuccessEnvelope ImportSummary)
  import_products file = guarded "products.import" libs settings credentials λ company_id.
      or_raise file (validation_exception "File must be UTF-8 encoded CSV text") >>= λ csv_text.
      rescued (import_company_products company_id csv_text) >>= λ results.
      pure (success_envelope (some (summary results)) (import_message (summary results)))
