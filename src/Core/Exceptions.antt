-- ===== src/Core/Exceptions.antt =====
-- backend/app/core/exceptions.py and backend/app/common/response.py: the exceptions of the
-- application, and the response that the registered handlers give for each.
use retail_os.Prelude.{
  str_eq, concat, if◌then◌else◌, ℕ, String, Bool, false, Option, none, some, List, [], ◌∷◌,
}

-- The subclasses of `AppException`.
pub data ExceptionKind : Type 0 where
  not_found : ExceptionKind
  validation_failed : ExceptionKind
  conflict : ExceptionKind
  unauthorized : ExceptionKind
  permission_denied : ExceptionKind
  tenant_mismatch : ExceptionKind

pub record AppException : Type 0 where
  pub kind : ExceptionKind
  pub message : String
  pub field : Option String

-- What a request can raise: an `AppException`, `InvalidTokenError`, the driver's IntegrityError (a
-- unique or foreign key is violated) and DataError (a number is out of its column's range),
-- pydantic's ValidationError, RuntimeError, ValueError, csv.Error, and `CsvImportError` of
-- backend/app/modules/products_catalog/csv_io.py with its line and message.
pub data Exception : Type 0 where
  app : AppException → Exception
  invalid_token : Exception
  integrity_error : Exception
  data_error : Exception
  validation_error : Exception
  runtime_error : Exception
  value_error : Exception
  csv_error : Exception
  csv_import_error : ℕ → String → Exception

unfoldable pub status_code : ExceptionKind → ℕ
status_code not_found = 404
status_code validation_failed = 422
status_code conflict = 409
status_code unauthorized = 401
status_code permission_denied = 403
status_code tenant_mismatch = 403

unfoldable pub code : ExceptionKind → String
code not_found = "not_found"
code validation_failed = "validation_failed"
code conflict = "conflict"
code unauthorized = "unauthorized"
code permission_denied = "permission_denied"
code tenant_mismatch = "tenant_mismatch"

pub record ErrorItem : Type 0 where
  pub error_code : String
  pub error_field : Option String
  pub detail : Option String

pub record ErrorResponse : Type 0 where
  pub status : ℕ
  pub success : Bool
  pub message : String
  pub errors : List ErrorItem

-- `error_envelope`, with the status beside it.
abbrev pub error_envelope : ℕ → String → List ErrorItem → ErrorResponse
error_envelope status message errors = record {
  status = status;
  success = false;
  message = message;
  errors = errors;
}

abbrev pub unexpected : String
unexpected = "An unexpected error occurred. Please try again or contact support."

-- `handle_app_exception` for the application's own exceptions, `handle_unhandled_exception` for all
-- others. `request_id` is the one in the state of the request.
unfoldable pub error_response : Option String → Exception → ErrorResponse
unfolding status_code code
error_response request_id (app e) =
    error_envelope (status_code e.kind) e.message
      (record { error_code = code e.kind; error_field = e.field; detail = some e.message } ∷ [])
error_response request_id _ = error_envelope 500 unexpected (
    record {
      error_code = "internal_error";
      error_field = none;
      detail = elim request_id [
        | none ↦ none
        | some id ↦ if str_eq id "" then none else some (concat ("request_id=" ∷ id ∷ []))
      ];
    }
    ∷ [])

abbrev pub not_found_exception : String → Exception
not_found_exception m = app (record { kind = not_found; message = m; field = none })

abbrev pub validation_exception : String → Exception
validation_exception m = app (record { kind = validation_failed; message = m; field = none })

-- the exception for one field of the request
abbrev pub field_exception : String → String → Exception
field_exception m f = app (record { kind = validation_failed; message = m; field = some f })

abbrev pub conflict_exception : String → Exception
conflict_exception m = app (record { kind = conflict; message = m; field = some "version" })

abbrev pub unauthorized_exception : String → Exception
unauthorized_exception m = app (record { kind = unauthorized; message = m; field = none })

abbrev pub permission_denied_exception : String → Exception
permission_denied_exception m = app (record { kind = permission_denied; message = m; field = none })
