-- ===== src/Lib.antt =====
-- The backend of RetailOS, a server for retail shops on FastAPI and PostgreSQL: backend/app.
--
-- A request runs in one database session (core/db.py), which is committed when the endpoint returns
-- and rolled back when it raises. The endpoint authenticates the caller and checks a permission
-- (modules/auth/dependencies.py), and calls a service; the services of the modules call each
-- other's repositories in the same session and write to one audit trail. The database is a record
-- of tables, each the list of its rows; a coroutine is an action on the session, a function from
-- the session to a result and the next session, in a monad with do blocks; an exception is a value.
--
-- - Prelude: the library's names, tests on numbers and texts, Python's integers, tables as lists,
--   and the fields of an update (model_dump with exclude_unset).
-- - Core: exceptions and their responses (core/exceptions.py, common/response.py), the database,
--   the session and get_db_session (core/db.py), tokens and hashes (core/security.py), the settings
--   (core/config.py). Versioned is the conditional update that the services write out for each
--   table. Ensures, Keeps and Returns hold the rules by which the other proofs walk through an
--   action.
-- - Company, Users, Audit: modules/company, modules/users_roles_permissions and modules/audit. A file
--   per class, with the class's name; the methods keep theirs, and `update` takes the version that the
--   client has seen.
-- - Catalog: modules/products_catalog, in the same way. ProductService.create is create_product in
--   Creation and its update is update_product in Changes; Schemas and Views are the requests and the
--   responses of schemas.py. Endpoints are those of api.py, and Requests runs the ones that write
--   under get_db_session. ProductCsvService and ProductCsvExport are the import and the export of
--   files; an import runs each group of rows in a savepoint (nested). Invariant, Creating, Additions,
--   Updates, Primary, Serving, Upkeep and Importing are what the catalogue promises.
-- - Csv: modules/products_catalog/csv_io.py. Wire is Python's csv in its dialect "excel": the writer,
--   and the state machine of the reader. Values, Numbers, Groups and Export are the functions of
--   csv_io.py on cells, numbers, rows and files; RoundTrip, Exporting, Grouping, Readings and
--   Collecting are what they promise.
-- - Inventory: modules/inventory. receive and issue are stock_in and stock_out; Statements and
--   Effects say what a statement and a movement do; Upkeep, Ledger, Conservation, Legs, Policy,
--   Success, Atomic and Reading are what the operations promise. Cursors and History are list_page with its
--   cursors, Endpoints the endpoints of api.py, and Calls those that write, with their callers; Paging
--   and Listing are what the pages promise. The codecs of a cursor (isoformat, UUID, base64) are a
--   record of functions.
-- - Auth: modules/auth. Lockout, Rotation, Reuse, Issuing, SigningIn, Resetting and Access are what
--   login, refresh, the reset of a password and the dependencies promise.
-- - Signup: the signup of modules/company/api.py, which goes through the services of three modules.
--   The endpoint builds a UserCreate, so pydantic's checks of it stand in the model; what EmailStr
--   makes of an address is an argument.
--
-- A UUID is a number, drawn from a supply in the session in place of uuid4. An instant is a number
-- of microseconds; one request sees one instant, for datetime.now as for the database's now. An
-- integer is unbounded as in Python, and a column of type INTEGER refuses what 32 bits do not hold.
-- A text column's length and the formats that pydantic checks are not modelled: an endpoint's
-- arguments have passed them. Orders of texts are by bytes, and the ILIKE of a search is an argument.
-- A Decimal is an unscaled integer with a scale, or one of the values that are no numbers; a column of
-- type NUMERIC refuses what it cannot hold, and the rounding to its scale is left out. The text of a
-- file that is uploaded is an argument, none where it is not UTF-8. An object that the session has
-- loaded is the row it came from, and a change of it writes the changed columns. PyJWT, argon2, hashlib
-- and secrets are a record of functions, Libraries, that the definitions take as an argument. No
-- function of the program needs fuel, since all its loops run over lists; only `visit` of
-- Inventory/Paging, a client of the pages, is given a number of requests.
--
-- Requests are served one after the other. Within PostgreSQL the row locks make a statement on a
-- balance one step, and that is how it is modelled; interleavings of transactions are not. Left out
-- are the wiring of FastAPI, logging, the migrations, the dashboard, the limit on the length of a CSV
-- field, digits outside ASCII, and the client in frontend.
pub mod Audit
pub mod Auth
pub mod Catalog
pub mod Company
pub mod Core
pub mod Csv
pub mod Inventory
pub mod Prelude
pub mod Signup
pub mod Users
