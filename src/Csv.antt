-- ===== src/Csv.antt =====
-- backend/app/modules/products_catalog/csv_io.py, and what it uses of Python's modules csv and decimal.
pub mod Wire
pub mod RoundTrip
pub mod Values
pub mod Numbers
pub mod Export
pub mod Groups
pub mod Grouping
pub mod Readings
pub mod Collecting
pub mod Exporting
pub mod Tests
