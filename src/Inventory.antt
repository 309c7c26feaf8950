-- ===== src/Inventory.antt =====
-- backend/app/modules/inventory.
pub mod Models
pub mod StockLevelRepository
pub mod StockTransferRepository
pub mod StockTransactionRepository
pub mod Cursors
pub mod History
pub mod Paging
pub mod Schemas
pub mod Endpoints
pub mod Calls
pub mod Listing
pub mod HistoryTests
pub mod Service
pub mod Operations
pub mod Balance
pub mod Statements
pub mod Effects
pub mod Lookups
pub mod Posting
pub mod Transferring
pub mod Requests
pub mod Atomic
pub mod Upkeep
pub mod Ledger
pub mod Conservation
pub mod Policy
pub mod Success
pub mod Legs
pub mod Tests
pub mod Reads
pub mod Reading
pub mod ReadingTests
