-- ===== src/Catalog.antt =====
-- backend/app/modules/products_catalog.
pub mod Models
pub mod Schemas
pub mod Views
pub mod CategoryRepository
pub mod BrandRepository
pub mod UnitRepository
pub mod ProductRepository
pub mod ProductVariantRepository
pub mod ProductBarcodeRepository
pub mod ProductImageRepository
pub mod CategoryService
pub mod BrandService
pub mod UnitService
pub mod Creation
pub mod Creating
pub mod Additions
pub mod ProductService
pub mod Changes
pub mod ProductVariantService
pub mod ProductBarcodeService
pub mod ProductImageService
pub mod Updates
pub mod Primary
pub mod ProductCsvService
pub mod ProductCsvExport
pub mod Endpoints
pub mod Invariant
pub mod GroupsKept
pub mod ProductsKept
pub mod Importing
pub mod Requests
pub mod Serving
pub mod Atomic
pub mod ImportAtomic
pub mod Upkeep
pub mod Tests
pub mod ImportTests
