-- ===== src/Company.antt =====
-- backend/app/modules/company.
pub mod Models
pub mod CompanyRepository
pub mod BranchRepository
pub mod WarehouseRepository
pub mod Schemas
pub mod CompanyService
pub mod BranchService
pub mod WarehouseService
pub mod Updates
pub mod Tests
