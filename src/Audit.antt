-- ===== src/Audit.antt =====
-- backend/app/modules/audit.
pub mod Models
pub mod AuditService
