-- ===== src/Users.antt =====
-- backend/app/modules/users_roles_permissions.
pub mod Models
pub mod UserRepository
pub mod RoleRepository
pub mod PermissionRepository
pub mod Schemas
pub mod UserService
pub mod RbacService
pub mod Grants
pub mod Updates
pub mod Tests
pub mod Branches
pub mod Creating
