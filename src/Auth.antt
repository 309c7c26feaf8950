-- ===== src/Auth.antt =====
pub mod Models
pub mod Schemas
pub mod RefreshTokenRepository
pub mod PasswordResetTokenRepository
pub mod AuthService
pub mod Passwords
pub mod Sessions
pub mod Dependencies
pub mod Issuing
pub mod Rotation
pub mod Reuse
pub mod Lockout
pub mod Access
pub mod Checked
pub mod Resetting
pub mod Tests
pub mod SigningIn
