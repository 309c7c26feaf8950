-- ===== src/Core.antt =====
-- backend/app/core and backend/app/common: the exceptions, the database that the modules share, and
-- the session of one request.
pub mod Exceptions
pub mod Time
pub mod Decimal
pub mod Db
pub mod Session
pub mod Ensures
pub mod Versioned
pub mod Config
pub mod Security
pub mod Keeps
pub mod Optimistic
pub mod Returns
pub mod Refused
pub mod Envelope
