-- ===== src/Auth.antt =====
-- The module internal/api/server/modules/auth: sessions.
pub mod Rows
pub mod Store
pub mod Attempts
pub mod Service
pub mod Steps
pub mod Spent
pub mod Rotation
pub mod OneUse
pub mod Reuse
pub mod SignIn
pub mod Entry
pub mod Limits
pub mod Lockout
pub mod Tries
mod Tests
