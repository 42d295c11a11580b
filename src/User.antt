-- ===== src/User.antt =====
-- internal/api/server/modules/user: the directory and the hierarchy of managers.
pub mod Rows
pub mod Hierarchy
pub mod Below
pub mod Store
pub mod Validation
pub mod Directory
pub mod Moves
pub mod Loops
pub mod Leaver
pub mod Steps
pub mod Tree
pub mod Orderly
pub mod Reachable
pub mod Admins
pub mod Succession
mod Tests
mod TreeTests
