-- ===== src/Leave.antt =====
-- internal/api/server/modules/leave: leave types, yearly quotas, and the requests from filing to
-- decision.
pub mod Rows
pub mod Validation
pub mod TypeStore
pub mod Store
pub mod Requests
pub mod Types
pub mod Inversion
pub mod Checks
pub mod Steps
pub mod Sound
pub mod Lifecycle
pub mod Allowance
pub mod Quotas
pub mod Release
mod Tests
