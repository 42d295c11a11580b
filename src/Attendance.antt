-- ===== src/Attendance.antt =====
-- internal/api/server/modules/attendance: check-in and check-out, the daily report, and the
-- corrections that change a work date afterwards.
pub mod Rows
pub mod Shift
pub mod Geofence
pub mod Validation
pub mod Store
pub mod CorrectionStore
pub mod Service
pub mod Corrections
pub mod Standing
pub mod Lateness
pub mod Picking
pub mod Locating
pub mod Effects
pub mod Steps
pub mod Sound
pub mod Closed
pub mod Applying
mod Writing
pub mod Approving
pub mod Deciding
pub mod Proving
pub mod Arrival
pub mod Leaving
pub mod RuleB
pub mod Listing
pub mod Roll
mod Cases
mod Tests
mod ListTests
