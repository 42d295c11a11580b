-- ===== src/Schedule.antt =====
-- internal/api/server/modules/schedule: hours, roster, holidays and offices, and rule A, which says
-- whether a date is a working day for a person.
pub mod Rows
pub mod Clock
pub mod Validation
pub mod Resolve
pub mod Roster
pub mod Rule
pub mod Plan
pub mod ClockText
pub mod Checked
pub mod Weekdays
pub mod Store
pub mod RosterStore
pub mod Planning
pub mod Assigning
pub mod RosterMap
pub mod RosterAudit
pub mod Steps
pub mod Sound
pub mod SoundSchedules
pub mod SoundLocations
pub mod SoundRoster
pub mod Reached
pub mod Rostered
pub mod Fitting
mod Tests
mod PlanTests
