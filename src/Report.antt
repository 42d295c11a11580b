-- ===== src/Report.antt =====
-- The module internal/api/server/modules/report: a span's days and each person's totals.
pub mod Totals
mod Runs
pub mod Sums
mod Tests
