-- ===== src/Schedule/Sound.antt =====
-- What the constraints of internal/db/migrations/00004 promise of the planned tables.
use attendance_system.Prelude.{
  ℕ, ◌≡◌, true, false, Option, none, some, List, ◌==◌, All, Pairs, IsTable,
}
use attendance_system.Text.{Text, text_eq}
use attendance_system.Schedule.Rows.{WorkSchedule, ShiftAssignment, Holiday, OfficeLocation}
use attendance_system.Db.{AuditLog, Db}
use attendance_system.Schedule.Store.{schedule_fits, write_audit, location_fits}
use attendance_system.Schedule.RosterMap.{Apart}

module _ (lower : Text → Text) where
  -- Two schedules, and two offices, that are both live have different names but for the case.
  abbrev pub OtherSchedule : WorkSchedule → WorkSchedule → Type 0
  OtherSchedule a b =
      a.deleted ≡ false → b.deleted ≡ false → text_eq (lower a.name) (lower b.name) ≡ false

  abbrev pub OtherLocation : OfficeLocation → OfficeLocation → Type 0
  OtherLocation a b =
      a.deleted ≡ false → b.deleted ≡ false → text_eq (lower a.name) (lower b.name) ≡ false

abbrev pub OtherDay : Holiday → Holiday → Type 0
OtherDay a b = (a.date == b.date) ≡ false

abbrev pub Fits : WorkSchedule → Type 0
Fits s = schedule_fits s ≡ true

abbrev pub OnMap : OfficeLocation → Type 0
OnMap l = location_fits l ≡ true

-- A table of named rows: different ids, live names that differ, columns in their ranges.
pub record Schedules (lower : Text → Text) (next : ℕ) (rows : List WorkSchedule) : Type 0 where
  pub ids : IsTable (λ (s : WorkSchedule). s.id) next rows
  pub names : Pairs (OtherSchedule lower) rows
  pub fit : All Fits rows

pub record Locations (lower : Text → Text) (next : ℕ) (rows : List OfficeLocation) : Type 0 where
  pub ids : IsTable (λ (l : OfficeLocation). l.id) next rows
  pub names : Pairs (OtherLocation lower) rows
  pub fit : All OnMap rows

-- One holiday for each date.
pub record Holidays (next : ℕ) (rows : List Holiday) : Type 0 where
  pub ids : IsTable (λ (h : Holiday). h.id) next rows
  pub one_per_date : Pairs OtherDay rows

-- One row of the roster for each person and date.
pub record Slots (next : ℕ) (rows : List ShiftAssignment) : Type 0 where
  pub ids : IsTable (λ (a : ShiftAssignment). a.id) next rows
  pub one_per_slot : Pairs Apart rows

-- The tables that schedule/service.go writes keep the constraints of the database.
pub record IsSound (lower : Text → Text) (db : Db) : Type 0 where
  pub schedules : Schedules lower db.next_schedule_id db.work_schedules
  pub holidays : Holidays db.next_holiday_id db.holidays
  pub locations : Locations lower db.next_location_id db.office_locations
  pub slots : Slots db.next_assignment_id db.shift_assignments

-- An audit entry changes none of them.
pub write_audit-IsSound :
    (lower : Text → Text) (db : Db) (entry : Option AuditLog)
    → IsSound lower db
    → IsSound lower (write_audit entry db)
write_audit-IsSound lower db none s = s
write_audit-IsSound lower db (some e) s = record {
  schedules = s.schedules;
  holidays = s.holidays;
  locations = s.locations;
  slots = s.slots;
}
