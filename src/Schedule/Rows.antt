-- ===== src/Schedule/Rows.antt =====
-- The rows of schedule/repository.go. What Postgres stamps by itself (created_at, updated_at) is
-- left out; the columns that a CHECK keeps from being negative are natural numbers.
use attendance_system.Prelude.{ℕ, Bool, List, Option, ℤ, leb}
use attendance_system.Text.{Text}
use attendance_system.Time.{Date}

-- Times of day are minutes since midnight; weekdays are ISO, 1 = Monday to 7 = Sunday.
pub record WorkSchedule : Type 0 where
  pub id : ℕ
  pub name : Text
  pub start_time : ℕ
  pub end_time : ℕ
  pub grace_minutes : ℕ
  pub break_minutes : ℕ
  pub workdays : List ℕ
  pub observes_holidays : Bool
  pub deleted : Bool

abbrev pub crosses_midnight : WorkSchedule → Bool
crosses_midnight s = leb s.end_time s.start_time

-- `none` for the schedule is a planned day off.
pub record ShiftAssignment : Type 0 where
  pub id : ℕ
  pub user_id : ℕ
  pub work_date : Date
  pub schedule_id : Option ℕ
  pub note : Text

pub record Holiday : Type 0 where
  pub id : ℕ
  pub date : Date
  pub name : Text

-- The coordinates are millionths of a degree.
pub record OfficeLocation : Type 0 where
  pub id : ℕ
  pub name : Text
  pub lat : ℤ
  pub lng : ℤ
  pub radius_m : ℕ
  pub deleted : Bool
