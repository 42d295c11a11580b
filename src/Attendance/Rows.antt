-- ===== src/Attendance/Rows.antt =====
-- The rows of attendance/repository.go.
use attendance_system.Prelude.{ℕ, Bool, Option, none, ℤ}
use attendance_system.Text.{Text}
use attendance_system.Time.{Date, Instant}

-- Coordinates are millionths of a degree, the accuracy is in millimetres.
pub record Evidence : Type 0 where
  pub lat : Option ℤ
  pub lng : Option ℤ
  pub accuracy : Option ℤ
  pub photo_key : Option Text
  pub location_id : Option ℕ
  pub within_geofence : Option Bool
  pub mock_location : Option Bool

-- `Evidence{}`: nothing was proved.
abbrev pub no_evidence : Evidence
no_evidence = record {
  lat = none;
  lng = none;
  accuracy = none;
  photo_key = none;
  location_id = none;
  within_geofence = none;
  mock_location = none;
}

-- A check-in at instant 0 is Go's zero time, "no check-in".
pub record Attendance : Type 0 where
  pub id : ℕ
  pub user_id : ℕ
  pub work_date : Date
  pub schedule_id : Option ℕ
  pub check_in_at : Instant
  pub check_out_at : Option Instant
  pub check_in : Evidence
  pub check_out : Evidence
  pub late_minutes : ℤ
  pub early_leave_minutes : ℤ
  pub daily_report : Option Text
  pub daily_report_updated_at : Option Instant

-- The four texts that the CHECK on attendance_corrections.status admits.
pub data Status : Type 0 where
  pending approved rejected cancelled : Status

pub record Correction : Type 0 where
  pub id : ℕ
  pub user_id : ℕ
  pub work_date : Date
  pub requested_by : ℕ
  pub proposed_check_in_at : Option Instant
  pub proposed_check_out_at : Option Instant
  pub old_check_in_at : Option Instant
  pub old_check_out_at : Option Instant
  pub reason : Text
  pub status : Status
  pub reviewed_by : Option ℕ
  pub reviewed_at : Option Instant
  pub review_note : Option Text
