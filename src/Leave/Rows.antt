-- ===== src/Leave/Rows.antt =====
-- The rows of leave/repository.go and the balance of rule C.
use attendance_system.Prelude.{ℕ, Bool, Option, ℤ, pos, ◌+ℤ◌, ◌-ℤ◌}
use attendance_system.Text.{Text}
use attendance_system.Time.{Instant, Date}

-- `none` for a rule: the rule does not apply.
pub record LeaveType : Type 0 where
  pub id : ℕ
  pub code : Text
  pub name : Text
  pub quota_days_per_year : Option ℤ
  pub max_working_days_per_request : Option ℤ
  pub attachment_required_from_days : Option ℤ
  pub is_paid : Bool
  pub auto_approve : Bool
  pub deleted : Bool

pub record Quota : Type 0 where
  pub user_id : ℕ
  pub leave_type_id : ℕ
  pub year : ℕ
  pub quota_days : ℤ
  pub carried_over_days : ℤ

-- The four texts that the CHECK on leave_requests.status admits.
pub data Status : Type 0 where
  pending approved rejected cancelled : Status

pub record Leave : Type 0 where
  pub id : ℕ
  pub user_id : ℕ
  pub leave_type_id : ℕ
  pub start_date : Date
  pub end_date : Date
  pub working_days : ℕ
  pub reason : Text
  pub attachment_key : Option Text
  pub attachment_mime : Option Text
  pub status : Status
  pub reviewed_by : Option ℕ
  pub reviewed_at : Option Instant
  pub review_note : Option Text
  pub cancelled_by : Option ℕ
  pub cancelled_at : Option Instant

pub record Balance : Type 0 where
  pub leave_type_id : ℕ
  pub code : Text
  pub name : Text
  pub year : ℕ
  pub quota_days : ℤ
  pub carried_over_days : ℤ
  pub used_days : ℕ
  pub pending_days : ℕ

-- `Balance.RemainingDays`.
unfoldable pub remaining_days : Balance → ℤ
remaining_days b = b.quota_days +ℤ b.carried_over_days -ℤ pos b.used_days -ℤ pos b.pending_days
