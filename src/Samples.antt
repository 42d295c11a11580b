-- ===== src/Samples.antt =====
-- Test data: a company of four people in Jakarta, with one set of hours and two kinds of leave.
use attendance_system.Prelude.{ℕ, ◌+◌, ◌*◌, true, false, Option, none, some, [], ◌∷◌, ok, pos}
use attendance_system.Text.{Text}
use attendance_system.Access.{Role}
use attendance_system.Time.{Instant, Date, minute, day_length, Zone, east_of_utc}
use attendance_system.User.Rows.{User}
use attendance_system.Schedule.Rows.{WorkSchedule}
use attendance_system.Leave.Rows.{LeaveType, Status, Leave}
use attendance_system.Leave.Validation.{Filing}
use attendance_system.Leave.Requests.{Host}
use attendance_system.Db.{Db}

abbrev pub text_a : Text
text_a = b'a' ∷ []

-- 2026-03-02, a Monday.
abbrev pub monday : Date
monday = 739676

abbrev pub office_hours : WorkSchedule
office_hours = record {
  id = 1;
  name = text_a;
  start_time = 540;
  end_time = 1020;
  grace_minutes = 10;
  break_minutes = 60;
  workdays = 1 ∷ 2 ∷ 3 ∷ 4 ∷ 5 ∷ [];
  observes_holidays = true;
  deleted = false;
}

abbrev pub person : ℕ → Role → Option ℕ → User
person id role manager = record {
  id = id;
  email = id ∷ [];
  password_hash = text_a;
  full_name = text_a;
  role = role;
  is_active = true;
  join_date = 739000;
  department_id = none;
  manager_id = manager;
  default_schedule_id = some 1;
  deleted_at = none;
}

abbrev pub annual : LeaveType
annual = record {
  id = 1;
  code = text_a;
  name = text_a;
  quota_days_per_year = some (pos 12);
  max_working_days_per_request = none;
  attachment_required_from_days = none;
  is_paid = true;
  auto_approve = false;
  deleted = false;
}

abbrev pub company : Db
company = record {
  users =
      person 1 Role.employee (some 2)
      ∷ person 2 Role.supervisor (some 3)
      ∷ person 3 Role.hr_admin none
      ∷ person 4 Role.employee none
      ∷ [];
  departments = [];
  refresh_tokens = [];
  work_schedules = office_hours ∷ [];
  shift_assignments = [];
  holidays = [];
  office_locations = [];
  attendances = [];
  corrections = [];
  leave_types = annual ∷ [];
  leave_balances = [];
  leave_requests = [];
  audit_logs = [];
  next_attendance_id = 1;
  next_correction_id = 1;
  next_leave_type_id = 2;
  next_leave_id = 1;
  next_user_id = 5;
  next_department_id = 1;
  next_schedule_id = 2;
  next_assignment_id = 1;
  next_holiday_id = 1;
  next_location_id = 1;
}

abbrev pub jakarta : Zone
jakarta = east_of_utc 420

-- 09:30 in Jakarta on that Monday.
abbrev pub half_past_nine : Instant
half_past_nine = monday * day_length + 150 * minute

abbrev pub leave_host : Host
leave_host = record { now = half_past_nine; zone = jakarta; verify = λ user key. ok key }

-- Tuesday to Thursday.
abbrev pub three_days : Filing
three_days = record {
  kind = text_a;
  start_date = (monday + 1) * day_length;
  end_date = (monday + 3) * day_length;
  reason = text_a;
  attachment_key = none;
}

abbrev pub filed : Leave
filed = record {
  id = 1;
  user_id = 1;
  leave_type_id = 1;
  start_date = monday + 1;
  end_date = monday + 3;
  working_days = 3;
  reason = text_a;
  attachment_key = none;
  attachment_mime = none;
  status = Status.pending;
  reviewed_by = none;
  reviewed_at = none;
  review_note = none;
  cancelled_by = none;
  cancelled_at = none;
}

-- The company after that request.
abbrev pub with_request : Db
with_request = record company { leave_requests = filed ∷ []; next_leave_id = 2 }
