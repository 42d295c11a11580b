-- ===== src/Schedule/Planning.antt =====
-- schedule/service.go: the hours, holidays, offices and roster that hr_admin plans. Where a request
-- carries a date, only its day is read.
use attendance_system.Prelude.{
  order_by, ℕ, min, String, Bool, true, false, not, ◌||◌, Option, none, some, List, ltb, leb, ◌==◌,
  keep, forbidden, conflict, invalid, Result, ok, ◌>>=◌, ◌>>◌, refuse_if, ℤ, pos_part,
}
use attendance_system.Text.{Text}
use attendance_system.Access.{Role, at_least, Claims}
use attendance_system.Time.{Instant, Date, date_only, Zone}
use attendance_system.Schedule.Rows.{WorkSchedule, ShiftAssignment, Holiday, OfficeLocation}
use attendance_system.Db.{Payload, AuditLog, Db}
use attendance_system.Schedule.Roster.{in_range}
use attendance_system.Schedule.Validation.{
  Span, check_range, check_name, check_workdays, check_schedule, check_location,
}
use attendance_system.Schedule.Clock.{parse_clock}
use attendance_system.Schedule.Store.{
  create_schedule, replace_schedule, delete_schedule, schedule_in_use, find_holiday, create_holiday,
  replace_holiday, delete_holiday, create_location, replace_location, delete_location,
}
use attendance_system.Schedule.RosterStore.{assignments_in}

-- What a service call reads besides the database: the time, the company's zone, and how the
-- database's collation lowers a name.
pub record Host : Type 0 where
  pub now : Instant
  pub zone : Zone
  pub lower : Text → Text

abbrev pub today : Host → Date
today host = host.zone.date_in host.now

abbrev pub is_past : Date → Date → Bool
is_past date today = ltb date today

abbrev pub role_only : Role → Claims → Result (Unit {0})
role_only min claims = refuse_if (not (at_least claims.role min)) (forbidden "forbidden")

pub record Hours : Type 0 where
  pub name : Text
  pub start_time : Text
  pub end_time : Text
  pub grace_minutes : ℤ
  pub break_minutes : ℤ
  pub workdays : List ℤ
  pub observes_holidays : Bool

pub record Place : Type 0 where
  pub name : Text
  pub lat : ℤ
  pub lng : ℤ
  pub radius_m : ℤ

unfoldable pub build_schedule : Claims → Hours → Result WorkSchedule
build_schedule claims hours = do
  role_only Role.hr_admin claims
  name ← check_name hours.name
  workdays ← check_workdays hours.workdays
  start ← parse_clock hours.start_time
  end ← parse_clock hours.end_time
  check_schedule start end hours.grace_minutes hours.break_minutes
  ok (record {
    id = 0;
    name = name;
    start_time = start;
    end_time = end;
    grace_minutes = pos_part hours.grace_minutes;
    break_minutes = pos_part hours.break_minutes;
    workdays = workdays;
    observes_holidays = hours.observes_holidays;
    deleted = false;
  })

-- A date that is missing is the zero time.
unfoldable pub build_holiday : Claims → Instant → Text → Result Holiday
build_holiday claims date name = do
  role_only Role.hr_admin claims
  checked ← check_name name
  refuse_if (date == 0) (invalid "date is required")
  ok (record { id = 0; date = date_only date; name = checked })

unfoldable pub build_location : Claims → Place → Result OfficeLocation
build_location claims place = do
  role_only Role.hr_admin claims
  name ← check_name place.name
  check_location place.lat place.lng place.radius_m
  ok (record {
    id = 0;
    name = name;
    lat = place.lat;
    lng = place.lng;
    radius_m = pos_part place.radius_m;
    deleted = false;
  })

-- `Service.CreateSchedule`.
unfoldable pub add_schedule : Host → Db → Claims → Hours → Result (WorkSchedule × Db)
add_schedule host db claims hours = do
  schedule ← build_schedule claims hours
  create_schedule host.lower db schedule

-- `Service.ReplaceSchedule`.
unfoldable pub edit_schedule : Host → Db → Claims → ℕ → Hours → Result (WorkSchedule × Db)
edit_schedule host db claims id hours = do
  schedule ← build_schedule claims hours
  replace_schedule host.lower db (record schedule { id = id })

-- `Service.DeleteSchedule`.
unfoldable pub retire_schedule : Host → Db → Claims → ℕ → Result Db
retire_schedule host db claims id = do
  role_only Role.hr_admin claims
  refuse_if (schedule_in_use db id (today host)) (conflict "the schedule is still in use")
  delete_schedule db id

abbrev pub audit_row : Claims → String → String → ℕ → Payload → Payload → AuditLog
audit_row claims action entity id before after = record {
  actor_id = claims.user_id;
  action = action;
  entity_type = entity;
  entity_id = id;
  before = before;
  after = after;
}

abbrev pub audit_if : Bool → AuditLog → Option AuditLog
audit_if true entry = some entry
audit_if false entry = none

abbrev pub holiday_json : Holiday → Payload
holiday_json h = Payload.holiday h.date h.name

-- `Service.CreateHoliday`.
unfoldable pub add_holiday : Host → Db → Claims → Instant → Text → Result (Holiday × Db)
add_holiday host db claims date name = do
  holiday ← build_holiday claims date name
  create_holiday db holiday (
      audit_if (is_past holiday.date (today host))
        (audit_row claims "holiday.changed" "holiday" 0 Payload.null (holiday_json holiday)))

-- `Service.ReplaceHoliday`.
unfoldable pub edit_holiday : Host → Db → Claims → ℕ → Instant → Text → Result (Holiday × Db)
edit_holiday host db claims id date name = do
  built ← build_holiday claims date name
  let holiday : Holiday = record built { id = id }
  before ← find_holiday db id
  replace_holiday db holiday (
      audit_if (is_past before.date (today host) || is_past holiday.date (today host)) (
        audit_row claims "holiday.changed" "holiday" id (holiday_json before)
          (holiday_json holiday)))

-- `Service.DeleteHoliday`.
unfoldable pub remove_holiday : Host → Db → Claims → ℕ → Result Db
remove_holiday host db claims id = do
  role_only Role.hr_admin claims
  before ← find_holiday db id
  delete_holiday db id (
      audit_if (is_past before.date (today host))
        (audit_row claims "holiday.deleted" "holiday" id (holiday_json before) Payload.null))

-- `Service.CreateLocation`.
unfoldable pub add_location : Host → Db → Claims → Place → Result (OfficeLocation × Db)
add_location host db claims place = do
  location ← build_location claims place
  create_location host.lower db location

-- `Service.ReplaceLocation`.
unfoldable pub edit_location : Host → Db → Claims → ℕ → Place → Result (OfficeLocation × Db)
edit_location host db claims id place = do
  location ← build_location claims place
  replace_location host.lower db (record location { id = id })

-- `Service.DeleteLocation`.
unfoldable pub retire_location : Db → Claims → ℕ → Result Db
retire_location db claims id = do role_only Role.hr_admin claims; delete_location db id

-- The listings; `by_name` is the order "name, id" of the database's collation.
unfoldable pub list_schedules :
    (List WorkSchedule → List WorkSchedule) → Db → Claims → Result (List WorkSchedule)
list_schedules by_name db claims = do
  role_only Role.supervisor claims
  ok (by_name (keep (λ s. not s.deleted) db.work_schedules))

unfoldable pub list_locations :
    (List OfficeLocation → List OfficeLocation) → Db → Claims → Result (List OfficeLocation)
list_locations by_name db claims = do
  role_only Role.supervisor claims
  ok (by_name (keep (λ l. not l.deleted) db.office_locations))

-- `Service.ListHolidays`, by date.
unfoldable pub list_holidays : Db → Claims → Span → Result (List Holiday)
list_holidays db claims sent = do
  role_only Role.supervisor claims
  span ← check_range sent
  ok (order_by (λ h k. leb h.date k.date) (keep (λ h. in_range span h.date) db.holidays))

-- `Service.ListAssignments`.
unfoldable pub list_assignments : Db → Claims → Span → Option ℕ → Result (List ShiftAssignment)
list_assignments db claims sent user = do
  role_only Role.hr_admin claims
  span ← check_range sent
  ok (assignments_in db span user)
