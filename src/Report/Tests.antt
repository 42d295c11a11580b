-- ===== src/Report/Tests.antt =====
-- A report on the sample company.
use attendance_system.Prelude.{
  ◌*◌, ◌≡◌, refl, false, none, some, List, [], ◌∷◌, keep, ok, pos, ◌+ℤ◌,
}
use attendance_system.Access.{Role, Claims}
use attendance_system.Time.{day_length}
use attendance_system.User.Hierarchy.{in_subtree, in_scope}
use attendance_system.Schedule.Resolve.{resolve}
use attendance_system.Schedule.Roster.{inputs_on}
use attendance_system.Attendance.Shift.{place}
use attendance_system.Report.Totals.{
  Wanted, Query, Report, check_status, add_day, totals, has_status, attendance_report,
}
use attendance_system.Report.Sums.{Adds, attendance_report-Adds}
use attendance_system.Samples.{text_a, monday, company, jakarta, half_past_nine}
use attendance_system.Attendance.Service.{Host}
use attendance_system.Schedule.Validation.{check_range}
use attendance_system.Attendance.Standing.{
  Standing, Presence, staff, standing, status_on, presence_on, dates_of, standings, daily,
}
use attendance_system.Report.Runs.{runs, total_ids, day_ids}

abbrev office : Host
office = record {
  now = half_past_nine;
  zone = jakarta;
  enforce = false;
  distance = λ lat lng lat' lng'. 0;
  verify = λ user key. ok key;
}

abbrev supervisor_2 : Claims
supervisor_2 = record { user_id = 2; role = Role.supervisor }

abbrev this_monday : Query
this_monday = record {
  span = record { from = monday * day_length; to = monday * day_length };
  filter = record { user_id = none; department_id = none };
  status = some (Wanted.wanted Standing.absent);
}

-- The employee has not come by half past nine.
abbrev missing : Presence
missing = record {
  user_id = 1;
  full_name = text_a;
  department_id = none;
  date = monday;
  status = Standing.absent;
  attendance = none;
}

abbrev monday_report : Report
monday_report = record {
  span = this_monday.span;
  days = missing ∷ [];
  people =
      record {
        user_id = 1;
        full_name = text_a;
        department_id = none;
        present = 0;
        late = 0;
        on_leave = 0;
        absent = 1;
        worked_minutes = pos 0;
      }
      ∷ [];
}

report_runs :
    attendance_report office (λ us. us) company supervisor_2 this_monday ≡ ok monday_report
unfolding attendance_report check_status daily staff standings dates_of presence_on status_on
    standing resolve place inputs_on check_range in_scope in_subtree totals add_day ◌+ℤ◌
report_runs = refl

attendance_report-Adds_example :
    (days : List Presence) × (daily office
        (λ us. us)
        company
        supervisor_2
        this_monday.span
        this_monday.filter
      ≡ ok days)
    × (monday_report.days ≡ keep (has_status this_monday.status) days)
    × (total_ids monday_report.people ≡ runs (day_ids monday_report.days))
    × Adds 1 monday_report.days monday_report.people
attendance_report-Adds_example =
    attendance_report-Adds office (λ us. us) company supervisor_2 this_monday monday_report 1
      report_runs
