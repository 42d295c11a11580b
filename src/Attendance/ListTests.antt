-- ===== src/Attendance/ListTests.antt =====
-- The lists of rule B for the sample company.
use mathlib.Core.List.Permᴰ
use attendance_system.Prelude.{◌*◌, ◌≡◌, refl, false, none, some, List, [], ◌∷◌, ok}
use attendance_system.Access.{Role, Claims}
use attendance_system.Time.{day_length}
use attendance_system.User.Rows.{User}
use attendance_system.User.Hierarchy.{in_subtree, scope, in_scope}
use attendance_system.Schedule.Roster.{inputs_on}
use attendance_system.Schedule.Validation.{Span, Range, check_range}
use attendance_system.Schedule.Resolve.{resolve}
use attendance_system.Attendance.Shift.{place}
use attendance_system.Attendance.Service.{Host}
use attendance_system.Attendance.Standing.{Standing, Presence, Filter, staff, status_on, daily}
use attendance_system.Attendance.RuleB.{Stands, status_on-Stands}
use attendance_system.Attendance.Roll.{roll, Listed, daily_lem}
use attendance_system.Samples.{monday, person, company, jakarta, half_past_nine}
use attendance_system.Attendance.Listing.{Selected, InReach}

abbrev office : Host
office = record {
  now = half_past_nine;
  zone = jakarta;
  enforce = false;
  distance = λ lat lng lat' lng'. 0;
  verify = λ user key. ok key;
}

abbrev employee : User
employee = person 1 Role.employee (some 2)

abbrev this_monday : Range
this_monday = record { from = monday; to = monday }

abbrev supervisor_2 : Claims
supervisor_2 = record { user_id = 2; role = Role.supervisor }

-- At half past nine the employee is absent: nine o'clock and ten minutes are over.
absent_by_now : status_on office company none this_monday employee monday ≡ ok Standing.absent
unfolding status_on resolve place inputs_on
absent_by_now = refl

status_on-Stands_example :
    (s : Standing) × (status_on office company none this_monday employee monday ≡ ok s)
    × Stands office company none this_monday employee monday s
status_on-Stands_example = status_on-Stands office company none this_monday employee monday

abbrev sent_span : Span
sent_span = record { from = monday * day_length; to = monday * day_length }

abbrev everybody : Filter
everybody = record { user_id = none; department_id = none }

span_passes : check_range sent_span ≡ ok this_monday
unfolding check_range
span_passes = refl

daily_lem_example :
    (chosen : List User) × (out : List Presence) × Selected
      (InReach company supervisor_2 this_monday everybody)
      company.users
      chosen
    × (daily office (λ us. us) company supervisor_2 sent_span everybody ≡ ok out)
    × Listed office company (scope supervisor_2) this_monday (roll jakarta this_monday chosen) out
daily_lem_example =
    daily_lem office (λ us. us) company supervisor_2 sent_span everybody this_monday Permᴰ.refl refl
      span_passes

-- The supervisor's list holds the employee below them and nobody else.
roll_runs :
    roll jakarta this_monday (staff company (scope supervisor_2) this_monday everybody)
    ≡ (1, monday) ∷ []
unfolding staff in_scope in_subtree
roll_runs = refl
