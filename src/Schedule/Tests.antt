-- ===== src/Schedule/Tests.antt =====
-- Runs of the schedule module and the theorems at concrete inputs.
use attendance_system.Prelude.{
  ◌+◌, ◌*◌, ◌≡◌, refl, ◌↔◌, true, false, none, some, [], ◌∷◌, arith, ok, pos,
}
use attendance_system.Text.{trim}
use attendance_system.Time.{Date, day_length}
use attendance_system.Schedule.Clock.{parse_clock, clock_text}
use attendance_system.Schedule.ClockText.{parse_clock-clock_text}
use attendance_system.Schedule.Resolve.{Reason, Day, Inputs, resolve}
use attendance_system.Schedule.Rule.{Hours, is_holiday, Off, WorkingDay, resolve-Hours, resolve-Off}
use attendance_system.Schedule.Validation.{Span, check_range, check_workdays, check_schedule}
use attendance_system.Schedule.Checked.{GoodHours, check_schedule-GoodHours}
use attendance_system.Schedule.Weekdays.{GoodWeekdays, check_workdays-GoodWeekdays}
use attendance_system.Schedule.Roster.{plan_days}
use attendance_system.Schedule.Plan.{Planned, plan_days_lem}
use attendance_system.Samples.{monday, office_hours, company}

-- On a Monday without a holiday the employee keeps their own hours.
abbrev free_monday : Inputs
free_monday = record {
  assignment = none;
  assigned = none;
  default = some office_hours;
  holiday = [];
}

monday_works : WorkingDay (resolve monday free_monday) office_hours Reason.by_default
unfolding resolve
monday_works = record { is_working = refl; hours = refl; because = refl }

resolve-Hours_example : WorkingDay (resolve monday free_monday) office_hours Reason.by_default ↔ (
    Hours monday free_monday office_hours Reason.by_default
    × (is_holiday free_monday office_hours ≡ false))
resolve-Hours_example = resolve-Hours monday free_monday office_hours Reason.by_default

-- On the same Monday with a holiday they do not.
abbrev feast : Inputs
feast = record free_monday { holiday = b'F' ∷ [] }

feast_off : (resolve monday feast).working ≡ false
unfolding resolve
feast_off = refl

resolve-Off_example :
    ((resolve monday feast).schedule ≡ none) × Off monday feast (resolve monday feast).reason
resolve-Off_example = resolve-Off monday feast feast_off

abbrev week : Span
week = record { from = monday * day_length; to = (monday + 6) * day_length + 5 }

office_hours_pass : check_schedule 540 1020 (pos 10) (pos 60) ≡ ok tt
unfolding check_schedule
office_hours_pass = refl

check_schedule-GoodHours_example : GoodHours 540 1020 (pos 10) (pos 60)
check_schedule-GoodHours_example =
    check_schedule-GoodHours 540 1020 (pos 10) (pos 60) (omega arith) (omega arith)
      office_hours_pass

weekdays_run : check_workdays (pos 5 ∷ pos 1 ∷ pos 5 ∷ pos 3 ∷ []) ≡ ok (1 ∷ 3 ∷ 5 ∷ [])
unfolding check_workdays
weekdays_run = refl

check_workdays-GoodWeekdays_example :
    GoodWeekdays (pos 5 ∷ pos 1 ∷ pos 5 ∷ pos 3 ∷ []) (1 ∷ 3 ∷ 5 ∷ [])
check_workdays-GoodWeekdays_example =
    check_workdays-GoodWeekdays (pos 5 ∷ pos 1 ∷ pos 5 ∷ pos 3 ∷ []) (1 ∷ 3 ∷ 5 ∷ []) weekdays_run

parse_clock-clock_text_example : parse_clock (clock_text 545) ≡ ok 545
parse_clock-clock_text_example = parse_clock-clock_text 545 (omega arith)

nine_o_clock : parse_clock (b' ' ∷ b'9' ∷ b':' ∷ b'0' ∷ b'5' ∷ []) ≡ ok 545
unfolding parse_clock trim
nine_o_clock = refl

abbrev two_days : Span
two_days = record { from = monday * day_length; to = (monday + 1) * day_length }

abbrev at_work : Date → Day
at_work d = record {
  date = d;
  working = true;
  reason = Reason.by_default;
  schedule = some office_hours;
  holiday = [];
}

plan_days_run : plan_days company 1 two_days ≡ ok (at_work monday ∷ at_work (monday + 1) ∷ [])
unfolding plan_days check_range resolve
plan_days_run = refl

plan_days_lem_example : Planned company 1 two_days (at_work monday ∷ at_work (monday + 1) ∷ [])
plan_days_lem_example =
    plan_days_lem company 1 two_days (at_work monday ∷ at_work (monday + 1) ∷ []) plan_days_run
