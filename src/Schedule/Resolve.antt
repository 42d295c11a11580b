-- ===== src/Schedule/Resolve.antt =====
-- schedule/resolve.go: rule A for one person on one date.
use attendance_system.Prelude.{
  ℕ, Bool, true, false, ◌&&◌, Option, none, some, any, ◌==◌, if◌then◌else◌,
}
use attendance_system.Text.{Text, is_empty}
use attendance_system.Time.{Date}
use attendance_system.Time.Calendar.{weekday}
use attendance_system.Schedule.Rows.{WorkSchedule, ShiftAssignment}

pub data Reason : Type 0 where
  shift by_default assigned_off holiday not_a_workday : Reason

pub record Day : Type 0 where
  pub date : Date
  pub working : Bool
  pub reason : Reason
  pub schedule : Option WorkSchedule
  pub holiday : Text

-- The empty text is "no holiday".
pub record Inputs : Type 0 where
  pub assignment : Option ShiftAssignment
  pub assigned : Option WorkSchedule
  pub default : Option WorkSchedule
  pub holiday : Text

-- Go counts Sunday as 0; the column has 7.
abbrev pub iso_weekday : Date → ℕ
iso_weekday d = if weekday d == 0 then 7 else weekday d

unfoldable pub works_on : WorkSchedule → Date → Bool
works_on s d = any (λ w. w == iso_weekday d) s.workdays

-- The end of `Resolve`: the schedule that applies, unless an observed holiday turns it off.
unfoldable pub worked_unless_holiday : Date → Text → Reason → WorkSchedule → Day
worked_unless_holiday d name why s =
    if not_empty && s.observes_holidays
    then record { date = d; working = false; reason = holiday; schedule = none; holiday = name }
    else record { date = d; working = true; reason = why; schedule = some s; holiday = name }
  where
    not_empty : Bool
    not_empty = if is_empty name then false else true

unfoldable pub day_off : Date → Text → Reason → Day
day_off d name why = record {
  date = d;
  working = false;
  reason = why;
  schedule = none;
  holiday = name;
}

-- The switch of `Resolve`, on the roster's entry, its schedule and the person's own.
unfoldable pub choose :
    Date → Text → Option ShiftAssignment → Option WorkSchedule → Option WorkSchedule → Day
unfolding worked_unless_holiday day_off works_on
choose d name (some a) none own = day_off d name assigned_off
choose d name (some a) (some s) own = worked_unless_holiday d name shift s
choose d name none assigned none = day_off d name not_a_workday
choose d name none assigned (some s) =
    if works_on s d then worked_unless_holiday d name by_default s else day_off d name not_a_workday

unfoldable pub resolve : Date → Inputs → Day
unfolding choose
resolve d i = choose d i.holiday i.assignment i.assigned i.default
