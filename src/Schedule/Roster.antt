-- ===== src/Schedule/Roster.antt =====
-- The queries of schedule/repository.go that rule A reads, and `Service.Days`, which applies it to
-- every date of a span.
use attendance_system.Prelude.{
  ℕ, zero, suc, ◌+◌, ◌-◌, Bool, ◌&&◌, Option, none, some, List, [], ◌∷◌, leb, ◌==◌, find, not_found,
  Result, ok, err, ◌>>=◌,
}
use attendance_system.Text.{Text}
use attendance_system.Time.{Date}
use attendance_system.User.Hierarchy.{is_live}
use attendance_system.Schedule.Rows.{WorkSchedule, ShiftAssignment}
use attendance_system.Schedule.Resolve.{Day, Inputs, resolve}
use attendance_system.Schedule.Validation.{Span, Range, check_range}
use attendance_system.Db.{Db}

-- BETWEEN, both ends included.
abbrev pub in_range : Range → Date → Bool
in_range r d = leb r.from d && leb d r.to

-- `Repository.DefaultScheduleID`.
unfoldable pub default_schedule_id : Db → ℕ → Result (Option ℕ)
default_schedule_id db user = elim (find (λ u. (u.id == user) && is_live u) db.users) [
  | none ↦ err not_found
  | some u ↦ ok u.default_schedule_id
]

-- `Repository.SchedulesByID` at one id, retired schedules included; the services look up one id
-- at a time in the map that it returns.
abbrev pub schedule_by_id : Db → ℕ → Option WorkSchedule
schedule_by_id db id = find (λ s. s.id == id) db.work_schedules

-- `lookup`: nothing for no id, and for an id that the map does not hold.
abbrev pub lookup : Db → Option ℕ → Option WorkSchedule
lookup db none = none
lookup db (some id) = schedule_by_id db id

-- `byDate[key(date)]` over the person's roster of the span; (user_id, work_date) is unique.
abbrev pub assignment_on : Db → ℕ → Date → Option ShiftAssignment
assignment_on db user d = find (λ a. (a.user_id == user) && (a.work_date == d)) db.shift_assignments

-- `named[key(date)]`, the empty text where no holiday falls; the date is unique.
abbrev pub holiday_name : Db → Date → Text
holiday_name db d = elim (find (λ h. h.date == d) db.holidays) [ none ↦ [] | some h ↦ h.name ]

unfoldable pub inputs_on : Db → ℕ → Option ℕ → Date → Inputs
inputs_on db user own d = record {
  assignment = assignment_on db user d;
  assigned = elim (assignment_on db user d) [ none ↦ none | some a ↦ lookup db a.schedule_id ];
  default = lookup db own;
  holiday = holiday_name db d;
}

-- The loop over the dates, with the number of dates left.
unfoldable pub days_from : Db → ℕ → Option ℕ → ℕ → Date → List Day
unfolding inputs_on
days_from db user own zero d = []
days_from db user own (suc left) d =
    resolve d (inputs_on db user own d) ∷ days_from db user own left (d + 1)

-- `Service.Days`: after `CheckRange` the loop runs once for each date from `from` to `to`.
unfoldable pub plan_days : Db → ℕ → Span → Result (List Day)
unfolding days_from default_schedule_id
plan_days db user span = do
  r ← check_range span
  own ← default_schedule_id db user
  ok (days_from db user own (r.to + 1 - r.from) r.from)
