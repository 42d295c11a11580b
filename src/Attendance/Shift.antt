-- ===== src/Attendance/Shift.antt =====
-- attendance/shift.go: a work date's hours placed on the clock, and the minutes measured by them.
use attendance_system.Prelude.{
  ℕ, ◌+◌, ◌-◌, ◌*◌, min, Bool, not, ◌&&◌, Option, none, some, List, [], ◌∷◌, ltb, leb,
  if◌then◌else◌, get_elem?, invalid, panicked, Result, ok, err, ℤ, pos, ◌-ℤ◌, min_ℤ, max_ℤ,
}
use attendance_system.Time.{Instant, Date, hour, max_duration, sub_time, whole_minutes, Zone}
use attendance_system.Schedule.Rows.{WorkSchedule, crosses_midnight}
use attendance_system.Schedule.Resolve.{Day}

-- `start` and `end` are Go's zero time where there are no hours.
pub record Shift : Type 0 where
  pub date : Date
  pub hours : Option WorkSchedule
  pub start : Instant
  pub end : Instant

abbrev pub check_in_opens_before : ℕ
check_in_opens_before = 4 * hour

-- `time.Date` with the next day's number is the next date.
unfoldable pub place : Date → Option WorkSchedule → Zone → Shift
place d none zone = record { date = d; hours = none; start = 0; end = 0 }
place d (some s) zone = record {
  date = d;
  hours = some s;
  start = zone.at d s.start_time;
  end = zone.at (if crosses_midnight s then d + 1 else d) s.end_time;
}

-- `now.Sub(t).Abs()`.
unfoldable pub gap : Instant → Instant → ℕ
gap now t = min (if leb t now then now - t else t - now) max_duration

-- The window of a shift, from four hours before its start to its end.
unfoldable pub is_open : Instant → Shift → Bool
is_open now s = not (ltb (now + check_in_opens_before) s.start) && leb now s.end

-- One turn of the loop of `pickShift`, with the best candidate so far.
unfoldable pub better : Instant → Option Shift → Shift → Option Shift
unfolding is_open gap
better now none s = if is_open now s then some s else none
better now (some best) s =
    if is_open now s && ltb (gap now s.start) (gap now best.start) then some s else some best

unfoldable pub nearest : Instant → Zone → Option Shift → List Day → Option Shift
unfolding better place
nearest now zone best [] = best
nearest now zone best (d ∷ ds) =
    let rest = if d.working then better now best (place d.date d.schedule zone) else best in
    nearest now zone rest ds

-- Today, whose check-in may not have opened yet. Only a shift with hours has an opening.
unfoldable pub todays : Instant → Shift → Result Shift
todays now s = elim s.hours [
  | none ↦ ok s
  | some _ ↦
      if ltb (now + check_in_opens_before) s.start
      then err (invalid "check-in for today's %s shift opens at %s")
      else ok s
]

-- `days[1]` of a shorter list panics.
unfoldable pub pick_shift : Instant → Zone → List Day → Result Shift
unfolding nearest todays place
pick_shift now zone days = elim (nearest now zone none days) [
  | some best ↦ ok best
  | none ↦ elim (get_elem? days 1) [
    | none ↦ err panicked
    | some d ↦ todays now (place d.date d.schedule zone)
  ]
]

abbrev pub schedule_id_of : Shift → Option ℕ
schedule_id_of s = elim s.hours [ none ↦ none | some h ↦ some h.id ]

unfoldable pub minutes : Shift → ℤ
unfolding whole_minutes sub_time
minutes s = whole_minutes (sub_time s.end s.start)

unfoldable pub late_minutes : Shift → Instant → ℤ
unfolding whole_minutes sub_time minutes
late_minutes s at = elim s.hours [
  | none ↦ pos 0
  | some h ↦
      min_ℤ (minutes s) (max_ℤ (pos 0) (whole_minutes (sub_time at s.start) -ℤ pos h.grace_minutes))
]

unfoldable pub early_leave_minutes : Shift → Instant → ℤ
unfolding whole_minutes sub_time minutes
early_leave_minutes s at = elim s.hours [
  | none ↦ pos 0
  | some h ↦ min_ℤ (minutes s) (max_ℤ (pos 0) (whole_minutes (sub_time s.end at)))
]
