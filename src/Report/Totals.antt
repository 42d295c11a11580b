-- ===== src/Report/Totals.antt =====
-- report/service.go and report/validation.go: the days of a report and the totals over them. How a
-- report is written as CSV or PDF is left out.
use attendance_system.Prelude.{
  ℕ, ◌+◌, Bool, false, true, Option, none, some, List, [], ◌∷◌, ◌==◌, if◌then◌else◌, keep, invalid,
  Result, ok, err, ◌>>=◌, ◌>>◌, ℤ, pos, ◌+ℤ◌,
}
use attendance_system.Text.{Text}
use attendance_system.Access.{Claims}
use attendance_system.Time.{Instant, sub_time, whole_minutes}
use attendance_system.User.Rows.{User}
use attendance_system.Schedule.Validation.{Span, days}
use attendance_system.Attendance.Rows.{Attendance}
use attendance_system.Attendance.Standing.{Standing, Presence, Filter, people, daily}
use attendance_system.Db.{Db}
use attendance_system.Attendance.Service.{Host}

-- The status that a query asks for: one of rule B's, or a text that is none of them.
pub data Wanted : Type 0 where
  wanted : Standing → Wanted
  unheard_of : Wanted

pub record Query : Type 0 where
  pub span : Span
  pub filter : Filter
  pub status : Option Wanted

pub record Total : Type 0 where
  pub user_id : ℕ
  pub full_name : Text
  pub department_id : Option ℕ
  pub present : ℕ
  pub late : ℕ
  pub on_leave : ℕ
  pub absent : ℕ
  pub worked_minutes : ℤ

pub record Report : Type 0 where
  pub span : Span
  pub days : List Presence
  pub people : List Total

-- `checkStatus`.
unfoldable pub check_status : Option Wanted → Result (Unit {0})
check_status (some unheard_of) = err (invalid "status %q is not one of %v")
check_status (some (wanted s)) = ok tt
check_status none = ok tt

abbrev pub standing_code : Standing → ℕ
standing_code Standing.present = 0
standing_code Standing.late = 1
standing_code Standing.on_leave = 2
standing_code Standing.holiday = 3
standing_code Standing.off = 4
standing_code Standing.not_yet = 5
standing_code Standing.absent = 6

abbrev pub standing_eq : Standing → Standing → Bool
standing_eq s t = standing_code s == standing_code t

-- `worked`.
abbrev pub minutes_until : Instant → Option Instant → ℤ
minutes_until check_in none = pos 0
minutes_until check_in (some check_out) = whole_minutes (sub_time check_out check_in)

abbrev pub worked_of : Option Attendance → ℤ
worked_of none = pos 0
worked_of (some row) = minutes_until row.check_in_at row.check_out_at

abbrev pub worked : Presence → ℤ
worked day = worked_of day.attendance

abbrev pub started : Presence → Total
started day = record {
  user_id = day.user_id;
  full_name = day.full_name;
  department_id = day.department_id;
  present = 0;
  late = 0;
  on_leave = 0;
  absent = 0;
  worked_minutes = pos 0;
}

abbrev pub one_if : Standing → Presence → ℕ
one_if s day = if standing_eq day.status s then 1 else 0

-- The switch of `totals`, and the minutes after it.
abbrev pub with_day : Presence → Total → Total
with_day day t = record t {
  present = t.present + one_if Standing.present day;
  late = t.late + one_if Standing.late day;
  on_leave = t.on_leave + one_if Standing.on_leave day;
  absent = t.absent + one_if Standing.absent day;
  worked_minutes = t.worked_minutes +ℤ worked day;
}

-- One turn of the loop: the day goes to the last total, or to a new one for another person.
unfoldable pub add_day : List Total → Presence → List Total
add_day [] day = with_day day (started day) ∷ []
add_day (t ∷ []) day =
    if t.user_id == day.user_id then with_day day t ∷ [] else t ∷ with_day day (started day) ∷ []
add_day (t ∷ u ∷ more) day = t ∷ add_day (u ∷ more) day

unfoldable pub totals_from : List Total → List Presence → List Total
unfolding add_day
totals_from people [] = people
totals_from people (day ∷ days) = totals_from (add_day people day) days

unfoldable pub totals : List Presence → List Total
unfolding totals_from
totals days = totals_from [] days

abbrev pub has_status : Option Wanted → Presence → Bool
has_status (some (wanted s)) day = standing_eq day.status s
has_status (some unheard_of) day = false
has_status none day = true

-- `Service.Attendance`.
unfoldable pub attendance_report :
    Host → (List User → List User) → Db → Claims → Query → Result Report
unfolding totals
attendance_report host by_name db claims query = do
  check_status query.status
  days ← daily host by_name db claims query.span query.filter
  let kept = keep (has_status query.status) days
  ok (record { span = query.span; days = kept; people = totals kept })
