-- ===== src/Attendance/Standing.antt =====
-- attendance/whosin.go: where everybody stands on a date (rule B).
use attendance_system.Prelude.{
  ℕ, zero, suc, ◌+◌, ◌-◌, ◌*◌, Bool, true, false, not, ◌&&◌, Option, none, some, List, [], ◌∷◌,
  ◌++◌, ltb, leb, ◌==◌, if◌then◌else◌, any, keep, find, forbidden, panicked, Result, ok, err, ◌>>=◌,
  ◌>>◌, refuse_if, pos, ltb_ℤ,
}
use attendance_system.Text.{Text}
use attendance_system.Access.{Role, at_least, Claims}
use attendance_system.Time.{Instant, Date, minute, date_only, midnight, Zone}
use attendance_system.User.Rows.{User}
use attendance_system.User.Hierarchy.{is_live, scope, in_scope}
use attendance_system.Schedule.Validation.{Span, Range, check_range}
use attendance_system.Schedule.Resolve.{Day, resolve}
use attendance_system.Schedule.Roster.{inputs_on}
use attendance_system.Attendance.Shift.{place}
use attendance_system.Attendance.Service.{Host}
use attendance_system.Db.{Db}
use attendance_system.Attendance.Rows.{Attendance}
use attendance_system.Attendance.Store.{is_of_day}
use attendance_system.Leave.Rows.{Leave, Status}
use attendance_system.Leave.Store.{status_eq}

pub data Standing : Type 0 where
  present late on_leave holiday off not_yet absent : Standing

pub record Presence : Type 0 where
  pub user_id : ℕ
  pub full_name : Text
  pub department_id : Option ℕ
  pub date : Date
  pub status : Standing
  pub attendance : Option Attendance

-- `none` does not narrow.
pub record Filter : Type 0 where
  pub user_id : Option ℕ
  pub department_id : Option ℕ

-- `Repository.People`, before the order by name: employed and active on that date.
unfoldable pub people : Db → Option ℕ → Date → List User
people db manager d =
    keep (λ u. is_live u && u.is_active && leb u.join_date d && in_scope db manager u.id) db.users

abbrev pub narrows_user : Option ℕ → User → Bool
narrows_user none u = true
narrows_user (some id) u = u.id == id

abbrev pub narrows_department : Option ℕ → Option ℕ → Bool
narrows_department none held = true
narrows_department (some id) none = false
narrows_department (some id) (some held) = held == id

-- deleted_at IS NULL OR deleted_at >= the day before the span.
abbrev pub not_gone_before : Date → User → Bool
not_gone_before from u = elim u.deleted_at [ none ↦ true | some at ↦ leb (midnight (from - 1)) at ]

-- `Repository.Staff`, before the order by name: employed at any point of the span.
unfoldable pub staff : Db → Option ℕ → Range → Filter → List User
staff db manager span filter =
    keep
      (λ u.
        leb u.join_date span.to
        && not_gone_before span.from u
        && in_scope db manager u.id
        && narrows_user filter.user_id u
        && narrows_department filter.department_id u.department_id)
      db.users

-- `attended`, from `Repository.Within`; one row at most is of a person's date.
abbrev pub attended : Db → Option ℕ → ℕ → Date → Option Attendance
attended db manager user d =
    find (is_of_day user d) (keep (λ r. in_scope db manager r.user_id) db.attendances)

-- `away`, from `Repository.LeaveWithin`.
abbrev pub away : Db → Option ℕ → Range → ℕ → List Leave
away db manager span user =
    keep
      (λ r.
        status_eq r.status Status.approved
        && leb r.start_date span.to
        && leb span.from r.end_date
        && in_scope db manager r.user_id
        && (r.user_id == user))
      db.leave_requests

abbrev pub covered : List Leave → Date → Bool
covered leaves d = any (λ (r : Leave). leb r.start_date d && leb d r.end_date) leaves

abbrev pub is_named : Text → Bool
is_named [] = false
is_named (c ∷ s) = true

-- `standing`: a working day without hours would panic.
unfoldable pub standing : Day → Instant → Zone → Result Standing
standing day at zone =
    if day.working
    then elim day.schedule [
      | none ↦ err panicked
      | some hours ↦
          let start = (place day.date (some hours) zone).start in
          ok (if ltb at (start + hours.grace_minutes * minute) then not_yet else absent)
    ]
    else ok (if is_named day.holiday then holiday else off)

abbrev pub standing_of_row : Attendance → Standing
standing_of_row row = if ltb_ℤ (pos 0) row.late_minutes then late else present

-- The chain of ifs in the loop of `standings`.
unfoldable pub status_on : Host → Db → Option ℕ → Range → User → Date → Result Standing
unfolding standing
status_on host db manager span member d = elim (attended db manager member.id d) [
  | some row ↦ ok (standing_of_row row)
  | none ↦
      if covered (away db manager span member.id) d
      then ok on_leave
      else standing (resolve d (inputs_on db member.id member.default_schedule_id d)) host.now
          host.zone
]

abbrev pub is_gone : Zone → Date → User → Bool
is_gone zone d u = elim u.deleted_at [ none ↦ false | some at ↦ ltb (zone.date_in at) d ]

abbrev pub is_employed : Zone → Date → User → Bool
is_employed zone d u = not (ltb d u.join_date) && not (is_gone zone d u)

unfoldable pub presence_on : Host → Db → Option ℕ → Range → User → Date → Result Presence
unfolding status_on
presence_on host db manager span member d = status_on host db manager span member d >>= λ s.
    ok (record {
      user_id = member.id;
      full_name = member.full_name;
      department_id = member.department_id;
      date = d;
      status = s;
      attendance = attended db manager member.id d;
    })

-- The loop over the dates of one person, with the number of dates left.
unfoldable pub dates_of : Host → Db → Option ℕ → Range → User → ℕ → Date → Result (List Presence)
unfolding presence_on
dates_of host db manager span member zero d = ok []
dates_of host db manager span member (suc left) d =
    let rest = dates_of host db manager span member left (d + 1) in
    if is_employed host.zone d member
    then (presence_on host db manager span member d >>= λ p. rest >>= λ ps. ok (p ∷ ps))
    else rest

unfoldable pub standings : Host → Db → Option ℕ → List User → Range → Result (List Presence)
unfolding dates_of
standings host db manager [] span = ok []
standings host db manager (member ∷ members) span =
    let rest = standings host db manager members span in
    dates_of host db manager span member (span.to + 1 - span.from) span.from >>= λ ps.
    rest >>= λ qs. ok (ps ++ qs)

-- `Service.WhosIn`; `by_name` is the order of the database's collation.
unfoldable pub whos_in :
    Host → (List User → List User) → Db → Claims → Instant → Result (List Presence)
unfolding people
whos_in host by_name db claims at =
    if at_least claims.role Role.supervisor
    then standings host db (scope claims) (by_name (people db (scope claims) (date_only at)))
        (record { from = date_only at; to = date_only at })
    else err (forbidden "forbidden")

-- `Service.Daily`.
abbrev pub daily_of :
    Host → (List User → List User) → Db → Option ℕ → Filter → Range → Result (List Presence)
daily_of host by_name db manager filter span =
    standings host db manager (by_name (staff db manager span filter)) span

unfoldable pub daily :
    Host → (List User → List User) → Db → Claims → Span → Filter → Result (List Presence)
unfolding staff standings
daily host by_name db claims sent filter = do
  refuse_if (not (at_least claims.role Role.supervisor)) (forbidden "forbidden")
  span ← check_range sent
  daily_of host by_name db (scope claims) filter span
