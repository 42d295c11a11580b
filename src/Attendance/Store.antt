-- ===== src/Attendance/Store.antt =====
-- attendance/repository.go, with the constraints of internal/db/migrations/00005 that it
-- translates. The check of a coordinate's range is left to the service, which makes it before.
use attendance_system.Prelude.{
  order_by, ℕ, ◌+◌, Bool, true, false, not, ◌&&◌, ◌||◌, Option, none, some, List, [], ◌∷◌, ◌++◌,
  ltb, leb, ◌==◌, if◌then◌else◌, any, keep, find, rewrite, Error, not_found, conflict, invalid,
  failed, Result, ok, err, or_error, pos, leb_ℤ,
}
use attendance_system.Text.{Text, text_eq}
use attendance_system.Time.{Instant, Date}
use attendance_system.Schedule.Validation.{Range}
use attendance_system.Schedule.Roster.{in_range}
use attendance_system.Attendance.Validation.{is_given}
use attendance_system.Db.{Db}
use attendance_system.Attendance.Rows.{Evidence, Attendance}

abbrev pub is_some_key : Option Text → Text → Bool
is_some_key none key = false
is_some_key (some k) key = text_eq k key

abbrev pub same_key : Option Text → Option Text → Bool
same_key held none = false
same_key held (some key) = is_some_key held key

-- num_nulls(…) IN (0, 6): the six columns are filled together.
unfoldable pub is_whole : Evidence → Bool
is_whole e = elim e.lat [
  | some _ ↦ elim e.lng [
    | some _ ↦ elim e.accuracy [
      | some _ ↦ elim e.photo_key [
        | some _ ↦ elim e.within_geofence [
          | some _ ↦ elim e.mock_location [ some _ ↦ true | none ↦ false ]
          | none ↦ false
        ]
        | none ↦ false
      ]
      | none ↦ false
    ]
    | none ↦ false
  ]
  | none ↦ elim e.lng [
    | none ↦ elim e.accuracy [
      | none ↦ elim e.photo_key [
        | none ↦ elim e.within_geofence [
          | none ↦ elim e.mock_location [ none ↦ true | some _ ↦ false ]
          | some _ ↦ false
        ]
        | some _ ↦ false
      ]
      | some _ ↦ false
    ]
    | some _ ↦ false
  ]
]

-- check_out_at IS NULL OR check_out_at > check_in_at.
abbrev pub leaves_after : Instant → Option Instant → Bool
leaves_after check_in none = true
leaves_after check_in (some check_out) = ltb check_in check_out

-- check_out_at IS NOT NULL OR check_out_photo_key IS NULL.
abbrev pub has_no_loose_photo : Option Instant → Option Text → Bool
has_no_loose_photo none (some _) = false
has_no_loose_photo _ _ = true

-- The CHECK constraints of attendances.
unfoldable pub meets_checks : Attendance → Bool
unfolding is_whole
meets_checks r =
    leb_ℤ (pos 0) r.late_minutes
    && leb_ℤ (pos 0) r.early_leave_minutes
    && leaves_after r.check_in_at r.check_out_at
    && is_whole r.check_in
    && is_whole r.check_out
    && has_no_loose_photo r.check_out_at r.check_out.photo_key

-- UNIQUE (user_id, work_date).
abbrev pub is_of_day : ℕ → Date → Attendance → Bool
is_of_day user d r = (r.user_id == user) && (r.work_date == d)

-- The INSERT: the checks, the unique keys, then the foreign key.
unfoldable pub create : Db → Attendance → Result (Attendance × Db)
create db new =
    let row = record new { id = db.next_attendance_id } in
    if not (meets_checks row)
    then err (failed "check_violation")
    else if any (λ r. same_key r.check_in.photo_key row.check_in.photo_key) db.attendances
        || any (λ r. same_key r.check_out.photo_key row.check_out.photo_key) db.attendances
    then err (invalid "photo_key has already been used")
    else if any (is_of_day row.user_id row.work_date) db.attendances
    then err (conflict "already checked in for that work date")
    else if any (λ u. u.id == row.user_id) db.users
    then ok (
      row,
      record db {
        attendances = db.attendances ++ row ∷ [];
        next_attendance_id = db.next_attendance_id + 1;
      },
    )
    else err (invalid "user_id does not exist")

unfoldable pub photo_key_used : Db → Text → Bool
photo_key_used db key =
    any (λ r. is_some_key r.check_in.photo_key key || is_some_key r.check_out.photo_key key)
      db.attendances

-- The row with the latest check-in, the first of those that came at once.
unfoldable pub latest : List Attendance → Option Attendance
latest [] = none
latest (r ∷ rs) = elim (latest rs) [
  | none ↦ some r
  | some s ↦ if ltb r.check_in_at s.check_in_at then some s else some r
]

no_open_check_in : Error
no_open_check_in = invalid "there is no open check-in recent enough to close; request a correction"

abbrev pub is_open_since : ℕ → Instant → Attendance → Bool
is_open_since user since r =
    (r.user_id == user) && not (is_given r.check_out_at) && leb since r.check_in_at

unfoldable pub open_check_in : Db → ℕ → Instant → Result Attendance
unfolding latest no_open_check_in
open_check_in db user since =
    or_error (latest (keep (is_open_since user since) db.attendances)) no_open_check_in

-- The columns that `CheckOut` writes.
abbrev pub with_check_out : Attendance → Attendance → Attendance
with_check_out row r = record r {
  check_out_at = row.check_out_at;
  check_out = row.check_out;
  early_leave_minutes = row.early_leave_minutes;
}

abbrev pub is_open_row : ℕ → Attendance → Bool
is_open_row id r = (r.id == id) && not (is_given r.check_out_at)

unfoldable pub store_check_out : Db → Attendance → Result Db
unfolding no_open_check_in
store_check_out db row =
    if not (any (is_open_row row.id) db.attendances)
    then err no_open_check_in
    else if any (λ r. is_open_row row.id r && not (meets_checks (with_check_out row r)))
        db.attendances
    then err (failed "check_violation")
    else if any (λ s. same_key s.check_out.photo_key row.check_out.photo_key) db.attendances
    then err (invalid "photo_key has already been used")
    else ok (record db {
      attendances = rewrite (is_open_row row.id) (with_check_out row) db.attendances;
    })

unfoldable pub list_by_user : Db → ℕ → Range → List Attendance
list_by_user db user span =
    order_by (λ r s. leb r.work_date s.work_date)
      (keep (λ r. (r.user_id == user) && in_range span r.work_date) db.attendances)

unfoldable pub attendance_by_id : Db → ℕ → Result Attendance
attendance_by_id db id = or_error (find (λ r. r.id == id) db.attendances) not_found

abbrev pub held : Db → ℕ → Date → Option Attendance
held db user d = find (is_of_day user d) db.attendances

unfoldable pub save_report : Db → ℕ → Date → Text → Instant → Result (Attendance × Db)
save_report db user d content now =
    let reported : Attendance → Attendance =
      λ r. record r { daily_report = some content; daily_report_updated_at = some now } in
    elim (held db user d) [
      | none ↦ err not_found
      | some r ↦ ok (
        reported r,
        record db { attendances = rewrite (is_of_day user d) reported db.attendances },
      )
    ]
