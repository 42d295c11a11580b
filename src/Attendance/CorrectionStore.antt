-- ===== src/Attendance/CorrectionStore.antt =====
-- The corrections in attendance/repository.go, with the constraints of
-- internal/db/migrations/00005 that it translates.
use mathlib.Core.List.{reverse}
use attendance_system.Prelude.{
  ℕ, ◌+◌, Bool, true, false, not, ◌&&◌, ◌||◌, Option, none, some, List, [], ◌∷◌, ◌++◌, ltb, ◌==◌,
  if◌then◌else◌, any, keep, find, rewrite, not_found, conflict, invalid, failed, Result, ok, err,
  ◌>>=◌, ◌>>◌, refuse_if, or_error,
}
use attendance_system.Time.{Instant, Date}
use attendance_system.User.Hierarchy.{in_scope}
use attendance_system.Attendance.Validation.{is_given}
use attendance_system.Db.{Db}
use attendance_system.Attendance.Rows.{Attendance, Status, Correction}
use attendance_system.Attendance.Store.{meets_checks, create, held}

abbrev pub is_pending : Status → Bool
is_pending Status.pending = true
is_pending _ = false

-- attendance_corrections_pending_key.
abbrev pub is_pending_of : ℕ → Date → Correction → Bool
is_pending_of user d c = (c.user_id == user) && (c.work_date == d) && is_pending c.status

abbrev pub in_order : Option Instant → Option Instant → Bool
in_order (some check_in) (some check_out) = ltb check_in check_out
in_order _ _ = true

unfoldable pub create_correction : Db → Correction → Result (Correction × Db)
create_correction db new =
    let row = record new { id = db.next_correction_id } in
    if not (is_given row.proposed_check_in_at || is_given row.proposed_check_out_at)
      || not (in_order row.proposed_check_in_at row.proposed_check_out_at)
    then err (failed "check_violation")
    else if is_pending row.status && any (is_pending_of row.user_id row.work_date) db.corrections
    then err (conflict "a correction for that work date is already pending")
    else if any (λ u. u.id == row.user_id) db.users
    then ok (
      row,
      record db {
        corrections = db.corrections ++ row ∷ [];
        next_correction_id = db.next_correction_id + 1;
      },
    )
    else err (invalid "user_id does not exist")

abbrev pub correction_by_id : Db → ℕ → Result Correction
correction_by_id db id = or_error (find (λ c. c.id == id) db.corrections) not_found

-- Newest first.
unfoldable pub corrections_of : Db → ℕ → List Correction
corrections_of db user = reverse (keep (λ c. c.user_id == user) db.corrections)

-- Oldest first.
unfoldable pub pending_corrections : Db → Option ℕ → ℕ → List Correction
pending_corrections db manager decider =
    keep (λ c. is_pending c.status && not (c.user_id == decider) && in_scope db manager c.user_id)
      db.corrections

abbrev pub is_pending_row : ℕ → Correction → Bool
is_pending_row id c = (c.id == id) && is_pending c.status

-- `settle`: the UPDATE … RETURNING of a correction that is still pending.
unfoldable pub settle : Db → ℕ → (Correction → Correction) → Result (Correction × Db)
settle db id decided = elim (find (is_pending_row id) db.corrections) [
  | none ↦ err (conflict "the correction is no longer pending")
  | some c ↦
      ok (decided c, record db { corrections = rewrite (is_pending_row id) decided db.corrections })
]

-- The columns that `Approve` writes on a row that stood.
abbrev pub with_times : Attendance → Attendance → Attendance
with_times next r = record r {
  check_in_at = next.check_in_at;
  check_out_at = next.check_out_at;
  late_minutes = next.late_minutes;
  early_leave_minutes = next.early_leave_minutes;
}

-- The attendance side of `Approve`: a new row, or new times on the row that stood.
unfoldable pub write_times : Db → Option Attendance → Attendance → Result Db
unfolding create
write_times db none next = create db next >>= λ out. ok (out.1)
write_times db (some current) next =
    if any (λ r. (r.id == next.id) && not (meets_checks (with_times next r))) db.attendances
    then err (failed "check_violation")
    else ok (record db {
      attendances = rewrite (λ r. r.id == next.id) (with_times next) db.attendances;
    })

-- `decided` with the times that the approval replaces.
abbrev pub with_old_times : Option Attendance → Correction → Correction
with_old_times none c = c
with_old_times (some current) c = record c {
  old_check_in_at = some current.check_in_at;
  old_check_out_at = current.check_out_at;
}

-- `Approve`: one transaction, in which `apply` makes the new attendance.
unfoldable pub approve :
    Db
    → ℕ
    → (Correction → Correction)
    → (Correction → Option Attendance → Result Attendance)
    → Result (Correction × Db)
unfolding write_times settle
approve db id decided apply = do
  c ← correction_by_id db id
  refuse_if (not (is_pending c.status)) (conflict "the correction is no longer pending")
  next ← apply c (held db c.user_id c.work_date)
  db' ← write_times db (held db c.user_id c.work_date) next
  settle db' id (λ d. with_old_times (held db c.user_id c.work_date) (decided d))
