-- ===== src/Schedule/RosterStore.antt =====
-- The roster's writes in schedule/repository.go: INSERT … ON CONFLICT (user_id, work_date) DO UPDATE
-- of a whole slice, in one transaction with its audit entries.
use attendance_system.Prelude.{
  order_by, ℕ, ◌+◌, Bool, true, not, ◌&&◌, ◌||◌, Option, none, some, List, [], ◌∷◌, ◌++◌, ltb, leb,
  ◌==◌, any, all, keep, find, rewrite, not_found, invalid, Result, ok, ◌>>=◌, ◌>>◌, refuse_if,
  or_error,
}
use attendance_system.Time.{Date}
use attendance_system.Schedule.Rows.{ShiftAssignment}
use attendance_system.Db.{AuditLog, Db}
use attendance_system.Schedule.Roster.{in_range, assignment_on}
use attendance_system.Schedule.Validation.{Range}
use attendance_system.Schedule.Store.{write_audit}

abbrev pub same_slot : ℕ → Date → ShiftAssignment → Bool
same_slot user date a = (a.user_id == user) && (a.work_date == date)

-- One row of the statement, with what RETURNING gives for it: a new row with the next id, or the
-- row that stood with the new schedule and note.
abbrev pub put_row : Option ShiftAssignment → ShiftAssignment → Db → ShiftAssignment × Db
put_row none new db =
    let row : ShiftAssignment = record new { id = db.next_assignment_id } in
    (
      row,
      record db {
        shift_assignments = db.shift_assignments ++ row ∷ [];
        next_assignment_id = db.next_assignment_id + 1;
      },
    )
put_row (some held) new db =
    let row : ShiftAssignment = record held { schedule_id = new.schedule_id; note = new.note } in
    (
      row,
      record db {
        shift_assignments =
            rewrite (same_slot new.user_id new.work_date)
              (λ (a : ShiftAssignment). record a { schedule_id = new.schedule_id; note = new.note })
              db.shift_assignments;
      },
    )

unfoldable pub put_rows : List ShiftAssignment → Db → List ShiftAssignment × Db
put_rows [] db = ([], db)
put_rows (new ∷ more) db =
    let (row, db') = put_row (assignment_on db new.user_id new.work_date) new db in
    let (rows, db'') = put_rows more db' in (row ∷ rows, db'')

-- The foreign keys of the rows.
abbrev pub schedule_exists : Db → Option ℕ → Bool
schedule_exists db none = true
schedule_exists db (some id) = any (λ s. s.id == id) db.work_schedules

abbrev pub refers_to_rows : Db → ShiftAssignment → Bool
refers_to_rows db a = any (λ u. u.id == a.user_id) db.users && schedule_exists db a.schedule_id

-- `lockAssignments`: the rows that the slice replaces.
unfoldable pub lock_assignments : Db → List ShiftAssignment → List ShiftAssignment
lock_assignments db new = keep (λ a. any (same_slot a.user_id a.work_date) new) db.shift_assignments

abbrev pub write_audits : List AuditLog → Db → Db
write_audits entries db = record db { audit_logs = db.audit_logs ++ entries }

abbrev pub audits_of :
    Option (List ShiftAssignment → List AuditLog) → List ShiftAssignment → List AuditLog
audits_of none before = []
audits_of (some audits) before = audits before

unfoldable pub upsert_assignments :
    Db
    → List ShiftAssignment
    → Option (List ShiftAssignment → List AuditLog)
    → Result (List ShiftAssignment × Db)
unfolding put_rows lock_assignments
upsert_assignments db new audits =
    let written = audits_of audits (lock_assignments db new) in
    let (rows, db') = put_rows new db in
    do
      refuse_if (not (all (refers_to_rows db) new))
          (invalid "user_id or schedule_id does not exist")
      ok (rows, write_audits written db')

abbrev pub find_assignment : Db → ℕ → Result ShiftAssignment
find_assignment db id = or_error (find (λ a. a.id == id) db.shift_assignments) not_found

unfoldable pub delete_assignment : Db → ℕ → Option AuditLog → Result Db
delete_assignment db id audit = do
  held ← find_assignment db id
  ok (
      write_audit audit
        (record db { shift_assignments = keep (λ a. not (a.id == id)) db.shift_assignments }))

abbrev by_date_and_user : ShiftAssignment → ShiftAssignment → Bool
by_date_and_user a b =
    ltb a.work_date b.work_date || ((a.work_date == b.work_date) && leb a.user_id b.user_id)

-- `ListAssignments` for one person or for everyone, by date and person.
unfoldable pub assignments_in : Db → Range → Option ℕ → List ShiftAssignment
assignments_in db span user = order_by by_date_and_user (
    keep (λ a. in_range span a.work_date && elim user [ none ↦ true | some u ↦ a.user_id == u ])
      db.shift_assignments)
