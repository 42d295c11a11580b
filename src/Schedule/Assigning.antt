-- ===== src/Schedule/Assigning.antt =====
-- `Service.Assign` and `Service.DeleteAssignment` of schedule/service.go, with `checkAssignments` of
-- schedule/validation.go. A slot is a person and a date; its text in the source is the two of them.
use attendance_system.Prelude.{
  ℕ, Bool, ◌&&◌, Option, none, some, List, [], ◌∷◌, map, ltb, ◌==◌, if◌then◌else◌, length, any,
  keep, find, invalid, Result, ok, ◌>>=◌, ◌>>◌, refuse_if,
}
use attendance_system.Text.{Text, byte_len}
use attendance_system.Access.{Role, Claims}
use attendance_system.Time.{Instant, Date, date_only}
use attendance_system.Schedule.Rows.{ShiftAssignment}
use attendance_system.Db.{Payload, AuditLog, Db}
use attendance_system.Schedule.RosterStore.{
  same_slot, upsert_assignments, find_assignment, delete_assignment,
}
use attendance_system.Schedule.Planning.{Host, today, is_past, role_only, audit_row, audit_if}

pub record Assignment : Type 0 where
  pub user_id : ℕ
  pub work_date : Instant
  pub schedule_id : Option ℕ
  pub note : Text

abbrev pub max_bulk_assigned : ℕ
max_bulk_assigned = 500

abbrev pub slot_of : Assignment → ℕ × Date
slot_of a = (a.user_id, date_only a.work_date)

abbrev pub slot_eq : ℕ × Date → ℕ × Date → Bool
slot_eq (u, d) (v, e) = (u == v) && (d == e)

-- The loop of `checkAssignments`, with the slots seen so far.
unfoldable pub check_each : List (ℕ × Date) → List Assignment → Result (Unit {0})
check_each seen [] = ok tt
check_each seen (a ∷ more) = do
  refuse_if (ltb a.user_id 1) (invalid "user_id is required")
  refuse_if (a.work_date == 0) (invalid "work_date is required")
  refuse_if (ltb 200 (byte_len a.note)) (invalid "note must be at most 200 characters")
  refuse_if (any (slot_eq (slot_of a)) seen) (invalid "user %d is assigned twice on %s")
  check_each (slot_of a ∷ seen) more

unfoldable pub check_assignments : List Assignment → Result (Unit {0})
unfolding check_each
check_assignments sent = do
  refuse_if (length sent == 0) (invalid "assignments is required")
  refuse_if (ltb max_bulk_assigned (length sent)) (invalid "at most %d assignments per request")
  check_each [] sent

-- The row that one entry of the request makes, before its id is known.
abbrev pub planned_row : Assignment → ShiftAssignment
planned_row a = record {
  id = 0;
  user_id = a.user_id;
  work_date = date_only a.work_date;
  schedule_id = a.schedule_id;
  note = a.note;
}

abbrev pub assignment_json : ShiftAssignment → Payload
assignment_json a = Payload.assignment a.work_date a.schedule_id

-- What a slot held before, `null` for nothing; `held` is a map by slot.
abbrev pub was_held : Option ShiftAssignment → Payload
was_held none = Payload.null
was_held (some a) = assignment_json a

-- `auditAssigned`.
unfoldable pub audit_assigned :
    Claims → Date → List ShiftAssignment → List ShiftAssignment → List AuditLog
audit_assigned claims today rows before =
    map
      (λ (a : ShiftAssignment).
        audit_row claims "shift_assignment.changed" "shift_assignment" a.user_id
          (was_held (find (same_slot a.user_id a.work_date) before)) (assignment_json a))
      (keep (λ a. is_past a.work_date today) rows)

unfoldable pub assign : Host → Db → Claims → List Assignment → Result (List ShiftAssignment × Db)
unfolding audit_assigned
assign host db claims sent = do
  role_only Role.hr_admin claims
  check_assignments sent
  let rows = map planned_row sent
  upsert_assignments db rows (
      if any (λ a. is_past a.work_date (today host)) rows
      then some (audit_assigned claims (today host) rows)
      else none)

-- `Service.DeleteAssignment`.
unfoldable pub remove_assignment : Host → Db → Claims → ℕ → Result Db
remove_assignment host db claims id = do
  role_only Role.hr_admin claims
  before ← find_assignment db id
  delete_assignment db id (
      audit_if (is_past before.work_date (today host)) (
        audit_row claims "shift_assignment.deleted" "shift_assignment" before.user_id
          (assignment_json before) Payload.null))
