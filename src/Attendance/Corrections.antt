-- ===== src/Attendance/Corrections.antt =====
-- attendance/correction.go: a correction from filing to decision.
use attendance_system.Prelude.{
  ℕ, Bool, true, false, not, ◌&&◌, Option, none, some, List, [], ◌∷◌, ◌==◌, if◌then◌else◌,
  forbidden, invalid, panicked, Result, ok, err, ◌>>=◌, ◌>>◌, refuse_if, ℤ, pos,
}
use attendance_system.Text.{Text}
use attendance_system.Access.{Role, at_least, Claims}
use attendance_system.Time.{Instant, date_only, midnight, Zone}
use attendance_system.User.Hierarchy.{reach, scope}
use attendance_system.Schedule.Rows.{WorkSchedule}
use attendance_system.Schedule.Resolve.{Day}
use attendance_system.Schedule.Roster.{plan_days}
use attendance_system.Attendance.Shift.{
  Shift, place, schedule_id_of, late_minutes, early_leave_minutes,
}
use attendance_system.Attendance.Service.{Host, schedule_of}
use attendance_system.Db.{Db}
use attendance_system.Attendance.Validation.{Proposal, check_proposal, check_note}
use attendance_system.Attendance.Rows.{no_evidence, Attendance, Status, Correction}
use attendance_system.Attendance.Store.{held, leaves_after}
use attendance_system.Attendance.CorrectionStore.{
  create_correction, correction_by_id, corrections_of, pending_corrections, settle, approve,
}

-- `Attendance{UserID: …, WorkDate: …}`.
abbrev pub blank : Correction → Attendance
blank c = record {
  id = 0;
  user_id = c.user_id;
  work_date = c.work_date;
  schedule_id = none;
  check_in_at = 0;
  check_out_at = none;
  check_in = no_evidence;
  check_out = no_evidence;
  late_minutes = pos 0;
  early_leave_minutes = pos 0;
  daily_report = none;
  daily_report_updated_at = none;
}

abbrev pub or_blank : Correction → Option Attendance → Attendance
or_blank c none = blank c
or_blank c (some current) = current

abbrev pub proposed_in : Option Instant → Attendance → Attendance
proposed_in none r = r
proposed_in (some at) r = record r { check_in_at = at }

abbrev pub proposed_out : Option Instant → Attendance → Attendance
proposed_out none r = r
proposed_out (some at) r = record r { check_out_at = some at }

-- `corrected`: the times of the correction over the row that is held, or a new one.
unfoldable pub corrected : Option Attendance → Correction → Result Attendance
corrected current c =
    let next =
      proposed_out c.proposed_check_out_at
        (proposed_in c.proposed_check_in_at (or_blank c current)) in
    if next.check_in_at == 0
    then err (invalid "there is no check-in on %s, so proposed_check_in_at is required")
    else if not (leaves_after next.check_in_at next.check_out_at)
    then err (invalid "check-out must be after check-in")
    else ok next

-- Whose attendance it is: the caller's, or anyone's for hr_admin.
abbrev pub person_of : Claims → Option ℕ → Result ℕ
person_of claims none = ok claims.user_id
person_of claims (some id) =
    if not (id == claims.user_id) && not (at_least claims.role Role.hr_admin)
    then err (forbidden "forbidden")
    else ok id

abbrev pub new_correction : Claims → ℕ → Proposal → Correction
new_correction claims user p = record {
  id = 0;
  user_id = user;
  work_date = date_only p.work_date;
  requested_by = claims.user_id;
  proposed_check_in_at = p.check_in_at;
  proposed_check_out_at = p.check_out_at;
  old_check_in_at = none;
  old_check_out_at = none;
  reason = p.reason;
  status = Status.pending;
  reviewed_by = none;
  reviewed_at = none;
  review_note = none;
}

-- `Service.RequestCorrection`.
unfoldable pub request_correction : Host → Db → Claims → Proposal → Result (Correction × Db)
unfolding corrected
request_correction host db claims sent = do
  user ← person_of claims sent.user_id
  p ← check_proposal sent host.now host.zone
  _ ← corrected (held db user (date_only p.work_date)) (new_correction claims user p)
  create_correction db (new_correction claims user p)

-- `Service.MyCorrections`.
unfoldable pub my_corrections : Db → ℕ → List Correction
my_corrections db user = corrections_of db user

-- `Service.PendingCorrections`.
unfoldable pub pending_for : Db → Claims → Result (List Correction)
pending_for db claims =
    if at_least claims.role Role.supervisor
    then ok (pending_corrections db (scope claims) claims.user_id)
    else err (forbidden "forbidden")

abbrev pub withdrawn : Correction → Correction
withdrawn c = record c { status = Status.cancelled }

-- `Service.CancelCorrection`.
unfoldable pub cancel_correction : Db → Claims → ℕ → Result (Correction × Db)
cancel_correction db claims id = do
  c ← correction_by_id db id
  refuse_if (not (claims.user_id == c.user_id) && not (claims.user_id == c.requested_by))
      (forbidden "forbidden")
  settle db id withdrawn

-- The two decisions, and any other text.
pub data Decision : Type 0 where
  approved rejected other_decision : Decision

abbrev pub is_decision : Decision → Bool
is_decision Decision.other_decision = false
is_decision _ = true

-- `days[0].Schedule` of an empty list panics.
abbrev pub first_schedule : List Day → Result (Option WorkSchedule)
first_schedule [] = err panicked
first_schedule (d ∷ ds) = ok d.schedule

-- `hoursFor`: the hours that the row kept, or rule A's of a day that had no row.
unfoldable pub hours_for : Db → Correction → Option Attendance → Result (Option WorkSchedule)
hours_for db c (some current) = ok (schedule_of db current.schedule_id)
hours_for db c none =
    plan_days db c.user_id (record { from = midnight c.work_date; to = midnight c.work_date })
    >>= first_schedule

abbrev pub early_of : Shift → Option Instant → ℤ → ℤ
early_of measured none kept = kept
early_of measured (some at) kept = early_leave_minutes measured at

-- The row measured against the hours.
unfoldable pub measure : Zone → Option WorkSchedule → Attendance → Attendance
measure zone hours next =
    let measured = place next.work_date hours zone in
    record next {
      schedule_id = schedule_id_of measured;
      late_minutes = late_minutes measured next.check_in_at;
      early_leave_minutes = early_of measured next.check_out_at next.early_leave_minutes;
    }

-- The closure that `Approve` calls.
unfoldable pub apply_correction : Host → Db → Correction → Option Attendance → Result Attendance
unfolding corrected hours_for measure
apply_correction host db c current = do
  next ← corrected current c
  hours ← hours_for db c current
  ok (measure host.zone hours next)

abbrev pub note_of : Text → Option Text → Option Text
note_of [] held = held
note_of (c ∷ s) held = some (c ∷ s)

abbrev pub status_of : Decision → Status
status_of Decision.approved = Status.approved
status_of _ = Status.rejected

-- The columns of `decided`.
abbrev pub decided_by : Host → Claims → Decision → Text → Correction → Correction
decided_by host claims decision note c = record c {
  status = status_of decision;
  reviewed_by = some claims.user_id;
  reviewed_at = some host.now;
  review_note = note_of note c.review_note;
}

abbrev pub carry_out :
    Host → Db → ℕ → Decision → (Correction → Correction) → Result (Correction × Db)
carry_out host db id Decision.approved decided = approve db id decided (apply_correction host db)
carry_out host db id _ decided = settle db id decided

-- `Service.DecideCorrection`.
unfoldable pub decide_correction :
    Host → Db → Claims → ℕ → Decision → Text → Result (Correction × Db)
unfolding apply_correction
decide_correction host db claims id decision note = do
  refuse_if (not (at_least claims.role Role.supervisor)) (forbidden "forbidden")
  refuse_if (not (is_decision decision)) (invalid "decision must be %s or %s")
  check_note note
  c ← correction_by_id db id
  refuse_if (c.user_id == claims.user_id) (forbidden "forbidden")
  reach db claims c.user_id
  carry_out host db id decision (decided_by host claims decision note)
