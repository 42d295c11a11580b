-- ===== src/Attendance/Validation.antt =====
-- attendance/validation.go: what a mark, a report, a note and a proposal may carry.
use attendance_system.Prelude.{
  ℕ, ◌+◌, ◌*◌, Bool, true, false, not, ◌&&◌, ◌||◌, Option, none, some, ltb, ◌==◌, if◌then◌else◌,
  length, invalid, Result, ok, err, ◌>>◌, ℤ, pos, negsuc, ltb_ℤ,
}
use attendance_system.Text.{trim, Text, is_empty}
use attendance_system.Time.{Instant, Date, hour, date_only, midnight, Zone}

-- Coordinates are millionths of a degree, the accuracy is in millimetres.
pub record Mark : Type 0 where
  pub photo_key : Text
  pub lat : ℤ
  pub lng : ℤ
  pub accuracy : ℤ
  pub mock_location : Bool

pub record Proposal : Type 0 where
  pub user_id : Option ℕ
  pub work_date : Instant
  pub check_in_at : Option Instant
  pub check_out_at : Option Instant
  pub reason : Text

abbrev pub max_report_chars : ℕ
max_report_chars = 5000

abbrev pub max_reason_chars : ℕ
max_reason_chars = 500

abbrev pub correction_slack : ℕ
correction_slack = 12 * hour

unfoldable pub check_mark : Mark → Result (Unit {0})
check_mark mark =
    if is_empty mark.photo_key
    then err (invalid "photo_key is required")
    else if ltb_ℤ mark.lat (negsuc 89999999) || ltb_ℤ (pos 90000000) mark.lat
    then err (invalid "lat must be between -90 and 90")
    else if ltb_ℤ mark.lng (negsuc 179999999) || ltb_ℤ (pos 180000000) mark.lng
    then err (invalid "lng must be between -180 and 180")
    else if ltb_ℤ mark.accuracy (pos 0)
    then err (invalid "accuracy_m cannot be negative")
    else ok tt

unfoldable pub check_report : Instant → Text → Result Text
check_report work_date content =
    let trimmed = trim content in
    if work_date == 0
    then err (invalid "work_date is required")
    else if is_empty trimmed
    then err (invalid "content is required")
    else if ltb max_report_chars (length trimmed)
    then err (invalid "content must be at most %d characters")
    else ok trimmed

unfoldable pub check_note : Text → Result (Unit {0})
check_note note =
    if ltb max_reason_chars (length note)
    then err (invalid "note must be at most %d characters")
    else ok tt

-- One turn of the loop over the proposed times: past, and within the slack around the midnights.
abbrev pub check_time : Instant → Zone → Date → Option Instant → Result (Unit {0})
check_time now zone d none = ok tt
check_time now zone d (some at) =
    if ltb now at
    then err (invalid "a corrected time cannot be in the future")
    else if ltb (at + correction_slack) (zone.at d 0)
        || ltb (zone.at (d + 1) 0 + correction_slack) at
    then err (invalid "corrected times must fall within %d hours of %s")
    else ok tt

abbrev pub is_given : Option Instant → Bool
is_given none = false
is_given (some _) = true

-- The proposal with its reason trimmed and its work date cut to the day's midnight.
unfoldable pub check_proposal : Proposal → Instant → Zone → Result Proposal
check_proposal p now zone =
    let reason = trim p.reason in
    let d = date_only p.work_date in
    if p.work_date == 0
    then err (invalid "work_date is required")
    else if not (is_given p.check_in_at) && not (is_given p.check_out_at)
    then err (invalid "proposed_check_in_at or proposed_check_out_at is required")
    else if is_empty reason
    then err (invalid "reason is required")
    else if ltb max_reason_chars (length reason)
    then err (invalid "reason must be at most %d characters")
    else if ltb (zone.date_in now) d
    then err (invalid "work_date cannot be after today")
    else (check_time now zone d p.check_in_at
        >> check_time now zone d p.check_out_at
        >> ok (record p { work_date = midnight d; reason = reason }))
