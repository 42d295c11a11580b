-- ===== src/Leave/Validation.antt =====
-- leave/validation.go: what a request, a type and a quota may carry.
use attendance_system.Prelude.{
  ℕ, Bool, true, false, not, ◌&&◌, ◌||◌, Option, none, some, [], ◌∷◌, ltb, leb, ◌==◌, if◌then◌else◌,
  length, all, invalid, Result, ok, err, ◌>>=◌, ◌>>◌, ℤ, pos, ltb_ℤ, leb_ℤ,
}
use attendance_system.Text.{Text, trim, is_empty, byte_len}
use attendance_system.Time.{Instant, midnight, date_only}
use attendance_system.Time.Calendar.{year_of}
use attendance_system.Schedule.Validation.{check_range}
use attendance_system.Leave.Rows.{LeaveType, Quota}

-- What an employee asks for.
pub record Filing : Type 0 where
  pub kind : Text
  pub start_date : Instant
  pub end_date : Instant
  pub reason : Text
  pub attachment_key : Option Text

abbrev pub max_reason_chars : ℕ
max_reason_chars = 500

abbrev pub max_code_chars : ℕ
max_code_chars = 50

abbrev pub max_name_chars : ℕ
max_name_chars = 100

abbrev pub max_days : ℕ
max_days = 366

abbrev pub min_year : ℕ
min_year = 2000

abbrev pub max_year : ℕ
max_year = 9999

abbrev is_empty_key : Option Text → Bool
is_empty_key none = false
is_empty_key (some key) = is_empty key

-- The dates come back as midnights.
unfoldable pub check_filing : Filing → Result Filing
check_filing f =
    let kind = trim f.kind in
    let reason = trim f.reason in
    if is_empty kind
    then err (invalid "type is required")
    else if is_empty reason
    then err (invalid "reason is required")
    else if ltb max_reason_chars (length reason)
    then err (invalid "reason must be at most %d characters")
    else if is_empty_key f.attachment_key
    then err (invalid "attachment_key cannot be empty; leave it out instead")
    else if (f.start_date == 0) || (f.end_date == 0)
    then err (invalid "start_date and end_date are both required")
    else if ltb f.end_date f.start_date
    then err (invalid "end_date cannot be before start_date")
    else check_range (record { from = f.start_date; to = f.end_date }) >>= λ span. ok (record f {
      kind = kind;
      reason = reason;
      start_date = midnight span.from;
      end_date = midnight span.to;
    })

abbrev pub is_some {ℓ} : {A : Type ℓ} → Option A → Bool
is_some none = false
is_some (some _) = true

-- A count above an optional limit, and one that reaches it.
abbrev pub exceeds : ℕ → Option ℤ → Bool
exceeds n none = false
exceeds n (some limit) = ltb_ℤ limit (pos n)

abbrev pub reaches : ℕ → Option ℤ → Bool
reaches n none = false
reaches n (some from) = leb_ℤ from (pos n)

unfoldable pub check_rules : LeaveType → Filing → ℕ → ℕ → Result (Unit {0})
check_rules kind f working this_year =
    let from_year = year_of (date_only f.start_date) in
    let to_year = year_of (date_only f.end_date) in
    if working == 0
    then err (invalid "there are no working days between %s and %s")
    else if is_some kind.quota_days_per_year && not (from_year == to_year)
    then err (invalid "%s leave cannot span two years; request each year separately")
    else if is_some kind.quota_days_per_year && ltb from_year this_year
    then err (invalid "%s leave can no longer be requested for %d")
    else if exceeds working kind.max_working_days_per_request
    then err (invalid "%s leave allows at most %d working days per request, not %d")
    else if reaches working kind.attachment_required_from_days && not (is_some f.attachment_key)
    then err (invalid "%s leave of %d working days or more needs an attachment")
    else ok tt

unfoldable pub check_note : Text → Result (Unit {0})
check_note note =
    if ltb max_reason_chars (length note)
    then err (invalid "note must be at most %d characters")
    else ok tt

abbrev is_lower : ℕ → Bool
is_lower c = leb b'a' c && leb c b'z'

-- `^[a-z][a-z0-9_]*$`.
unfoldable pub code_shape : Text → Bool
code_shape [] = false
code_shape (c ∷ s) =
    is_lower c && all (λ x. is_lower x || (leb b'0' x && leb x b'9') || (x == b'_')) s

-- `outside`: set, and not from `lowest` to `maxDays`.
abbrev pub outside : Option ℤ → ℕ → Bool
outside none lowest = false
outside (some d) lowest = ltb_ℤ d (pos lowest) || ltb_ℤ (pos max_days) d

unfoldable pub check_type : LeaveType → Result LeaveType
unfolding code_shape
check_type kind =
    let code = trim kind.code in
    let name = trim kind.name in
    if ltb max_code_chars (byte_len code) || not (code_shape code)
    then err (
        invalid
          "code must be lowercase letters, digits and underscores, starting with a letter, at most %d long")
    else if is_empty name
    then err (invalid "name is required")
    else if ltb max_name_chars (length name)
    then err (invalid "name must be at most %d characters")
    else if outside kind.quota_days_per_year 0
    then err (invalid "quota_days_per_year must be between 0 and %d")
    else if outside kind.max_working_days_per_request 1
    then err (invalid "max_working_days_per_request must be between 1 and %d")
    else if outside kind.attachment_required_from_days 1
    then err (invalid "attachment_required_from_days must be between 1 and %d")
    else ok (record kind { code = code; name = name })

unfoldable pub check_year : ℕ → Result (Unit {0})
check_year year =
    if ltb year min_year || ltb max_year year
    then err (invalid "year must be between %d and %d")
    else ok tt

unfoldable pub check_quota : Quota → Result (Unit {0})
unfolding check_year
check_quota q =
    check_year q.year
    >> (if ltb_ℤ q.quota_days (pos 0) || ltb_ℤ (pos max_days) q.quota_days
        then err (invalid "quota_days must be between 0 and %d")
        else if ltb_ℤ q.carried_over_days (pos 0) || ltb_ℤ (pos max_days) q.carried_over_days
        then err (invalid "carried_over_days must be between 0 and %d")
        else ok tt)
