-- ===== src/Leave/Checks.antt =====
-- The CHECK constraints of leave_requests (internal/db/migrations/00006_leave.sql), which the
-- repository does not translate: no row that the service writes violates one.
use attendance_system.Prelude.{
  ℕ, ◌≤◌, ◌<◌, ◌≡◌, refl, Bool, true, false, Option, none, some, arith, ok, >>=-elim,
}
use attendance_system.Text.{Text}
use attendance_system.Time.{Instant, date_only}
use attendance_system.Leave.Rows.{LeaveType, Status, Leave}
use attendance_system.Leave.Validation.{Filing, check_filing, is_some, check_rules}
use attendance_system.Schedule.Validation.{check_range}
use attendance_system.Leave.Store.{is_from}
use attendance_system.Leave.Requests.{
  Host, working_days, attachment, attachment_mime, new_leave, cancelled_by, Decision, decided_by,
}
use attendance_system.Leave.Inversion.{Requested}
use attendance_system.Db.{Db}

abbrev is_cancelled : Status → Bool
is_cancelled Status.cancelled = true
is_cancelled _ = false

pub record MeetsChecks (r : Leave) : Type 0 where
  pub dates : r.start_date ≤ r.end_date
  pub some_days : 0 < r.working_days
  pub attachment_whole : is_some r.attachment_key ≡ is_some r.attachment_mime
  pub cancel_whole : is_some r.cancelled_by ≡ is_some r.cancelled_at
  pub cancel_dated : is_cancelled r.status ≡ is_some r.cancelled_at

check_filing-ordered :
    (sent f : Filing) → check_filing sent ≡ ok f → date_only f.start_date ≤ date_only f.end_date
unfolding check_filing check_range
check_filing-ordered sent f h = ground arith

check_rules-positive :
    (kind : LeaveType) (f : Filing) (working year : ℕ)
    → check_rules kind f working year ≡ ok tt
    → 0 < working
unfolding check_rules
check_rules-positive kind f working year h = ground arith

attachment_mime-whole :
    (host : Host) (db : Db) (user : ℕ) (key mime : Option Text)
    → attachment_mime host db user key ≡ ok mime
    → is_some key ≡ is_some mime
attachment_mime-whole host db user none mime h = ground arith
attachment_mime-whole host db user (some k) mime h =
    >>=-elim (attachment host db user k) _ h λ m e h1. ground arith

pub new_leave-MeetsChecks :
    (host : Host) (db : Db) (user : ℕ) (sent : Filing) (row : Leave) (db' : Db)
    (r : Requested host db user sent (row, db'))
    → MeetsChecks (new_leave host user r.kind r.filing (working_days r.plan) r.mime)
unfolding new_leave
new_leave-MeetsChecks host db user sent row db' r =
    let whole = attachment_mime-whole host db user r.filing.attachment_key r.mime r.vouched in
    let days = check_rules-positive r.kind r.filing _ _ r.ruled in
    record {
      dates = check_filing-ordered sent r.filing r.checked;
      some_days = days;
      attachment_whole = whole;
      cancel_whole = refl;
      cancel_dated = ground arith;
    }

pub cancelled_by-MeetsChecks :
    (user : ℕ) (at : Instant) (r : Leave) → MeetsChecks r → MeetsChecks (cancelled_by user at r)
cancelled_by-MeetsChecks user at r m = record {
  dates = m.dates;
  some_days = m.some_days;
  attachment_whole = m.attachment_whole;
  cancel_whole = refl;
  cancel_dated = refl;
}

pub decided_by-MeetsChecks :
    (user : ℕ) (at : Instant) (d : Decision) (note : Text) (id : ℕ) (r : Leave)
    → is_from id Status.pending r ≡ true
    → MeetsChecks r
    → MeetsChecks (decided_by user at d note r)
decided_by-MeetsChecks user at d note id r p m = record {
  dates = m.dates;
  some_days = m.some_days;
  attachment_whole = m.attachment_whole;
  cancel_whole = m.cancel_whole;
  cancel_dated = ground (arith, m.cancel_dated);
}
