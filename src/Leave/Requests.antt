-- ===== src/Leave/Requests.antt =====
-- leave/service.go: a request from filing to decision. What the service takes from outside is a
-- `Host`: the moment that `now` gives, the company's zone, and the object store's check of an
-- uploaded attachment, which returns its content type.
use attendance_system.Prelude.{
  ℕ, ◌+◌, Bool, true, false, not, ◌&&◌, Option, none, some, List, [], ◌∷◌, ltb, ◌==◌, if◌then◌else◌,
  not_found, forbidden, conflict, invalid, Result, ok, err, ◌>>=◌, ◌>>◌, refuse_if, or_error, pos,
  ltb_ℤ,
}
use attendance_system.Text.{Text, is_empty}
use attendance_system.Access.{Role, at_least, Claims}
use attendance_system.Time.{Instant, Date, date_only, Zone}
use attendance_system.Time.Calendar.{year_of}
use attendance_system.User.Hierarchy.{reach, scope}
use attendance_system.Schedule.Resolve.{Day}
use attendance_system.Schedule.Roster.{plan_days}
use attendance_system.Leave.Rows.{LeaveType, Status, Leave, Balance, remaining_days}
use attendance_system.Leave.Validation.{
  Filing, check_filing, is_some, check_rules, check_note, check_year,
}
use attendance_system.Leave.Store.{
  is_active, balances, create, attachment_used, leave_by_id, leaves_of, pending_leaves, settle,
}
use attendance_system.Leave.TypeStore.{type_by_code}
use attendance_system.Db.{Db}

pub record Host : Type 0 where
  pub now : Instant
  pub zone : Zone
  pub verify : ℕ → Text → Result Text

-- `Service.today`.
abbrev pub today : Host → Date
today host = host.zone.date_in host.now

abbrev pub working_days : List Day → ℕ
working_days [] = 0
working_days (d ∷ ds) = (if d.working then 1 else 0) + working_days ds

-- `s.attachment`: an unused key that the store vouches for.
abbrev pub attachment : Host → Db → ℕ → Text → Result Text
attachment host db user key =
    if attachment_used db key
    then err (invalid "attachment_key has already been used")
    else host.verify user key

abbrev pub attachment_mime : Host → Db → ℕ → Option Text → Result (Option Text)
attachment_mime host db user none = ok none
attachment_mime host db user (some key) = attachment host db user key >>= λ mime. ok (some mime)

-- The closure that `Create` calls with the balance.
abbrev pub within_balance : ℕ → Balance → Result (Unit {0})
within_balance working held =
    if ltb_ℤ (remaining_days held) (pos working)
    then err (invalid "%d working days of %s leave requested, but only %d remain for %d")
    else ok tt

abbrev pub limit_of : LeaveType → ℕ → Option (Balance → Result (Unit {0}))
limit_of kind working =
    if is_some kind.quota_days_per_year then some (within_balance working) else none

-- A type that auto-approves is approved on filing, by nobody.
unfoldable pub new_leave : Host → ℕ → LeaveType → Filing → ℕ → Option Text → Leave
new_leave host user kind f working mime = record {
  id = 0;
  user_id = user;
  leave_type_id = kind.id;
  start_date = date_only f.start_date;
  end_date = date_only f.end_date;
  working_days = working;
  reason = f.reason;
  attachment_key = f.attachment_key;
  attachment_mime = mime;
  status = if kind.auto_approve then Status.approved else Status.pending;
  reviewed_by = none;
  reviewed_at = if kind.auto_approve then some host.now else none;
  review_note = none;
  cancelled_by = none;
  cancelled_at = none;
}

-- `errors.Is(err, apperr.ErrNotFound)`.
abbrev pub known_kind : Result LeaveType → Result LeaveType
known_kind (ok kind) = ok kind
known_kind (err not_found) = err (invalid "unknown leave type %q")
known_kind (err e) = err e

-- `Service.Request`.
unfoldable pub request : Host → Db → ℕ → Filing → Result (Leave × Db)
request host db user sent = do
  f ← check_filing sent
  kind ← known_kind (type_by_code db f.kind)
  plan ← plan_days db user (record { from = f.start_date; to = f.end_date })
  check_rules kind f (working_days plan) (year_of (today host))
  mime ← attachment_mime host db user f.attachment_key
  create db (new_leave host user kind f (working_days plan) mime)
      (limit_of kind (working_days plan))

-- `Service.Balances`.
unfoldable pub balances_in :
    (List LeaveType → List LeaveType) → Host → Db → ℕ → Option ℕ → Result (List Balance)
balances_in by_code host db user year =
    let wanted : ℕ = elim year [ none ↦ year_of (today host) | some y ↦ y ] in
    check_year wanted >> ok (balances by_code db user wanted)

-- `Service.Mine`.
abbrev pub mine : Db → ℕ → List Leave
mine db user = leaves_of db user

-- `Service.Pending`.
unfoldable pub pending : Db → Claims → Result (List Leave)
pending db claims =
    if not (at_least claims.role Role.supervisor)
    then err (forbidden "forbidden")
    else ok (pending_leaves db (scope claims) claims.user_id)

abbrev pub cancelled_by : ℕ → Instant → Leave → Leave
cancelled_by user at r = record r {
  status = Status.cancelled;
  cancelled_by = some user;
  cancelled_at = some at;
}

abbrev pub is_approved : Status → Bool
is_approved Status.approved = true
is_approved _ = false

-- The switch of `Service.Cancel`.
unfoldable pub may_cancel : Host → Claims → Leave → Result (Unit {0})
may_cancel host claims row =
    let override = at_least claims.role Role.hr_admin && not (row.user_id == claims.user_id) in
    if not (row.user_id == claims.user_id) && not override
    then err (forbidden "forbidden")
    else if not (is_active row.status)
    then err (conflict "a %s leave request cannot be cancelled")
    else if is_approved row.status && not override && not (ltb (today host) row.start_date)
    then err (forbidden "approved leave that has started can only be cancelled by hr_admin")
    else ok tt

-- `Service.Cancel`.
unfoldable pub cancel : Host → Db → Claims → ℕ → Result (Leave × Db)
cancel host db claims id = do
  row ← leave_by_id db id
  may_cancel host claims row
  settle db id row.status (cancelled_by claims.user_id host.now)

-- `other` is any text that is neither.
pub data Decision : Type 0 where
  approve reject other : Decision

abbrev pub is_decision : Decision → Bool
is_decision Decision.other = false
is_decision _ = true

abbrev pub outcome : Decision → Status
outcome Decision.approve = Status.approved
outcome _ = Status.rejected

abbrev pub decided_by : ℕ → Instant → Decision → Text → Leave → Leave
decided_by reviewer at decision note r = record r {
  status = outcome decision;
  reviewed_by = some reviewer;
  reviewed_at = some at;
  review_note = if is_empty note then r.review_note else some note;
}

-- `Service.Decide`.
unfoldable pub decide : Host → Db → Claims → ℕ → Decision → Text → Result (Leave × Db)
decide host db claims id decision note = do
  refuse_if (not (at_least claims.role Role.supervisor)) (forbidden "forbidden")
  refuse_if (not (is_decision decision)) (invalid "decision must be %s or %s")
  check_note note
  row ← leave_by_id db id
  refuse_if (row.user_id == claims.user_id) (forbidden "forbidden")
  reach db claims row.user_id
  settle db id Status.pending (decided_by claims.user_id host.now decision note)

-- `Service.AttachmentURL`, up to the key that is signed.
unfoldable pub attachment_of : Db → Claims → ℕ → Result Text
attachment_of db claims id = do
  row ← leave_by_id db id
  reach db claims row.user_id
  or_error row.attachment_key not_found
