-- ===== src/Leave/Types.antt =====
-- leave/leavetype.go: leave types and quotas, which only hr_admin writes.
use attendance_system.Prelude.{
  ℕ, Bool, true, false, not, ◌&&◌, Option, none, some, List, ◌==◌, if◌then◌else◌, keep, not_found,
  forbidden, invalid, Result, ok, err, ◌>>=◌, ◌>>◌, refuse_if, ℤ, pos, leb_ℤ,
}
use attendance_system.Access.{Role, at_least, Claims}
use attendance_system.Leave.Rows.{LeaveType, Quota}
use attendance_system.Leave.Validation.{is_some, check_type, check_quota}
use attendance_system.Leave.TypeStore.{
  type_by_id, create_type, replace_type, delete_type, set_quota,
}
use attendance_system.Db.{Payload, AuditLog, Db}

-- `Service.Types`: the live types; `by_code` is the order of the database's collation.
unfoldable pub live_types : (List LeaveType → List LeaveType) → Db → List LeaveType
live_types by_code db = by_code (keep (λ t. not t.deleted) db.leave_types)

abbrev hr_admin_only : Claims → Result (Unit {0})
hr_admin_only claims = refuse_if (not (at_least claims.role Role.hr_admin)) (forbidden "forbidden")

-- `Service.CreateType`.
unfoldable pub add_type : Db → Claims → LeaveType → Result (LeaveType × Db)
add_type db claims kind = do hr_admin_only claims; checked ← check_type kind; create_type db checked

-- `sameDays`.
abbrev pub same_days : Option ℤ → Option ℤ → Bool
same_days none none = true
same_days (some a) (some b) = leb_ℤ a b && leb_ℤ b a
same_days _ _ = false

-- The audit entry of a changed yearly quota.
abbrev pub quota_change : Claims → LeaveType → LeaveType → Option AuditLog
quota_change claims kind before =
    if same_days before.quota_days_per_year kind.quota_days_per_year
    then none
    else some (record {
      actor_id = claims.user_id;
      action = "leave_type.quota_changed";
      entity_type = "leave_type";
      entity_id = kind.id;
      before = Payload.type_quota before.quota_days_per_year;
      after = Payload.type_quota kind.quota_days_per_year;
    })

-- `Service.ReplaceType`.
unfoldable pub edit_type : Db → Claims → ℕ → LeaveType → Result (LeaveType × Db)
edit_type db claims id kind = do
  hr_admin_only claims
  checked ← check_type kind
  let row : LeaveType = record checked { id = id }
  replace_type db row (quota_change claims row)

-- `Service.DeleteType`.
unfoldable pub retire_type : Db → Claims → ℕ → Result Db
retire_type db claims id = hr_admin_only claims >> delete_type db id

abbrev quota_json : Quota → Payload
quota_json q = Payload.quota q.leave_type_id q.year q.quota_days q.carried_over_days

abbrev was_quota : Option Quota → Payload
was_quota none = Payload.null
was_quota (some q) = quota_json q

abbrev pub quota_entry : Claims → ℕ → Option Quota → Quota → AuditLog
quota_entry claims user before after = record {
  actor_id = claims.user_id;
  action = "leave.quota_set";
  entity_type = "user";
  entity_id = user;
  before = was_quota before;
  after = quota_json after;
}

abbrev pub known_type : Result LeaveType → Result LeaveType
known_type (ok kind) = ok kind
known_type (err not_found) = err (invalid "leave_type_id does not exist")
known_type (err e) = err e

abbrev pub carried : Option ℤ → ℤ
carried none = pos 0
carried (some d) = d

-- `Service.SetQuota`; `none` keeps the carried-over days already held.
unfoldable pub assign_quota : Db → Claims → Quota → Option ℤ → Result (Quota × Db)
assign_quota db claims sent carried_over = do
  hr_admin_only claims
  refuse_if (sent.user_id == claims.user_id) (forbidden "nobody sets their own leave quota")
  let quota : Quota = record sent { carried_over_days = carried carried_over }
  check_quota quota
  kind ← known_type (type_by_id db quota.leave_type_id)
  refuse_if (not (is_some kind.quota_days_per_year)) (invalid "%s leave has no yearly quota to set")
  set_quota db quota (not (is_some carried_over)) (quota_entry claims quota.user_id)
