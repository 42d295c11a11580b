-- ===== src/Leave/TypeStore.antt =====
-- Leave types and quotas in leave/repository.go, with the constraints of
-- internal/db/migrations/00006 that it translates.
use attendance_system.Prelude.{
  ℕ, ◌+◌, Bool, true, false, not, ◌&&◌, Option, none, some, List, [], ◌∷◌, ◌++◌, ◌==◌,
  if◌then◌else◌, any, find, rewrite, not_found, conflict, invalid, Result, ok, err, ◌>>=◌, or_error,
}
use attendance_system.Text.{Text, text_eq}
use attendance_system.Leave.Rows.{LeaveType, Quota}
use attendance_system.Db.{Db, AuditLog}

abbrev pub same_code : LeaveType → LeaveType → Bool
same_code a b = text_eq a.code b.code

-- `Take` of a live type.
abbrev pub type_by_id : Db → ℕ → Result LeaveType
type_by_id db id = or_error (find (λ t. (t.id == id) && not t.deleted) db.leave_types) not_found

abbrev pub type_by_code : Db → Text → Result LeaveType
type_by_code db code =
    or_error (find (λ t. text_eq t.code code && not t.deleted) db.leave_types) not_found

abbrev pub write_audit : Option AuditLog → Db → Db
write_audit none db = db
write_audit (some entry) db = record db { audit_logs = db.audit_logs ++ entry ∷ [] }

-- leave_types_live_code_key: the code is unique among the live types.
abbrev pub code_taken : LeaveType → LeaveType → Bool
code_taken kind t = not t.deleted && not (t.id == kind.id) && same_code t kind

unfoldable pub create_type : Db → LeaveType → Result (LeaveType × Db)
create_type db kind =
    let row = record kind { id = db.next_leave_type_id; deleted = false } in
    if any (λ t. not t.deleted && same_code t row) db.leave_types
    then err (conflict "a leave type with that code already exists")
    else ok (
      row,
      record db {
        leave_types = db.leave_types ++ row ∷ [];
        next_leave_type_id = db.next_leave_type_id + 1;
      },
    )

-- `audit` reads the row as it stood.
unfoldable pub replace_type :
    Db → LeaveType → (LeaveType → Option AuditLog) → Result (LeaveType × Db)
replace_type db kind audit = type_by_id db kind.id >>= λ before.
    let row = record kind { deleted = false } in
    if any (code_taken kind) db.leave_types
    then err (conflict "a leave type with that code already exists")
    else ok (
      row,
      write_audit (audit before) (record db {
        leave_types = rewrite (λ t. (t.id == kind.id) && not t.deleted) (λ _. row) db.leave_types;
      }),
    )

unfoldable pub delete_type : Db → ℕ → Result Db
delete_type db id =
    if any (λ t. (t.id == id) && not t.deleted) db.leave_types
    then ok (record db {
      leave_types =
          rewrite (λ t. (t.id == id) && not t.deleted)
            (λ (t : LeaveType). record t { deleted = true }) db.leave_types;
    })
    else err not_found

-- The primary key of leave_balances.
abbrev pub is_quota_of : ℕ → ℕ → ℕ → Quota → Bool
is_quota_of user kind year q = (q.user_id == user) && (q.leave_type_id == kind) && (q.year == year)

abbrev pub quota_row : Db → ℕ → ℕ → ℕ → Option Quota
quota_row db user kind year = find (is_quota_of user kind year) db.leave_balances

abbrev pub keep_carried : Bool → Option Quota → Quota → Quota
keep_carried true (some before) q = record q { carried_over_days = before.carried_over_days }
keep_carried _ _ q = q

-- INSERT … ON CONFLICT DO UPDATE.
abbrev pub upsert_quota : Option Quota → Quota → List Quota → List Quota
upsert_quota none q rows = rows ++ q ∷ []
upsert_quota (some _) q rows =
    rewrite (is_quota_of q.user_id q.leave_type_id q.year)
      (λ (r : Quota). record r {
        quota_days = q.quota_days;
        carried_over_days = q.carried_over_days;
      })
      rows

unfoldable pub set_quota :
    Db → Quota → Bool → (Option Quota → Quota → AuditLog) → Result (Quota × Db)
set_quota db quota keep_carried_over audit =
    let before = quota_row db quota.user_id quota.leave_type_id quota.year in
    let q = keep_carried keep_carried_over before quota in
    if any (λ u. u.id == q.user_id) db.users && any (λ t. t.id == q.leave_type_id) db.leave_types
    then ok (
      q,
      write_audit (some (audit before q))
          (record db { leave_balances = upsert_quota before q db.leave_balances }),
    )
    else err (invalid "user_id or leave_type_id does not exist")
