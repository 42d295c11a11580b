-- ===== src/Leave/Store.antt =====
-- leave/repository.go, with the constraints of internal/db/migrations/00006 that it translates.
-- Listings by created_at are by the order of insertion, which is the same.
use mathlib.Core.List.{reverse}
use attendance_system.Prelude.{
  ℕ, ◌+◌, ◌-◌, Bool, true, false, not, ◌&&◌, Option, none, some, List, [], ◌∷◌, ◌++◌, map, leb,
  ◌==◌, if◌then◌else◌, any, keep, find, rewrite, total, not_found, conflict, invalid, Result, ok,
  err, ◌>>◌, or_error, ℤ, pos,
}
use attendance_system.Text.{Text, text_eq}
use attendance_system.Time.{Date}
use attendance_system.Time.Calendar.{new_year, year_of}
use attendance_system.User.Hierarchy.{in_scope}
use attendance_system.Leave.Rows.{LeaveType, Quota, Status, Leave, Balance}
use attendance_system.Leave.Validation.{is_some}
use attendance_system.Db.{Db}
use attendance_system.Leave.TypeStore.{quota_row}

abbrev pub status_eq : Status → Status → Bool
status_eq Status.pending Status.pending = true
status_eq Status.approved Status.approved = true
status_eq Status.rejected Status.rejected = true
status_eq Status.cancelled Status.cancelled = true
status_eq _ _ = false

-- The requests that hold their dates and their days.
abbrev pub is_active : Status → Bool
is_active Status.pending = true
is_active Status.approved = true
is_active _ = false

-- r.start_date BETWEEN January 1 AND December 31.
abbrev pub in_year : ℕ → Date → Bool
in_year year d = leb (new_year year) d && leb d (new_year (year + 1) - 1)

-- The requests that the LEFT JOIN of `balances` brings in, by their status.
abbrev pub counts : ℕ → ℕ → ℕ → Status → Leave → Bool
counts user kind year status r =
    (r.user_id == user)
    && (r.leave_type_id == kind)
    && status_eq r.status status
    && in_year year r.start_date

abbrev pub days_in : Db → ℕ → ℕ → ℕ → Status → ℕ
days_in db user kind year status =
    total (counts user kind year status) (λ r. r.working_days) db.leave_requests

abbrev quota_days_of : Option Quota → Option ℤ → ℤ
quota_days_of (some q) _ = q.quota_days
quota_days_of none (some days) = days
quota_days_of none none = pos 0

abbrev carried_over_of : Option Quota → ℤ
carried_over_of none = pos 0
carried_over_of (some q) = q.carried_over_days

-- One row of `balances`, rule C for a type: COALESCE of the person's quota, the type's and 0, and
-- the days of the approved and of the pending requests that start in the year.
unfoldable pub balance_of : Db → ℕ → ℕ → LeaveType → Balance
balance_of db user year kind =
    let held = quota_row db user kind.id year in
    record {
      leave_type_id = kind.id;
      code = kind.code;
      name = kind.name;
      year = year;
      quota_days = quota_days_of held kind.quota_days_per_year;
      carried_over_days = carried_over_of held;
      used_days = days_in db user kind.id year Status.approved;
      pending_days = days_in db user kind.id year Status.pending;
    }

-- `Balances`: every live type with a yearly quota; `by_code` is the order of the database's
-- collation.
unfoldable pub balances : (List LeaveType → List LeaveType) → Db → ℕ → ℕ → List Balance
balances by_code db user year = map (balance_of db user year) (
    by_code
      (keep (λ (t : LeaveType). not t.deleted && is_some t.quota_days_per_year) db.leave_types))

-- What `Scan` leaves when no type has that id.
abbrev empty_balance : ℕ → Balance
empty_balance year = record {
  leave_type_id = 0;
  code = [];
  name = [];
  year = year;
  quota_days = pos 0;
  carried_over_days = pos 0;
  used_days = 0;
  pending_days = 0;
}

unfoldable pub held_balance : Db → ℕ → ℕ → ℕ → Balance
unfolding balance_of
held_balance db user year kind = elim (find (λ t. t.id == kind) db.leave_types) [
  | none ↦ empty_balance year
  | some t ↦ balance_of db user year t
]

-- leave_requests_no_overlap: the same person, both active, and a day in common.
abbrev pub overlaps : Leave → Leave → Bool
overlaps a b =
    (a.user_id == b.user_id)
    && is_active a.status
    && is_active b.status
    && leb a.start_date b.end_date
    && leb b.start_date a.end_date

abbrev pub key_eq : Option Text → Option Text → Bool
key_eq (some a) (some b) = text_eq a b
key_eq _ _ = false

-- The INSERT, with the constraints in the order in which Postgres checks them.
unfoldable pub insert_leave : Db → Leave → Result (Leave × Db)
insert_leave db new =
    let row = record new { id = db.next_leave_id } in
    if any (λ r. key_eq r.attachment_key row.attachment_key) db.leave_requests
    then err (invalid "attachment_key has already been used")
    else if any (λ r. overlaps r row) db.leave_requests
    then err (conflict "the dates overlap another pending or approved leave")
    else if any (λ u. u.id == row.user_id) db.users
        && any (λ t. t.id == row.leave_type_id) db.leave_types
    then ok (
      row,
      record db {
        leave_requests = db.leave_requests ++ row ∷ [];
        next_leave_id = db.next_leave_id + 1;
      },
    )
    else err (invalid "user_id or leave_type_id does not exist")

-- `Create`: `limit`, when given, is asked with the balance inside the transaction.
abbrev pub check_limit : Db → Leave → Option (Balance → Result (Unit {0})) → Result (Unit {0})
check_limit db row none = ok tt
check_limit db row (some limit) =
    limit (held_balance db row.user_id (year_of row.start_date) row.leave_type_id)

unfoldable pub create : Db → Leave → Option (Balance → Result (Unit {0})) → Result (Leave × Db)
unfolding held_balance insert_leave
create db row limit = check_limit db row limit >> insert_leave db row

abbrev pub attachment_used : Db → Text → Bool
attachment_used db key = any (λ r. key_eq r.attachment_key (some key)) db.leave_requests

abbrev pub leave_by_id : Db → ℕ → Result Leave
leave_by_id db id = or_error (find (λ r. r.id == id) db.leave_requests) not_found

-- `Of`, newest first.
unfoldable pub leaves_of : Db → ℕ → List Leave
leaves_of db user = reverse (keep (λ r. r.user_id == user) db.leave_requests)

-- `Pending`, oldest first.
unfoldable pub pending_leaves : Db → Option ℕ → ℕ → List Leave
pending_leaves db manager decider =
    keep
      (λ r.
        status_eq r.status Status.pending
        && not (r.user_id == decider)
        && in_scope db manager r.user_id)
      db.leave_requests

abbrev pub is_from : ℕ → Status → Leave → Bool
is_from id from r = (r.id == id) && status_eq r.status from

-- `Settle`: the UPDATE … RETURNING of a request that is still in the status it was read in.
unfoldable pub settle : Db → ℕ → Status → (Leave → Leave) → Result (Leave × Db)
settle db id from decided = elim (find (is_from id from) db.leave_requests) [
  | none ↦ err (conflict "the leave request is no longer %s")
  | some r ↦ ok (
    decided r,
    record db { leave_requests = rewrite (is_from id from) decided db.leave_requests },
  )
]
