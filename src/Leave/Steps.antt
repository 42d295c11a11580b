-- ===== src/Leave/Steps.antt =====
-- The writes of the leave module as a step relation, and what one step does to leave_requests.
use attendance_system.Prelude.{
  subst, ℕ, ◌≡◌, refl, sym, Bool, true, not, Option, none, some, arith, ok, refuse_if, >>=-elim, ℤ,
}
use attendance_system.Text.{Text}
use attendance_system.Access.{Role, at_least, Claims}
use attendance_system.Leave.Rows.{LeaveType, Quota, Status, Leave}
use attendance_system.Leave.Validation.{Filing, check_type}
use attendance_system.Leave.Store.{is_active, is_from}
use attendance_system.Leave.TypeStore.{
  type_by_id, write_audit, create_type, replace_type, delete_type, set_quota,
}
use attendance_system.Leave.Requests.{Host, request, cancel, Decision, outcome, decide}
use attendance_system.Leave.Types.{add_type, edit_type, retire_type, assign_quota}
use attendance_system.Leave.Inversion.{
  Inserted, insert_leave-Inserted, create-eq_ok, request-Requested, Settled, cancel-Cancelled,
  decide-Decided, may_cancel-is_active, assign_quota-Assigned,
}
use attendance_system.Leave.Checks.{
  MeetsChecks, new_leave-MeetsChecks, cancelled_by-MeetsChecks, decided_by-MeetsChecks,
}
use attendance_system.Db.{AuditLog, Db}

-- One successful call, by anybody, at any moment, with any answer of the object store.
pub data Step : Db → Db → Type 0 where
  requested :
      {db db' : Db} (host : Host) (user : ℕ) (sent : Filing) (row : Leave)
      → request host db user sent ≡ ok (row, db')
      → Step db db'
  cancelled :
      {db db' : Db} (host : Host) (claims : Claims) (id : ℕ) (row : Leave)
      → cancel host db claims id ≡ ok (row, db')
      → Step db db'
  decided :
      {db db' : Db} (host : Host) (claims : Claims) (id : ℕ) (decision : Decision) (note : Text)
      (row : Leave)
      → decide host db claims id decision note ≡ ok (row, db')
      → Step db db'
  type_added :
      {db db' : Db} (claims : Claims) (kind row : LeaveType)
      → add_type db claims kind ≡ ok (row, db')
      → Step db db'
  type_edited :
      {db db' : Db} (claims : Claims) (id : ℕ) (kind row : LeaveType)
      → edit_type db claims id kind ≡ ok (row, db')
      → Step db db'
  type_retired :
      {db db' : Db} (claims : Claims) (id : ℕ) → retire_type db claims id ≡ ok db' → Step db db'
  quota_set :
      {db db' : Db} (claims : Claims) (sent : Quota) (carried_over : Option ℤ) (row : Quota)
      → assign_quota db claims sent carried_over ≡ ok (row, db')
      → Step db db'

pub data Reach (db : Db) : Db → Type 0 where
  here : Reach db db
  next : {db' db'' : Db} → Reach db db' → Step db' db'' → Reach db db''

abbrev pub Untouched : Db → Db → Type 0
Untouched db db' = (db'.leave_requests ≡ db.leave_requests) × (db'.next_leave_id ≡ db.next_leave_id)

-- An UPDATE of the lifecycle: it keeps the id, the person, the dates, the type and the days.
abbrev pub KeepsPlace : (Leave → Leave) → Type 0
KeepsPlace f =
    (r : Leave)
    → ((f r).id ≡ r.id)
      × ((f r).user_id ≡ r.user_id)
      × ((f r).start_date ≡ r.start_date)
      × ((f r).end_date ≡ r.end_date)
      × ((f r).leave_type_id ≡ r.leave_type_id)
      × ((f r).working_days ≡ r.working_days)

-- The edges of a request's life.
pub data Moves : Status → Status → Type 0 where
  approval : Moves Status.pending Status.approved
  rejection : Moves Status.pending Status.rejected
  withdrawal : Moves Status.pending Status.cancelled
  recall : Moves Status.approved Status.cancelled

pub data Effect (db db' : Db) : Type 0 where
  inserted : (new row : Leave) → Inserted db new row db' → MeetsChecks new → Effect db db'
  settled :
      (id : ℕ) (from : Status) (f : Leave → Leave) (row : Leave)
      → is_active from ≡ true
      → KeepsPlace f
      → ((r : Leave) → is_from id from r ≡ true → MeetsChecks r → MeetsChecks (f r))
      → ((r : Leave) → is_from id from r ≡ true → Moves r.status (f r).status)
      → Settled db id from f row db'
      → Effect db db'
  untouched : Untouched db db' → Effect db db'

write_audit-Untouched : (e : Option AuditLog) (db : Db) → Untouched db (write_audit e db)
write_audit-Untouched none db = (refl, refl)
write_audit-Untouched (some e) db = (refl, refl)

create_type-Untouched :
    (db : Db) (kind row : LeaveType) (db' : Db)
    → create_type db kind ≡ ok (row, db')
    → Untouched db db'
unfolding create_type
create_type-Untouched db kind row db' h = ground arith

delete_type-Untouched :
    (db : Db) (id : ℕ) (db' : Db) → delete_type db id ≡ ok db' → Untouched db db'
unfolding delete_type
delete_type-Untouched db id db' h = ground arith

replace_type-Untouched :
    (db : Db) (kind : LeaveType) (audit : LeaveType → Option AuditLog) (row : LeaveType) (db' : Db)
    → replace_type db kind audit ≡ ok (row, db')
    → Untouched db db'
unfolding replace_type
replace_type-Untouched db kind audit row db' h =
    >>=-elim (type_by_id db kind.id) _ h λ before e h1. ground (arith, audit before)

set_quota-Untouched :
    (db : Db) (q : Quota) (keep_it : Bool) (audit : Option Quota → Quota → AuditLog) (row : Quota)
    (db' : Db)
    → set_quota db q keep_it audit ≡ ok (row, db')
    → Untouched db db'
unfolding set_quota
set_quota-Untouched db q keep_it audit row db' h = ground arith

add_type-Untouched :
    (db : Db) (claims : Claims) (kind row : LeaveType) (db' : Db)
    → add_type db claims kind ≡ ok (row, db')
    → Untouched db db'
unfolding add_type
add_type-Untouched db claims kind row db' h =
    >>=-elim (refuse_if (not (at_least claims.role Role.hr_admin)) _) _ h
      λ _ g h1. >>=-elim (check_type kind) _ h1 λ k e h2. create_type-Untouched db k row db' h2

edit_type-Untouched :
    (db : Db) (claims : Claims) (id : ℕ) (kind row : LeaveType) (db' : Db)
    → edit_type db claims id kind ≡ ok (row, db')
    → Untouched db db'
unfolding edit_type
edit_type-Untouched db claims id kind row db' h =
    >>=-elim (refuse_if (not (at_least claims.role Role.hr_admin)) _) _ h
      λ _ g h1. >>=-elim (check_type kind) _ h1 λ k e h2. replace_type-Untouched db _ _ row db' h2

retire_type-Untouched :
    (db : Db) (claims : Claims) (id : ℕ) (db' : Db)
    → retire_type db claims id ≡ ok db'
    → Untouched db db'
unfolding retire_type
retire_type-Untouched db claims id db' h =
    >>=-elim (refuse_if (not (at_least claims.role Role.hr_admin)) _) _ h
      λ _ g h1. delete_type-Untouched db id db' h1

assign_quota-Untouched :
    (db : Db) (claims : Claims) (sent : Quota) (carried_over : Option ℤ) (row : Quota) (db' : Db)
    → assign_quota db claims sent carried_over ≡ ok (row, db')
    → Untouched db db'
unfolding assign_quota
assign_quota-Untouched db claims sent carried_over row db' h =
    let a = assign_quota-Assigned db claims sent carried_over row db' h in
    set_quota-Untouched db _ _ _ row db' a.stored

cancel_edge : (s : Status) → is_active s ≡ true → Moves s Status.cancelled
cancel_edge Status.pending h = withdrawal
cancel_edge Status.approved h = recall
cancel_edge Status.rejected h = absurd (cc)
cancel_edge Status.cancelled h = absurd (cc)

decide_edge : (d : Decision) → Moves Status.pending (outcome d)
decide_edge Decision.approve = approval
decide_edge Decision.reject = rejection
decide_edge Decision.other = rejection

status_from : (id : ℕ) (from : Status) (r : Leave) → is_from id from r ≡ true → r.status ≡ from
status_from id from r h = ground arith

pub Step-Effect : {db db' : Db} → Step db db' → Effect db db'
Step-Effect {db} {db'} (requested host user sent row h) =
    let r = request-Requested host db user sent (row, db') h in
    inserted _ row (insert_leave-Inserted db _ row db' (create-eq_ok db _ _ r.created).1)
      (new_leave-MeetsChecks host db user sent row db' r)
Step-Effect {db} {db'} (cancelled host claims id row h) =
    let c = cancel-Cancelled host db claims id row db' h in
    settled id c.old.status _ row (may_cancel-is_active host claims c.old c.allowed)
      (λ r. (refl, refl, refl, refl, refl, refl))
      (λ r p m. cancelled_by-MeetsChecks claims.user_id host.now r m)
      (λ r p.
        subst (λ s. Moves s Status.cancelled) (sym (status_from id c.old.status r p))
          (cancel_edge c.old.status (may_cancel-is_active host claims c.old c.allowed)))
      c.settled
Step-Effect {db} {db'} (decided host claims id decision note row h) =
    let d = decide-Decided host db claims id decision note row db' h in
    settled id Status.pending _ row refl (λ r. (refl, refl, refl, refl, refl, refl))
      (λ r p m. decided_by-MeetsChecks claims.user_id host.now decision note id r p m)
      (λ r p.
        subst (λ s. Moves s (outcome decision)) (sym (status_from id Status.pending r p))
          (decide_edge decision))
      d.settled
Step-Effect {db} {db'} (type_added claims kind row h) =
    untouched (add_type-Untouched db claims kind row db' h)
Step-Effect {db} {db'} (type_edited claims id kind row h) =
    untouched (edit_type-Untouched db claims id kind row db' h)
Step-Effect {db} {db'} (type_retired claims id h) =
    untouched (retire_type-Untouched db claims id db' h)
Step-Effect {db} {db'} (quota_set claims sent carried_over row h) =
    untouched (assign_quota-Untouched db claims sent carried_over row db' h)
