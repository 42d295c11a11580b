-- ===== src/Leave/Quotas.antt =====
-- Rule C: what is left of a yearly quota after a filing and after a cancellation.
use attendance_system.Prelude.{
  subst, ℕ, ◌+◌, ◌≡◌, refl, sym, ap, ◌∙◌, true, not, ◌&&◌, Option, some, [], ◌∷◌, ◌++◌, arith, ◌==◌,
  find, share, total-append, HasKey, find-by_key, not_found, forbidden, conflict, invalid, failed,
  panicked, Result, ok, err, ℤ, pos, ◌-ℤ◌, ◌≤ℤ◌, int_laws,
}
use attendance_system.Text.{Text, text_eq}
use attendance_system.Time.{Date}
use attendance_system.Time.Calendar.{year_of, new_year-le, lt-new_year}
use attendance_system.Leave.Rows.{LeaveType, Status, Leave, Balance, remaining_days}
use attendance_system.Leave.Validation.{Filing, is_some}
use attendance_system.Leave.Store.{
  is_active, in_year, counts, days_in, balance_of, held_balance, check_limit,
}
use attendance_system.Leave.TypeStore.{type_by_code}
use attendance_system.Leave.Requests.{Host, working_days, limit_of, new_leave, known_kind, request}
use attendance_system.Leave.Inversion.{
  Inserted, insert_leave-Inserted, create-eq_ok, request-Requested,
}
use attendance_system.Db.{Db}

-- A date lies in its own year.
in_year-year_of : (d : Date) → in_year (year_of d) d ≡ true
in_year-year_of d = ground (arith, new_year-le d, lt-new_year d)

-- What one more request adds to the days of its status.
days_in-append :
    (db : Db) (row : Leave) (user kind year : ℕ) (status : Status)
    → days_in
        (record db {
          leave_requests = db.leave_requests ++ row ∷ [];
          next_leave_id = db.next_leave_id + 1;
        })
        user
        kind
        year
        status
      ≡ days_in db user kind year status
        + share (counts user kind year status) (λ r. r.working_days) row
days_in-append db row user kind year status = omega (
  arith,
  total-append (counts user kind year status) (λ r. r.working_days) db.leave_requests (row ∷ []),
)

-- The days that a request holds of a balance.
abbrev pub held_days : ℕ → ℕ → ℕ → Leave → ℕ
held_days user kind year r =
    share (counts user kind year Status.approved) (λ r. r.working_days) r
    + share (counts user kind year Status.pending) (λ r. r.working_days) r

spent-remaining :
    (b c : Balance) (n : ℕ)
    → c.quota_days ≡ b.quota_days
    → c.carried_over_days ≡ b.carried_over_days
    → c.used_days + c.pending_days ≡ b.used_days + b.pending_days + n
    → remaining_days c ≡ remaining_days b -ℤ pos n
unfolding remaining_days
spent-remaining b c n q k s = rw (q, k) (omega int_laws)

appended : Db → Leave → Db
appended db row = record db {
  leave_requests = db.leave_requests ++ row ∷ [];
  next_leave_id = db.next_leave_id + 1;
}

remaining-append :
    (db : Db) (row : Leave) (user year : ℕ) (t : LeaveType)
    → remaining_days (balance_of (appended db row) user year t)
      ≡ remaining_days (balance_of db user year t) -ℤ pos (held_days user t.id year row)
unfolding balance_of appended
remaining-append db row user year t =
    spent-remaining (balance_of db user year t) (balance_of (appended db row) user year t)
      (held_days user t.id year row) refl refl
      (omega (
        arith,
        days_in-append db row user t.id year Status.approved,
        days_in-append db row user t.id year Status.pending,
      ))

known_kind-eq_ok : (r : Result LeaveType) {kind : LeaveType} → known_kind r ≡ ok kind → r ≡ ok kind
known_kind-eq_ok (ok k) h = h
known_kind-eq_ok (err not_found) h = absurd (cc)
known_kind-eq_ok (err (forbidden m)) h = absurd (cc)
known_kind-eq_ok (err (conflict m)) h = absurd (cc)
known_kind-eq_ok (err (invalid m)) h = absurd (cc)
known_kind-eq_ok (err (failed m)) h = absurd (cc)
known_kind-eq_ok (err panicked) h = absurd (cc)

-- The type that a request names is the one that its id finds.
known-by_id :
    (db : Db) (code : Text) (kind : LeaveType)
    → HasKey (λ (t : LeaveType). t.id) db.leave_types
    → known_kind (type_by_code db code) ≡ ok kind
    → find (λ t. t.id == kind.id) db.leave_types ≡ some kind
known-by_id db code kind keys h =
    find-by_key (λ (t : LeaveType). t.id) (λ t. text_eq t.code code && not t.deleted) db.leave_types
      keys (ground (arith, known_kind-eq_ok (type_by_code db code) h))

within_limit :
    (db : Db) (new : Leave) (kind : LeaveType) (working : ℕ)
    → find (λ t. t.id == new.leave_type_id) db.leave_types ≡ some kind
    → is_some kind.quota_days_per_year ≡ true
    → check_limit db new (limit_of kind working) ≡ ok tt
    → pos working ≤ℤ remaining_days (balance_of db new.user_id (year_of new.start_date) kind)
unfolding held_balance
within_limit db new kind working e q h = ground arith

-- An active request holds its working days of the balance of its type and year.
pub held_days-active :
    (r : Leave)
    → is_active r.status ≡ true
    → held_days r.user_id r.leave_type_id (year_of r.start_date) r ≡ r.working_days
held_days-active r h = ground (arith, in_year-year_of r.start_date)

new_leave_lem :
    (host : Host) (user : ℕ) (kind : LeaveType) (f : Filing) (working : ℕ) (mime : Option Text)
    → let new = new_leave host user kind f working mime in
      (new.user_id ≡ user)
      × (new.leave_type_id ≡ kind.id)
      × (new.working_days ≡ working)
      × (is_active new.status ≡ true)
unfolding new_leave
new_leave_lem host user kind f working mime = ground arith

-- What is left to a person of a type's quota in the year of a request.
abbrev pub left_for : Db → Leave → LeaveType → ℤ
left_for db r kind = remaining_days (balance_of db r.user_id (year_of r.start_date) kind)

-- Between two databases a request has taken its working days off what was left, and no more.
abbrev pub TakenOnce : Db → Db → Leave → LeaveType → Type 0
TakenOnce db db' row kind =
    (left_for db' row kind ≡ left_for db row kind -ℤ pos row.working_days)
    × (pos 0 ≤ℤ left_for db' row kind)

filed_quota :
    (db : Db) (new : Leave) (id : ℕ) (kind : LeaveType)
    → is_active new.status ≡ true
    → new.leave_type_id ≡ kind.id
    → find (λ t. t.id == new.leave_type_id) db.leave_types ≡ some kind
    → is_some kind.quota_days_per_year ≡ true
    → check_limit db new (limit_of kind new.working_days) ≡ ok tt
    → let row : Leave = record new { id = id } in TakenOnce db (appended db row) row kind
filed_quota db new id kind active its_kind by_id quota limit =
    let row : Leave = record new { id = id } in
    let taken : left_for (appended db row) row kind ≡ left_for db row kind -ℤ pos row.working_days =
      rw (remaining-append db row row.user_id (year_of row.start_date) kind)
        (ap (λ n. left_for db row kind -ℤ pos n) (rw (← its_kind) (held_days-active row active))) in
    (
      taken,
      rw taken (omega (int_laws, within_limit db new kind new.working_days by_id quota limit)),
    )

some_eq : {a b : LeaveType} → some a ≡ some b → a ≡ b
some_eq h = ground arith

inserted_quota :
    (db : Db) (new row : Leave) (db' : Db) (kind own : LeaveType)
    → Inserted db new row db'
    → check_limit db new (limit_of own new.working_days) ≡ ok tt
    → is_active new.status ≡ true
    → new.leave_type_id ≡ own.id
    → find (λ t. t.id == own.id) db.leave_types ≡ some own
    → find (λ t. t.id == row.leave_type_id) db.leave_types ≡ some kind
    → is_some kind.quota_days_per_year ≡ true
    → TakenOnce db db' row kind
unfolding appended
inserted_quota db new row db' kind own i limit active its_kind known by_id quota =
    let row_kind : row.leave_type_id ≡ own.id =
      ap (λ (w : Leave). w.leave_type_id) i.row_is ∙ its_kind in
    let by_id' : find (λ t. t.id == own.id) db.leave_types ≡ some kind = rw row_kind at by_id in
    let same : own ≡ kind = some_eq (sym known ∙ by_id') in
    let core =
      filed_quota db new db.next_leave_id own active its_kind (rw its_kind known)
        (subst (λ (k : LeaveType). is_some k.quota_days_per_year ≡ true) (sym same) quota) limit in
    subst (λ d. TakenOnce db d row kind) (sym i.db_is)
      (subst (λ w. TakenOnce db (appended db w) w kind) (sym i.row_is)
        (subst
          (λ k.
            TakenOnce db (appended db (record new { id = db.next_leave_id }))
              (record new { id = db.next_leave_id }) k)
          same core))

-- Filing a request of a type with a yearly quota takes exactly its working days off what is left
-- of the quota, in the year that it starts in, and never more than was left, if the ids of the
-- leave types are unique.
pub request_quota :
    (host : Host) (db : Db) (user : ℕ) (sent : Filing) (row : Leave) (db' : Db) (kind : LeaveType)
    → HasKey (λ (t : LeaveType). t.id) db.leave_types
    → find (λ t. t.id == row.leave_type_id) db.leave_types ≡ some kind
    → is_some kind.quota_days_per_year ≡ true
    → request host db user sent ≡ ok (row, db')
    → TakenOnce db db' row kind
request_quota host db user sent row db' kind keys by_id quota h =
    let r = request-Requested host db user sent (row, db') h in
    let c = create-eq_ok db _ _ r.created in
    let n = new_leave_lem host user r.kind r.filing (working_days r.plan) r.mime in
    inserted_quota db _ row db' kind r.kind (insert_leave-Inserted db _ row db' c.1) (rw n.2 c.0)
      n.3 n.1 (known-by_id db r.filing.kind r.kind keys r.known) by_id quota
