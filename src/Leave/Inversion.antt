-- ===== src/Leave/Inversion.antt =====
-- What a filing, a cancellation and a decision that succeeded have passed, step by step
-- (leave/service.go and leave/repository.go).
-- What a filing that succeeded has passed, step by step (leave/service.go `Request`,
-- leave/repository.go `Create`).
use attendance_system.Prelude.{
  ℕ, ◌+◌, ◌≡◌, refl, inl, inr, Bool, true, false, not, Option, some, List, [], ◌∷◌, ◌++◌, arith,
  ◌==◌, Option-cases, any, find, rewrite, Error, Result, ok, refuse_if, >>=-elim, refuse_if-eq_ok,
  ℤ,
}
use attendance_system.Text.{Text}
use attendance_system.Access.{Role, at_least, Claims}
use attendance_system.Time.Calendar.{year_of}
use attendance_system.User.Hierarchy.{reach}
use attendance_system.Schedule.Resolve.{Day}
use attendance_system.Schedule.Roster.{plan_days}
use attendance_system.Leave.Rows.{LeaveType, Quota, Status, Leave, Balance}
use attendance_system.Leave.Validation.{
  Filing, check_filing, is_some, check_rules, check_note, check_quota,
}
use attendance_system.Leave.Store.{
  is_active, overlaps, key_eq, insert_leave, check_limit, create, leave_by_id, is_from, settle,
}
use attendance_system.Leave.TypeStore.{type_by_id, type_by_code, set_quota}
use attendance_system.Leave.Requests.{
  Host, today, working_days, attachment_mime, limit_of, new_leave, known_kind, request,
  cancelled_by, may_cancel, cancel, Decision, is_decision, decided_by, decide,
}
use attendance_system.Leave.Types.{quota_entry, known_type, carried, assign_quota}
use attendance_system.Db.{Db}

pub record Inserted (db : Db) (new row : Leave) (db' : Db) : Type 0 where
  pub row_is : row ≡ record new { id = db.next_leave_id }
  pub db_is : db' ≡ record db {
    leave_requests = db.leave_requests ++ row ∷ [];
    next_leave_id = db.next_leave_id + 1;
  }
  pub fresh_key : any (λ r. key_eq r.attachment_key row.attachment_key) db.leave_requests ≡ false
  pub no_overlap : any (λ r. overlaps r row) db.leave_requests ≡ false

pub insert_leave-Inserted :
    (db : Db) (new row : Leave) (db' : Db)
    → insert_leave db new ≡ ok (row, db')
    → Inserted db new row db'
unfolding insert_leave
insert_leave-Inserted db new row db' h = ground arith

pub create-eq_ok :
    (db : Db) (new : Leave) (limit : Option (Balance → Result (Unit {0}))) {out : Leave × Db}
    → create db new limit ≡ ok out
    → (check_limit db new limit ≡ ok tt) × (insert_leave db new ≡ ok out)
unfolding create
create-eq_ok db new limit h = ground arith

pub record Requested (host : Host) (db : Db) (user : ℕ) (sent : Filing) (out : Leave × Db)
    : Type 0 where
  pub filing : Filing
  pub kind : LeaveType
  pub plan : List Day
  pub mime : Option Text
  pub checked : check_filing sent ≡ ok filing
  pub known : known_kind (type_by_code db filing.kind) ≡ ok kind
  pub planned :
      plan_days db user (record { from = filing.start_date; to = filing.end_date }) ≡ ok plan
  pub ruled : check_rules kind filing (working_days plan) (year_of (today host)) ≡ ok tt
  pub vouched : attachment_mime host db user filing.attachment_key ≡ ok mime
  pub created :
      create db
        (new_leave host user kind filing (working_days plan) mime)
        (limit_of kind (working_days plan))
      ≡ ok out

pub request-Requested :
    (host : Host) (db : Db) (user : ℕ) (sent : Filing) (out : Leave × Db)
    → request host db user sent ≡ ok out
    → Requested host db user sent out
unfolding request
request-Requested host db user sent out h = >>=-elim (check_filing sent) _ h λ f checked h1.
    >>=-elim (known_kind (type_by_code db f.kind)) _ h1 λ kind known h2.
      >>=-elim (plan_days db user (record { from = f.start_date; to = f.end_date })) _ h2
        λ plan planned h3.
          >>=-elim (check_rules kind f (working_days plan) (year_of (today host))) _ h3
            λ _ ruled h4.
              >>=-elim (attachment_mime host db user f.attachment_key) _ h4 λ mime vouched h5.
                record {
                  filing = f;
                  kind = kind;
                  plan = plan;
                  mime = mime;
                  checked = checked;
                  known = known;
                  planned = planned;
                  ruled = ruled;
                  vouched = vouched;
                  created = h5;
                }

-- A request that an UPDATE has moved on from one status.
pub record Settled (db : Db) (id : ℕ) (from : Status) (decided : Leave → Leave) (row : Leave)
    (db' : Db) : Type 0 where
  pub old : Leave
  pub found_old : find (is_from id from) db.leave_requests ≡ some old
  pub row_is : row ≡ decided old
  pub db_is :
      db' ≡ record db { leave_requests = rewrite (is_from id from) decided db.leave_requests }

pub settle-Settled :
    (db : Db) (id : ℕ) (from : Status) (decided : Leave → Leave) (row : Leave) (db' : Db)
    → settle db id from decided ≡ ok (row, db')
    → Settled db id from decided row db'
unfolding settle
settle-Settled db id from decided row db' h =
    elim (Option-cases (find (is_from id from) db.leave_requests)) [
      | inl e ↦ absurd (ground arith)
      | inr (r, e) ↦ record { old = r; found_old = e; row_is = ground arith; db_is = ground arith }
    ]

pub record Cancelled (host : Host) (db : Db) (claims : Claims) (id : ℕ) (row : Leave) (db' : Db)
    : Type 0 where
  pub old : Leave
  pub read_old : leave_by_id db id ≡ ok old
  pub allowed : may_cancel host claims old ≡ ok tt
  pub settled : Settled db id old.status (cancelled_by claims.user_id host.now) row db'

pub cancel-Cancelled :
    (host : Host) (db : Db) (claims : Claims) (id : ℕ) (row : Leave) (db' : Db)
    → cancel host db claims id ≡ ok (row, db')
    → Cancelled host db claims id row db'
unfolding cancel
cancel-Cancelled host db claims id row db' h = >>=-elim (leave_by_id db id) _ h λ old read_old h1.
    >>=-elim (may_cancel host claims old) _ h1 λ _ allowed h2. record {
      old = old;
      read_old = read_old;
      allowed = allowed;
      settled = settle-Settled db id old.status _ row db' h2;
    }

pub record Decided (host : Host) (db : Db) (claims : Claims) (id : ℕ) (decision : Decision)
    (note : Text) (row : Leave) (db' : Db) : Type 0 where
  pub old : Leave
  pub may_decide : at_least claims.role Role.supervisor ≡ true
  pub a_decision : is_decision decision ≡ true
  pub read_old : leave_by_id db id ≡ ok old
  pub not_own : (old.user_id == claims.user_id) ≡ false
  pub reached : reach db claims old.user_id ≡ ok tt
  pub settled :
      Settled db id Status.pending (decided_by claims.user_id host.now decision note) row db'

passed : (b : Bool) (e : Error) {u : Unit {0}} → refuse_if (not b) e ≡ ok u → b ≡ true
passed true e h = refl
passed false e h = cc

pub decide-Decided :
    (host : Host) (db : Db) (claims : Claims) (id : ℕ) (decision : Decision) (note : Text)
    (row : Leave) (db' : Db)
    → decide host db claims id decision note ≡ ok (row, db')
    → Decided host db claims id decision note row db'
unfolding decide
decide-Decided host db claims id decision note row db' h =
    >>=-elim (refuse_if (not (at_least claims.role Role.supervisor)) _) _ h λ _ g1 h1.
      >>=-elim (refuse_if (not (is_decision decision)) _) _ h1 λ _ g2 h2.
        >>=-elim (check_note note) _ h2 λ _ g3 h3.
          >>=-elim (leave_by_id db id) _ h3 λ old read_old h4.
            >>=-elim (refuse_if (old.user_id == claims.user_id) _) _ h4 λ _ g5 h5.
              >>=-elim (reach db claims old.user_id) _ h5 λ _ reached h6. record {
                old = old;
                may_decide = passed _ _ g1;
                a_decision = passed _ _ g2;
                read_old = read_old;
                not_own = refuse_if-eq_ok _ _ g5;
                reached = reached;
                settled = settle-Settled db id Status.pending _ row db' h6;
              }

-- A request that may be cancelled is pending or approved.
pub may_cancel-is_active :
    (host : Host) (claims : Claims) (r : Leave)
    → may_cancel host claims r ≡ ok tt
    → is_active r.status ≡ true
unfolding may_cancel
may_cancel-is_active host claims r h = ground arith

-- The quota that is written: the one sent, with the carried-over days that were given.
abbrev pub sent_quota : Quota → Option ℤ → Quota
sent_quota q carried_over = record q { carried_over_days = carried carried_over }

pub record Assigned (db : Db) (claims : Claims) (sent : Quota) (carried_over : Option ℤ)
    (row : Quota) (db' : Db) : Type 0 where
  pub kind : LeaveType
  pub allowed : at_least claims.role Role.hr_admin ≡ true
  pub not_own : (sent.user_id == claims.user_id) ≡ false
  pub checked : check_quota (sent_quota sent carried_over) ≡ ok tt
  pub known : known_type (type_by_id db sent.leave_type_id) ≡ ok kind
  pub has_quota : is_some kind.quota_days_per_year ≡ true
  pub stored :
      set_quota db
        (sent_quota sent carried_over)
        (not (is_some carried_over))
        (quota_entry claims sent.user_id)
      ≡ ok (row, db')

pub assign_quota-Assigned :
    (db : Db) (claims : Claims) (sent : Quota) (carried_over : Option ℤ) (row : Quota) (db' : Db)
    → assign_quota db claims sent carried_over ≡ ok (row, db')
    → Assigned db claims sent carried_over row db'
unfolding assign_quota
assign_quota-Assigned db claims sent carried_over row db' h =
    >>=-elim (refuse_if (not (at_least claims.role Role.hr_admin)) _) _ h λ _ g1 h1.
      >>=-elim (refuse_if (sent.user_id == claims.user_id) _) _ h1 λ _ g2 h2.
        >>=-elim (check_quota (sent_quota sent carried_over)) _ h2 λ _ checked h3.
          >>=-elim (known_type (type_by_id db sent.leave_type_id)) _ h3 λ kind known h4.
            >>=-elim (refuse_if (not (is_some kind.quota_days_per_year)) _) _ h4 λ _ g5 h5. record {
              kind = kind;
              allowed = passed _ _ g1;
              not_own = refuse_if-eq_ok _ _ g2;
              checked = ground (arith, checked);
              known = known;
              has_quota = passed _ _ g5;
              stored = h5;
            }
