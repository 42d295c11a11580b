-- ===== src/Leave/Release.antt =====
-- What a decision and a cancellation do to the days of a balance.
use attendance_system.Prelude.{
  ℕ, ◌+◌, ◌≡◌, ap, true, arith, share, find-holds, total-rewrite, AtMostOne-of_key, ok, pos,
  pos_part, neg_part, ◌+ℤ◌, int_laws,
}
use attendance_system.Access.{Claims}
use attendance_system.Time.{Instant}
use attendance_system.Time.Calendar.{year_of}
use attendance_system.Leave.Rows.{LeaveType, Status, Leave, remaining_days}
use attendance_system.Leave.Store.{is_active, counts, days_in, balance_of, is_from}
use attendance_system.Leave.Requests.{Host, cancelled_by, cancel}
use attendance_system.Leave.Inversion.{Settled, cancel-Cancelled, may_cancel-is_active}
use attendance_system.Leave.Sound.{HasLeaveKey}
use attendance_system.Leave.Quotas.{held_days, held_days-active, left_for}
use attendance_system.Db.{Db}

module _ (db : Db) (id : ℕ) (from : Status) (f : Leave → Leave) (row : Leave) (db' : Db)
    (keys : HasLeaveKey db) (s : Settled db id from f row db') where
  settled_days :
      (user kind year : ℕ) (status : Status)
      → let c = counts user kind year status in
        days_in db' user kind year status + share c (λ r. r.working_days) s.old
        ≡ days_in db user kind year status + share c (λ r. r.working_days) row
  settled_days user kind year status =
      let c = counts user kind year status in
      let one =
        AtMostOne-of_key (λ (r : Leave). r.id) id (is_from id from) db.leave_requests
          (λ r h. ground arith) keys in
      rw (s.db_is, s.row_is)
        (total-rewrite (is_from id from) f c (λ r. r.working_days) db.leave_requests {r = s.old} one
          s.found_old)

  settled_held :
      (user kind year : ℕ)
      → days_in db' user kind year Status.approved
          + days_in db' user kind year Status.pending
          + held_days user kind year s.old
        ≡ days_in db user kind year Status.approved
          + days_in db user kind year Status.pending
          + held_days user kind year row
  settled_held user kind year = omega (
    arith,
    settled_days user kind year Status.approved,
    settled_days user kind year Status.pending,
  )

  settled_quotas : db'.leave_balances ≡ db.leave_balances
  settled_quotas = ap (λ (d : Db). d.leave_balances) s.db_is

  -- What is left grows by the days that the request held and shrinks by those that it holds.
  pub settled_left :
      (user year : ℕ) (kind : LeaveType)
      → remaining_days (balance_of db' user year kind) +ℤ pos (held_days user kind.id year row)
        ≡ remaining_days (balance_of db user year kind) +ℤ pos (held_days user kind.id year s.old)
  unfolding balance_of remaining_days
  settled_left user year kind = rw settled_quotas (omega (int_laws, settled_held user kind.id year))

is_from-is_active :
    (id : ℕ) (from : Status) (r : Leave)
    → is_from id from r ≡ true
    → is_active from ≡ true
    → is_active r.status ≡ true
is_from-is_active id from r h a = ground arith

released :
    (old row : Leave) (kind user : ℕ) (at : Instant)
    → row ≡ cancelled_by user at old
    → kind ≡ row.leave_type_id
    → is_active old.status ≡ true
    → (held_days row.user_id kind (year_of row.start_date) row ≡ 0)
      × (held_days row.user_id kind (year_of row.start_date) old ≡ row.working_days)
released old row kind user at e k a = rw (k, e) (ground arith, held_days-active old a)

given_back :
    (db db' : Db) (row : Leave) (kind : LeaveType) (now before : ℕ)
    → now ≡ 0
    → before ≡ row.working_days
    → left_for db' row kind +ℤ pos now ≡ left_for db row kind +ℤ pos before
    → left_for db' row kind ≡ left_for db row kind +ℤ pos row.working_days
given_back db db' row kind now before n b h = omega (int_laws, ap pos_part h, ap neg_part h)

-- Cancelling a request gives its working days back to the balance of its type and year, if the
-- ids of the requests are unique.
pub cancel_quota :
    (host : Host) (db : Db) (claims : Claims) (id : ℕ) (row : Leave) (db' : Db) (kind : LeaveType)
    → HasLeaveKey db
    → kind.id ≡ row.leave_type_id
    → cancel host db claims id ≡ ok (row, db')
    → left_for db' row kind ≡ left_for db row kind +ℤ pos row.working_days
cancel_quota host db claims id row db' kind keys k h =
    let c = cancel-Cancelled host db claims id row db' h in
    let was_active =
      is_from-is_active id c.old.status c.settled.old
        (find-holds (is_from id c.old.status) db.leave_requests c.settled.found_old)
        (may_cancel-is_active host claims c.old c.allowed) in
    let r =
      released c.settled.old row kind.id claims.user_id host.now c.settled.row_is k was_active in
    given_back db db' row kind _ _ r.0 r.1 (
      settled_left db id c.old.status _ row db' keys c.settled row.user_id (year_of row.start_date)
        kind)
