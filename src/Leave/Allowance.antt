-- ===== src/Leave/Allowance.antt =====
-- Setting a quota (leave/leavetype.go `SetQuota`): what is stored, what is kept, what is audited.
use attendance_system.Prelude.{
  ℕ, ◌≡◌, refl, ap, ◌∙◌, ◌≢◌, Bool, true, false, not, Option, none, some, List, [], ◌∷◌, ◌++◌,
  arith, find, find-holds, find-rewrite_same, find-updated, find-snoc, find-snoc_other, ok, ℤ, pos,
}
use attendance_system.Access.{Role, at_least, Claims}
use attendance_system.Leave.Rows.{Quota}
use attendance_system.Leave.Validation.{is_some}
use attendance_system.Leave.TypeStore.{
  is_quota_of, quota_row, keep_carried, upsert_quota, set_quota,
}
use attendance_system.Leave.Types.{quota_entry, assign_quota}
use attendance_system.Leave.Inversion.{sent_quota, assign_quota-Assigned}
use attendance_system.Db.{Payload, AuditLog, Db}

abbrev pub carried_of : Option Quota → ℤ
carried_of none = pos 0
carried_of (some q) = q.carried_over_days

-- The quota that is stored: the days sent, and the carried-over days that were given, else those
-- already held, else none.
abbrev pub stored_quota : Db → Quota → Option ℤ → Quota
stored_quota db sent (some days) = record sent { carried_over_days = days }
stored_quota db sent none = record sent {
  carried_over_days = carried_of (quota_row db sent.user_id sent.leave_type_id sent.year);
}

stored_quota-eq :
    (db : Db) (sent : Quota) (carried_over : Option ℤ)
    → keep_carried
        (not (is_some carried_over))
        (quota_row db sent.user_id sent.leave_type_id sent.year)
        (sent_quota sent carried_over)
      ≡ stored_quota db sent carried_over
stored_quota-eq db sent (some d) = refl
stored_quota-eq db sent none = go (quota_row db sent.user_id sent.leave_type_id sent.year)
  where
    go :
        (before : Option Quota)
        → keep_carried true before (record sent { carried_over_days = pos 0 })
          ≡ record sent { carried_over_days = carried_of before }
    go none = refl
    go (some q) = refl

-- A quota as the audit log shows it, `null` for none.
abbrev pub document : Option Quota → Payload
document none = Payload.null
document (some q) = Payload.quota q.leave_type_id q.year q.quota_days q.carried_over_days

-- The entry for a quota that replaces another, or none.
abbrev pub replaced_entry : Claims → Option Quota → Quota → AuditLog
replaced_entry claims before row = record {
  actor_id = claims.user_id;
  action = "leave.quota_set";
  entity_type = "user";
  entity_id = row.user_id;
  before = document before;
  after = document (some row);
}

quota_entry-replaced :
    (claims : Claims) (user : ℕ) (before : Option Quota) (row : Quota)
    → row.user_id ≡ user
    → quota_entry claims user before row ≡ replaced_entry claims before row
quota_entry-replaced claims user none row e = rw e refl
quota_entry-replaced claims user (some q) row e = rw e refl

-- The days of a quota row.
abbrev pub days_of_row : Option Quota → Option (ℤ × ℤ)
days_of_row none = none
days_of_row (some q) = some (q.quota_days, q.carried_over_days)

upsert-found :
    (rows : List Quota) (q : Quota) (user kind year : ℕ) (before : Option Quota)
    → q.user_id ≡ user
    → q.leave_type_id ≡ kind
    → q.year ≡ year
    → find (is_quota_of user kind year) rows ≡ before
    → days_of_row (find (is_quota_of user kind year) (upsert_quota before q rows))
      ≡ some (q.quota_days, q.carried_over_days)
upsert-found rows q user kind year none eu ek ey e =
    rw (find-snoc (is_quota_of user kind year) rows q e (ground arith)) refl
upsert-found rows q user kind year (some b) eu ek ey e =
    let p = is_quota_of user kind year in
    let f : Quota → Quota =
      λ r. record r { quota_days = q.quota_days; carried_over_days = q.carried_over_days } in
    rw (eu, ek, ey, find-updated p p f rows {r = b} (λ x. ground arith) e, find-holds p rows e) refl

upsert-other :
    (rows : List Quota) (q : Quota) (user kind year : ℕ) (before : Option Quota)
    → is_quota_of user kind year q ≡ false
    → find (is_quota_of user kind year) (upsert_quota before q rows)
      ≡ find (is_quota_of user kind year) rows
upsert-other rows q user kind year none h = find-snoc_other (is_quota_of user kind year) rows q h
upsert-other rows q user kind year (some _) h =
    find-rewrite_same (is_quota_of q.user_id q.leave_type_id q.year) _ (is_quota_of user kind year)
      rows (λ x p. ground arith) (λ x p. ground arith)

same_key :
    (p q : Quota) (user kind year : ℕ)
    → p.user_id ≡ q.user_id
    → p.leave_type_id ≡ q.leave_type_id
    → p.year ≡ q.year
    → is_quota_of user kind year p ≡ is_quota_of user kind year q
same_key p q user kind year eu ek ey = rw (eu, ek, ey) refl

-- What setting a quota has met and has done.
pub record QuotaSet (db : Db) (claims : Claims) (sent : Quota) (carried_over : Option ℤ)
    (row : Quota) (db' : Db) : Type 0 where
  pub by_hr_admin : at_least claims.role Role.hr_admin ≡ true
  pub of_another : sent.user_id ≢ claims.user_id
  pub row_is : row ≡ stored_quota db sent carried_over
  pub stands :
      days_of_row (quota_row db' sent.user_id sent.leave_type_id sent.year)
      ≡ some (row.quota_days, row.carried_over_days)
  pub others :
      (user kind year : ℕ)
      → is_quota_of user kind year sent ≡ false
      → quota_row db' user kind year ≡ quota_row db user kind year
  pub audited :
      db'.audit_logs
      ≡ db.audit_logs
        ++ replaced_entry claims (quota_row db sent.user_id sent.leave_type_id sent.year) row ∷ []

set_quota-eq_ok :
    (db : Db) (q : Quota) (keep_it : Bool) (audit : Option Quota → Quota → AuditLog) (row : Quota)
    (db' : Db)
    → set_quota db q keep_it audit ≡ ok (row, db')
    → let before = quota_row db q.user_id q.leave_type_id q.year in
      (row ≡ keep_carried keep_it before q)
      × (db'.leave_balances ≡ upsert_quota before row db.leave_balances)
      × (db'.audit_logs ≡ db.audit_logs ++ audit before row ∷ [])
unfolding set_quota
set_quota-eq_ok db q keep_it audit row db' h = ground arith

stored_key :
    (db : Db) (sent : Quota) (carried_over : Option ℤ)
    → let row = stored_quota db sent carried_over in
      (row.user_id ≡ sent.user_id)
      × (row.leave_type_id ≡ sent.leave_type_id)
      × (row.year ≡ sent.year)
stored_key db sent carried_over = ground arith

-- A quota is set by hr_admin or above, of somebody else. The row holds the days sent, with the
-- carried-over days given, or those held before when none are given; no other row changes, and
-- one audit entry names the caller, the person, and the quota before and after.
pub assign_quota_lem :
    (db : Db) (claims : Claims) (sent : Quota) (carried_over : Option ℤ) (row : Quota) (db' : Db)
    → assign_quota db claims sent carried_over ≡ ok (row, db')
    → QuotaSet db claims sent carried_over row db'
assign_quota_lem db claims sent carried_over row db' h =
    let a = assign_quota-Assigned db claims sent carried_over row db' h in
    let s = set_quota-eq_ok db _ _ _ row db' a.stored in
    let row_is : row ≡ stored_quota db sent carried_over =
      s.0 ∙ stored_quota-eq db sent carried_over in
    let k = stored_key db sent carried_over in
    record {
      by_hr_admin = a.allowed;
      of_another = ground (arith, a.not_own);
      row_is = row_is;
      stands = rw (s.1) (
          upsert-found db.leave_balances row sent.user_id sent.leave_type_id sent.year
            (quota_row db sent.user_id sent.leave_type_id sent.year)
            (ap (λ (q : Quota). q.user_id) row_is ∙ k.0)
            (ap (λ (q : Quota). q.leave_type_id) row_is ∙ k.1)
            (ap (λ (q : Quota). q.year) row_is ∙ k.2) refl);
      others = λ user kind year other. rw (s.1) (
          upsert-other db.leave_balances row user kind year _ (
            same_key row sent user kind year (ap (λ (q : Quota). q.user_id) row_is ∙ k.0)
              (ap (λ (q : Quota). q.leave_type_id) row_is ∙ k.1)
              (ap (λ (q : Quota). q.year) row_is ∙ k.2)
            ∙ other));
      audited =
          s.2
          ∙ ap (λ e. db.audit_logs ++ e ∷ [])
              (quota_entry-replaced claims sent.user_id _ row
                (ap (λ (q : Quota). q.user_id) row_is ∙ k.0));
    }
