-- ===== src/Schedule/RosterAudit.antt =====
-- The audit entries of schedule/service.go's `Assign`.
use attendance_system.Prelude.{
  ◌≡◌, refl, sym, ap, ◌∙◌, inl, inr, Bool, true, false, Option, none, some, List, [], ◌∷◌, ◌++◌,
  map, arith, Bool-cases, any, keep, find, All, All-map, find-keep, ok,
}
use attendance_system.Access.{Claims}
use attendance_system.Time.{Date}
use attendance_system.Schedule.Rows.{ShiftAssignment}
use attendance_system.Db.{Payload, AuditLog, Db, ok_db}
use attendance_system.Schedule.Roster.{assignment_on}
use attendance_system.Schedule.RosterStore.{same_slot, put_row, put_rows, lock_assignments}
use attendance_system.Schedule.Planning.{Host, today, is_past}
use attendance_system.Schedule.Assigning.{Assignment, planned_row, was_held, audit_assigned, assign}
use attendance_system.Schedule.RosterMap.{upserted, assign-Assigned}

-- An assignment as the audit log shows it, `null` for none.
abbrev pub document : Option ShiftAssignment → Payload
document none = Payload.null
document (some a) = Payload.assignment a.work_date a.schedule_id

-- The entry of one past row, from the roster as it stood.
abbrev pub changed_entry : Db → Claims → ShiftAssignment → AuditLog
changed_entry db claims a = record {
  actor_id = claims.user_id;
  action = "shift_assignment.changed";
  entity_type = "shift_assignment";
  entity_id = a.user_id;
  before = document (assignment_on db a.user_id a.work_date);
  after = document (some a);
}

was_held-document : (held : Option ShiftAssignment) → was_held held ≡ document held
was_held-document none = refl
was_held-document (some a) = refl

abbrev Locked : List ShiftAssignment → ShiftAssignment → Type 0
Locked news a = any (same_slot a.user_id a.work_date) news ≡ true

find-lock_assignments :
    (db : Db) (news : List ShiftAssignment) (a : ShiftAssignment)
    → Locked news a
    → find (same_slot a.user_id a.work_date) (lock_assignments db news)
      ≡ assignment_on db a.user_id a.work_date
unfolding lock_assignments
find-lock_assignments db news a h =
    find-keep (λ x. any (same_slot x.user_id x.work_date) news) (same_slot a.user_id a.work_date)
      db.shift_assignments
      (λ x k.
        let eu : x.user_id ≡ a.user_id = ground arith in
        let ed : x.work_date ≡ a.work_date = ground arith in rw (eu, ed) h)

Locked-self : (news : List ShiftAssignment) → All (Locked news) news
Locked-self [] = tt
Locked-self (a ∷ news) = (
  ground arith,
  All-map (Locked news) (Locked (a ∷ news)) (λ x h. ground arith) news (Locked-self news),
)

audit_assigned-Locked :
    (db : Db) (claims : Claims) (today : Date) (news some_news : List ShiftAssignment)
    → All (Locked news) some_news
    → audit_assigned claims today some_news (lock_assignments db news)
      ≡ map (changed_entry db claims) (keep (λ a. is_past a.work_date today) some_news)
unfolding audit_assigned
audit_assigned-Locked db claims today news [] h = refl
audit_assigned-Locked db claims today news (a ∷ more) h =
    let rest = audit_assigned-Locked db claims today news more h.1 in
    elim (Bool-cases (is_past a.work_date today)) [
      | inl t ↦
          rw
            (
              t,
              find-lock_assignments db news a h.0,
              was_held-document (assignment_on db a.user_id a.work_date),
              rest,
            )
            refl
      | inr o ↦ rw (o, rest) refl
    ]

keep-any-false {ℓ} : {A : Type ℓ} (p : A → Bool) (xs : List A) → any p xs ≡ false → keep p xs ≡ []
keep-any-false p [] h = refl
keep-any-false p (x ∷ xs) h = ground (arith, keep-any-false p xs)

put_row-audit_logs :
    (held : Option ShiftAssignment) (new : ShiftAssignment) (db : Db)
    → (put_row held new db).1.audit_logs ≡ db.audit_logs
put_row-audit_logs none new db = refl
put_row-audit_logs (some a) new db = refl

put_rows-audit_logs :
    (news : List ShiftAssignment) (db : Db) → (put_rows news db).1.audit_logs ≡ db.audit_logs
unfolding put_rows
put_rows-audit_logs [] db = refl
put_rows-audit_logs (new ∷ more) db =
    let held = assignment_on db new.user_id new.work_date in
    put_rows-audit_logs more (put_row held new db).1 ∙ put_row-audit_logs held new db

-- A call of `Assign` that succeeds appends to the audit log one entry for each row of a date before
-- today, in the order sent, which names the caller, what the roster held for that person and date
-- before the call, and what was sent; rows of today and later are not audited.
pub assign-audit_logs :
    (host : Host) (db : Db) (claims : Claims) (sent : List Assignment) (rows : List ShiftAssignment)
    (db' : Db)
    → assign host db claims sent ≡ ok (rows, db')
    → db'.audit_logs
      ≡ db.audit_logs
        ++ map
            (changed_entry db claims)
            (keep (λ a. is_past a.work_date (today host)) (map planned_row sent))
assign-audit_logs host db claims sent rows db' h =
    let a = assign-Assigned host db claims sent rows db' h in
    let news = map planned_row sent in
    let same : (upserted host db claims sent).1 ≡ db' = ok_db _ _ a.wrote in
    let before = put_rows-audit_logs news db in
    sym (ap (λ (x : Db). x.audit_logs) same)
    ∙ elim (Bool-cases (any (λ a. is_past a.work_date (today host)) news)) [
      | inl t ↦
          rw (t, before)
            (ap (λ l. db.audit_logs ++ l)
              (audit_assigned-Locked db claims (today host) news news (Locked-self news)))
      | inr o ↦
          rw (o, before)
            (ap (λ l. db.audit_logs ++ l)
              (sym (ap (map (changed_entry db claims)) (keep-any-false _ news o))))
    ]
