-- ===== src/Attendance/Approving.antt =====
-- What an approval leaves (attendance/correction.go `corrected`, attendance/repository.go
-- `Approve`).
use attendance_system.Prelude.{
  subst, ℕ, ◌≡◌, refl, sym, ap, ◌∙◌, ◌≢◌, inl, inr, true, not, Option, none, some, List, [], ◌∷◌,
  arith, ◌==◌, Bool-cases, find, rewrite, find-holds, find-rewrite_same, find-updated, ok,
  refuse_if, >>=-elim, ℤ,
}
use attendance_system.Time.{Instant}
use attendance_system.Attendance.Shift.{place, late_minutes}
use attendance_system.Attendance.Service.{Host}
use attendance_system.Attendance.Corrections.{or_blank, apply_correction}
use attendance_system.Attendance.Effects.{write_times-RowEffect}
use attendance_system.Db.{Db}
use attendance_system.Attendance.Rows.{Attendance, Correction}
use attendance_system.Attendance.Store.{is_of_day, held}
use attendance_system.Attendance.CorrectionStore.{
  is_pending, correction_by_id, is_pending_row, settle, write_times, with_old_times, approve,
}
use attendance_system.Attendance.Closed.{found_or}
use attendance_system.Attendance.Writing.{write_times-Written}
use attendance_system.Attendance.Applying.{
  InAfter, OutAfter, EarlyAfter, TimesStand, apply_correction-Applied,
}

pub settle-rows :
    (db : Db) (id : ℕ) (f : Correction → Correction) (row : Correction) (db' : Db)
    → settle db id f ≡ ok (row, db')
    → (db'.attendances ≡ db.attendances)
      × (db'.corrections ≡ rewrite (is_pending_row id) f db.corrections)
      × ((old : Correction) → find (is_pending_row id) db.corrections ≡ some old → row ≡ f old)
unfolding settle
settle-rows db id f row db' h = (ground arith, ground arith, λ old e. ground arith)

-- The row stands under its id, and every other correction is as it was.
pub record Settled (db : Db) (id : ℕ) (row : Correction) (db' : Db) : Type 0 where
  pub stored : correction_by_id db' id ≡ ok row
  pub others : (other : ℕ) → other ≢ id → correction_by_id db' other ≡ correction_by_id db other

-- What an approval has done, with the correction as it was read.
pub record ApprovedOf (host : Host) (db : Db) (id : ℕ) (f : Correction → Correction)
    (row : Correction) (db' : Db) : Type 0 where
  pub old : Correction
  pub was_read : correction_by_id db id ≡ ok old
  pub was_pending : is_pending old.status ≡ true
  pub row_is : row ≡ with_old_times (held db old.user_id old.work_date) (f old)
  pub settled : Settled db id row db'
  pub times : TimesStand host db old db'

or_blank-day :
    (db : Db) (c : Correction) (current : Option Attendance)
    → held db c.user_id c.work_date ≡ current
    → ((or_blank c current).user_id ≡ c.user_id) × ((or_blank c current).work_date ≡ c.work_date)
or_blank-day db c none e = (refl, refl)
or_blank-day db c (some r) e =
    let p = find-holds (is_of_day c.user_id c.work_date) db.attendances {r = r} e in
    (ground arith, ground arith)

first_pending :
    (id : ℕ) (rows : List Correction) (c : Correction)
    → find (λ x. x.id == id) rows ≡ some c
    → is_pending c.status ≡ true
    → find (is_pending_row id) rows ≡ some c
first_pending id [] c h p = absurd (ground arith)
first_pending id (x ∷ rows) c h p = elim (Bool-cases (x.id == id)) [
  | inl y ↦
      let same : x ≡ c = ground arith in
      let q : is_pending x.status ≡ true =
        subst (λ (z : Correction). is_pending z.status ≡ true) (sym same) p in
      rw (y, q) (ap some same)
  | inr n ↦ rw n (first_pending id rows c (ground arith) p)
]

pending_by_id :
    (db : Db) (id : ℕ) (c : Correction)
    → correction_by_id db id ≡ ok c
    → is_pending c.status ≡ true
    → find (is_pending_row id) db.corrections ≡ some c
pending_by_id db id c h p = first_pending id db.corrections c (found_or db id h) p

pub settle-Settled :
    (db mid : Db) (id : ℕ) (f : Correction → Correction) (c row : Correction) (db' : Db)
    → mid.corrections ≡ db.corrections
    → ((x : Correction) → (f x).id ≡ x.id)
    → correction_by_id db id ≡ ok c
    → is_pending c.status ≡ true
    → settle mid id f ≡ ok (row, db')
    → (row ≡ f c) × Settled db id row db'
settle-Settled db mid id f c row db' same keeps read pending h =
    let (_, rows, made) = settle-rows mid id f row db' h in
    let p = is_pending_row id in
    let now : db'.corrections ≡ rewrite p f db.corrections = rows ∙ ap (rewrite p f) same in
    let found = pending_by_id db id c read pending in
    let row_is : row ≡ f c = made c (subst (λ cs. find p cs ≡ some c) (sym same) found) in
    let hit : p c ≡ true = find-holds p db.corrections found in
    (
      row_is,
      record {
        stored =
            rw
              (
                now,
                find-updated (λ x. x.id == id) p f db.corrections {r = c}
                    (λ x. ground (arith, keeps x)) (found_or db id read),
                hit,
              )
              (ap ok (sym row_is));
        others = λ other ne.
            rw
              (
                now,
                find-rewrite_same p f (λ x. x.id == other) db.corrections (λ x q. ground arith)
                    (λ x q. ground (arith, keeps x)),
              )
              refl;
      },
    )

with_old_times-id :
    (current : Option Attendance) (c : Correction) → (with_old_times current c).id ≡ c.id
with_old_times-id none c = refl
with_old_times-id (some r) c = refl

pub approve-ApprovedOf :
    (host : Host) (db : Db) (id : ℕ) (f : Correction → Correction) (row : Correction) (db' : Db)
    → ((x : Correction) → (f x).id ≡ x.id)
    → approve db id f (apply_correction host db) ≡ ok (row, db')
    → ApprovedOf host db id f row db'
unfolding approve
approve-ApprovedOf host db id f row db' keeps h = >>=-elim (correction_by_id db id) _ h λ c read h1.
    >>=-elim (refuse_if (not (is_pending c.status)) _) _ h1 λ _ g h2.
      let current = held db c.user_id c.work_date in
      >>=-elim (apply_correction host db c current) _ h2 λ new applied h3.
        >>=-elim (write_times db current new) _ h3 λ mid written h4.
          let a = apply_correction-Applied host db c current new applied in
          let day = or_blank-day db c current refl in
          let w =
            write_times-Written db c.user_id c.work_date current new mid refl
              (λ r e. a.id_is ∙ ap (λ o. (or_blank c o).id) e) (a.user_is ∙ day.0)
              (a.date_is ∙ day.1) written in
          let p : is_pending c.status ≡ true = ground (arith, g) in
          let u = write_times-RowEffect db current new mid written in
          let f' : Correction → Correction = λ d. with_old_times current (f d) in
          let s = settle-rows mid id f' row db' h4 in
          let k =
            settle-Settled db mid id f' c row db' (u.1.0)
              (λ x. with_old_times-id current (f x) ∙ keeps x) read p h4 in
          record {
            old = c;
            was_read = read;
            was_pending = p;
            row_is = k.0;
            settled = k.1;
            times = record {
              row = w.row;
              hours = a.hours;
              stands = rw (s.0) w.stands;
              hours_are = a.hours_are;
              in_is = subst (InAfter c.proposed_check_in_at current) (sym w.in_is) a.in_is;
              out_is = subst (OutAfter c.proposed_check_out_at current) (sym w.out_is) a.out_is;
              ordered = rw (w.in_is, w.out_is) a.ordered;
              early_is =
                  subst
                    (λ (m : ℤ).
                      EarlyAfter (place c.work_date a.hours host.zone) current w.row.check_out_at m)
                    (sym w.early_is)
                    (subst
                      (λ (o : Option Instant).
                        EarlyAfter (place c.work_date a.hours host.zone) current o
                          new.early_leave_minutes)
                      (sym w.out_is)
                      (subst
                        (λ d.
                          EarlyAfter (place d a.hours host.zone) current new.check_out_at
                            new.early_leave_minutes)
                        (a.date_is ∙ day.1) a.early_is));
              late_is =
                  w.late_is
                  ∙ a.late_is
                  ∙ ap (λ d. late_minutes (place d a.hours host.zone) new.check_in_at)
                      (a.date_is ∙ day.1)
                  ∙ ap (late_minutes (place c.work_date a.hours host.zone)) (sym (w.in_is));
            };
          }
