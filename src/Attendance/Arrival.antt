-- ===== src/Attendance/Arrival.antt =====
-- What a check-in leaves (attendance/service.go `CheckIn`).
use attendance_system.Prelude.{
  subst, ℕ, ◌≡◌, refl, sym, ap, Bool, false, none, some, List, [], ◌∷◌, ◌++◌, arith, any, find,
  find-snoc, ok, >>=-elim,
}
use attendance_system.Schedule.Resolve.{Day}
use attendance_system.Schedule.Roster.{plan_days}
use attendance_system.Attendance.Shift.{Shift, pick_shift, schedule_id_of, late_minutes}
use attendance_system.Attendance.Picking.{PickedFrom, pick_shift-PickedFrom}
use attendance_system.Attendance.Service.{Host, evidence, three_day_span, opened, check_in}
use attendance_system.Db.{Db}
use attendance_system.Attendance.Validation.{Mark, check_mark}
use attendance_system.Attendance.Rows.{Attendance}
use attendance_system.Attendance.Store.{is_of_day, create, held}
use attendance_system.Attendance.Proving.{Proved, evidence-Proved}

pub record CheckedIn (host : Host) (db : Db) (user : ℕ) (mark : Mark) (row : Attendance) (db' : Db)
    : Type 0 where
  pub plan : List Day
  pub planned : plan_days db user (three_day_span host) ≡ ok plan
  pub picked : Shift
  pub allowed : PickedFrom host.now host.zone plan picked
  pub date_is : row.work_date ≡ picked.date
  pub schedule_is : row.schedule_id ≡ schedule_id_of picked
  pub at_is : row.check_in_at ≡ host.now
  pub late_is : row.late_minutes ≡ late_minutes picked host.now
  pub proved : Proved host db user mark row.check_in
  pub was_free : held db user row.work_date ≡ none
  pub stands : held db' user row.work_date ≡ some row

any-false-find {ℓ} : {A : Type ℓ} (p : A → Bool) (xs : List A) → any p xs ≡ false → find p xs ≡ none
any-false-find p [] h = refl
any-false-find p (x ∷ xs) h = ground (arith, any-false-find p xs)

record Stored (db : Db) (new row : Attendance) (db' : Db) : Type 0 where
  row_is : row ≡ record new { id = db.next_attendance_id }
  free : any (is_of_day row.user_id row.work_date) db.attendances ≡ false
  rows : db'.attendances ≡ db.attendances ++ row ∷ []

create-Stored :
    (db : Db) (new row : Attendance) (db' : Db)
    → create db new ≡ ok (row, db')
    → Stored db new row db'
unfolding create
create-Stored db new row db' h = record {
  row_is = ground arith;
  free = ground arith;
  rows = ground arith;
}

-- A check-in leaves one attendance for the date of a shift that the rule of the nearest window
-- allows, on which the person had none, with that shift's schedule and lateness. Its photo was new
-- and vouched for; the evidence has the point, the office that comes first for it, and whether that
-- office's circle holds it; where the geofence is enforced, some live office's circle holds it.
pub check_in_lem :
    (host : Host) (db : Db) (user : ℕ) (mark : Mark) (row : Attendance) (db' : Db)
    → check_in host db user mark ≡ ok (row, db')
    → CheckedIn host db user mark row db'
unfolding check_in
check_in_lem host db user mark row db' h = >>=-elim (check_mark mark) _ h λ _ _ h1.
    >>=-elim (plan_days db user (three_day_span host)) _ h1 λ plan planned h2.
      >>=-elim (pick_shift host.now host.zone plan) _ h2 λ picked found h3.
        >>=-elim (evidence host db user mark) _ h3 λ proof proved h4.
          let p = evidence-Proved host db user mark proof proved in
          let s = create-Stored db (opened host user picked proof) row db' h4 in
          let user_is : row.user_id ≡ user = ap (λ (r : Attendance). r.user_id) s.row_is in
          let none_yet : held db user row.work_date ≡ none =
            subst (λ u. held db u row.work_date ≡ none) user_is
              (any-false-find (is_of_day row.user_id row.work_date) db.attendances s.free) in
          record {
            plan = plan;
            planned = planned;
            picked = picked;
            allowed = pick_shift-PickedFrom host.now host.zone plan picked found;
            date_is = ap (λ (r : Attendance). r.work_date) s.row_is;
            schedule_is = ap (λ (r : Attendance). r.schedule_id) s.row_is;
            at_is = ap (λ (r : Attendance). r.check_in_at) s.row_is;
            late_is = ap (λ (r : Attendance). r.late_minutes) s.row_is;
            proved =
                subst (λ (r : Attendance). Proved host db user mark r.check_in) (sym s.row_is) p;
            was_free = none_yet;
            stands = rw (s.rows) (
                find-snoc (is_of_day user row.work_date) db.attendances row none_yet
                  (ground (arith, user_is)));
          }
