-- ===== src/Attendance/Writing.antt =====
-- What writing the times of an approval does to the rows (attendance/repository.go `Approve`).
use attendance_system.Prelude.{
  subst, ℕ, ◌≡◌, refl, true, Option, none, some, [], ◌∷◌, ◌++◌, arith, ◌==◌, rewrite, find-updated,
  find-snoc, ok, >>=-elim,
}
use attendance_system.Time.{Date}
use attendance_system.Db.{Db}
use attendance_system.Attendance.Rows.{Attendance}
use attendance_system.Attendance.Store.{is_of_day, create, held}
use attendance_system.Attendance.CorrectionStore.{with_times, write_times}

-- The row in an approval's place, at the person's work date.
pub record Written (user : ℕ) (d : Date) (db' : Db) (next : Attendance) : Type 0 where
  pub row : Attendance
  pub stands : held db' user d ≡ some row
  pub in_is : row.check_in_at ≡ next.check_in_at
  pub out_is : row.check_out_at ≡ next.check_out_at
  pub late_is : row.late_minutes ≡ next.late_minutes
  pub early_is : row.early_leave_minutes ≡ next.early_leave_minutes

create-attendances :
    (db : Db) (new row : Attendance) (db' : Db)
    → create db new ≡ ok (row, db')
    → db'.attendances ≡ db.attendances ++ record new { id = db.next_attendance_id } ∷ []
unfolding create
create-attendances db new row db' h = ground arith

write_times-attendances :
    (db : Db) (new : Attendance) (db' : Db)
    → write_times db none new ≡ ok db'
    → db'.attendances ≡ db.attendances ++ record new { id = db.next_attendance_id } ∷ []
unfolding write_times
write_times-attendances db new db' h = >>=-elim (create db new) _ h λ out e h1.
    let same : out.1 ≡ db' = ground arith in
    subst
      (λ (m : Db). m.attendances ≡ db.attendances ++ record new { id = db.next_attendance_id } ∷ [])
      same (create-attendances db new (out.0) (out.1) e)

pub write_times-Written :
    (db : Db) (user : ℕ) (d : Date) (current : Option Attendance) (new : Attendance) (db' : Db)
    → held db user d ≡ current
    → ((r : Attendance) → current ≡ some r → new.id ≡ r.id)
    → new.user_id ≡ user
    → new.work_date ≡ d
    → write_times db current new ≡ ok db'
    → Written user d db' new
unfolding write_times
write_times-Written db user d none new db' e k eu ed h =
    let row : Attendance = record new { id = db.next_attendance_id } in
    let a : db'.attendances ≡ db.attendances ++ row ∷ [] = write_times-attendances db new db' h in
    record {
      row = row;
      stands = rw (a) (find-snoc (is_of_day user d) db.attendances row e (ground (arith, eu, ed)));
      in_is = refl;
      out_is = refl;
      late_is = refl;
      early_is = refl;
    }
write_times-Written db user d (some r) new db' e k eu ed h =
    let a : db'.attendances ≡ rewrite (λ s. s.id == new.id) (with_times new) db.attendances =
      ground arith in
    let same : (r.id == new.id) ≡ true = ground (arith, k r refl) in
    record {
      row = with_times new r;
      stands =
          rw
            (
              a,
              find-updated (is_of_day user d) (λ s. s.id == new.id) (with_times new) db.attendances
                  {r = r} (λ s. ground arith) e,
              same,
            )
            refl;
      in_is = refl;
      out_is = refl;
      late_is = refl;
      early_is = refl;
    }
