-- ===== src/Attendance/Effects.antt =====
-- What one statement does to the two tables of the attendance module (attendance/repository.go).
use attendance_system.Prelude.{
  ℕ, ◌+◌, ◌≡◌, refl, ap, ◌∙◌, Bool, true, false, not, ◌&&◌, Option, none, some, List, [], ◌∷◌, ◌++◌,
  arith, ◌==◌, any, rewrite, All, any-false-All, All-map, ok, >>=-elim,
}
use attendance_system.Text.{Text}
use attendance_system.Time.{Instant, Date}
use attendance_system.Db.{Db}
use attendance_system.Attendance.Rows.{Attendance, Status, Correction}
use attendance_system.Attendance.Store.{
  meets_checks, is_of_day, create, with_check_out, is_open_row, store_check_out, save_report,
}
use attendance_system.Attendance.CorrectionStore.{
  is_pending, is_pending_of, create_correction, is_pending_row, settle, with_times, write_times,
}

-- An UPDATE that keeps the id, the person and the work date.
abbrev pub KeepsDay : (Attendance → Attendance) → Type 0
KeepsDay f =
    (r : Attendance)
    → ((f r).id ≡ r.id) × ((f r).user_id ≡ r.user_id) × ((f r).work_date ≡ r.work_date)

-- What happens to attendances.
pub data RowEffect (db db' : Db) : Type 0 where
  added :
      (row : Attendance)
      → row.id ≡ db.next_attendance_id
      → any (is_of_day row.user_id row.work_date) db.attendances ≡ false
      → meets_checks row ≡ true
      → db'.attendances ≡ db.attendances ++ row ∷ []
      → db'.next_attendance_id ≡ db.next_attendance_id + 1
      → RowEffect db db'
  changed :
      (p : Attendance → Bool) (f : Attendance → Attendance)
      → KeepsDay f
      → All (λ r. p r ≡ true → meets_checks r ≡ true → meets_checks (f r) ≡ true) db.attendances
      → db'.attendances ≡ rewrite p f db.attendances
      → db'.next_attendance_id ≡ db.next_attendance_id
      → RowEffect db db'
  unchanged :
      db'.attendances ≡ db.attendances
      → db'.next_attendance_id ≡ db.next_attendance_id
      → RowEffect db db'

-- An UPDATE that keeps the id, the person and the work date, and ends the wait for a decision.
pub record Closes (f : Correction → Correction) : Type 0 where
  pub keeps_id : (c : Correction) → (f c).id ≡ c.id
  pub keeps_user : (c : Correction) → (f c).user_id ≡ c.user_id
  pub keeps_date : (c : Correction) → (f c).work_date ≡ c.work_date
  pub closes : (c : Correction) → is_pending (f c).status ≡ false

-- What happens to attendance_corrections.
pub data CorrectionEffect (db db' : Db) : Type 0 where
  filed :
      (row : Correction)
      → row.id ≡ db.next_correction_id
      → any (is_pending_of row.user_id row.work_date) db.corrections ≡ false
      → db'.corrections ≡ db.corrections ++ row ∷ []
      → db'.next_correction_id ≡ db.next_correction_id + 1
      → CorrectionEffect db db'
  settled :
      (id : ℕ) (f : Correction → Correction)
      → Closes f
      → db'.corrections ≡ rewrite (is_pending_row id) f db.corrections
      → db'.next_correction_id ≡ db.next_correction_id
      → CorrectionEffect db db'
  untouched :
      db'.corrections ≡ db.corrections
      → db'.next_correction_id ≡ db.next_correction_id
      → CorrectionEffect db db'

abbrev pub SameCorrections : Db → Db → Type 0
SameCorrections db db' =
    (db'.corrections ≡ db.corrections) × (db'.next_correction_id ≡ db.next_correction_id)

abbrev pub SameRows : Db → Db → Type 0
SameRows db db' =
    (db'.attendances ≡ db.attendances) × (db'.next_attendance_id ≡ db.next_attendance_id)

pub create-RowEffect :
    (db : Db) (new row : Attendance) (db' : Db)
    → create db new ≡ ok (row, db')
    → RowEffect db db' × SameCorrections db db'
unfolding create
create-RowEffect db new row db' h = (
  RowEffect.added row (ground arith) (ground arith) (ground arith) (ground arith) (ground arith),
  (ground arith, ground arith),
)

pub store_check_out-RowEffect :
    (db : Db) (row : Attendance) (db' : Db)
    → store_check_out db row ≡ ok db'
    → RowEffect db db' × SameCorrections db db'
unfolding store_check_out
store_check_out-RowEffect db row db' h =
    let checked : any (λ r. is_open_row row.id r && not (meets_checks (with_check_out row r)))
          db.attendances
        ≡ false =
      ground arith in
    (
      RowEffect.changed (is_open_row row.id) (with_check_out row) (λ r. (refl, refl, refl))
          (All-map (λ r. is_open_row row.id r && not (meets_checks (with_check_out row r)) ≡ false)
            (λ r.
              is_open_row row.id r ≡ true
              → meets_checks r ≡ true
              → meets_checks (with_check_out row r) ≡ true)
            (λ r n p m. ground (arith, n, p)) db.attendances
            (any-false-All (λ r. is_open_row row.id r && not (meets_checks (with_check_out row r)))
              db.attendances checked))
          (ground arith) (ground arith),
      (ground arith, ground arith),
    )

every : (xs : List Attendance) {P : Attendance → Type 0} → ((r : Attendance) → P r) → All P xs
every [] h = tt
every (x ∷ xs) h = (h x, every xs h)

pub save_report-RowEffect :
    (db : Db) (user : ℕ) (d : Date) (content : Text) (now : Instant) (row : Attendance) (db' : Db)
    → save_report db user d content now ≡ ok (row, db')
    → RowEffect db db' × SameCorrections db db'
unfolding save_report meets_checks
save_report-RowEffect db user d content now row db' h = (
  RowEffect.changed (is_of_day user d)
      (λ r. record r { daily_report = some content; daily_report_updated_at = some now })
      (λ r. (refl, refl, refl)) (every db.attendances (λ r p m. m)) (ground arith) (ground arith),
  (ground arith, ground arith),
)

pub create_correction-CorrectionEffect :
    (db : Db) (new row : Correction) (db' : Db)
    → create_correction db new ≡ ok (row, db')
    → new.status ≡ Status.pending
    → CorrectionEffect db db' × SameRows db db'
unfolding create_correction
create_correction-CorrectionEffect db new row db' h e = (
  CorrectionEffect.filed row (ground arith) (ground arith) (ground arith) (ground arith),
  (ground arith, ground arith),
)

pub settle-CorrectionEffect :
    (db : Db) (id : ℕ) (f : Correction → Correction) (row : Correction) (db' : Db)
    → Closes f
    → settle db id f ≡ ok (row, db')
    → CorrectionEffect db db' × SameRows db db'
unfolding settle
settle-CorrectionEffect db id f row db' k h =
    (CorrectionEffect.settled id f k (ground arith) (ground arith), (ground arith, ground arith))

pub write_times-RowEffect :
    (db : Db) (current : Option Attendance) (next : Attendance) (db' : Db)
    → write_times db current next ≡ ok db'
    → RowEffect db db' × SameCorrections db db'
unfolding write_times
write_times-RowEffect db none new db' h = >>=-elim (create db new) _ h λ out e h1.
    let same : out.1 ≡ db' = ground arith in
    create-RowEffect db new (out.0) db' (e ∙ ap (λ d. ok (out.0, d)) same)
write_times-RowEffect db (some current) new db' h =
    let checked : any (λ r. (r.id == new.id) && not (meets_checks (with_times new r)))
          db.attendances
        ≡ false =
      ground arith in
    (
      RowEffect.changed (λ r. r.id == new.id) (with_times new) (λ r. (refl, refl, refl))
          (All-map (λ r. (r.id == new.id) && not (meets_checks (with_times new r)) ≡ false)
            (λ r.
              (r.id == new.id) ≡ true
              → meets_checks r ≡ true
              → meets_checks (with_times new r) ≡ true)
            (λ r n p m. ground (arith, n, p)) db.attendances
            (any-false-All (λ r. (r.id == new.id) && not (meets_checks (with_times new r)))
              db.attendances checked))
          (ground arith) (ground arith),
      (ground arith, ground arith),
    )
