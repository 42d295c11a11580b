-- ===== src/Attendance/Closed.antt =====
-- A correction that is no longer pending is final (attendance/repository.go `settle`).
use attendance_system.Prelude.{
  ℕ, ◌≡◌, refl, false, some, [], ◌∷◌, arith, ◌==◌, find, updated, find-append, find-updated, ok,
}
use attendance_system.Attendance.Steps.{Reach, Step-effects}
use attendance_system.Attendance.Effects.{CorrectionEffect}
use attendance_system.Db.{Db}
use attendance_system.Attendance.Rows.{Correction}
use attendance_system.Attendance.CorrectionStore.{is_pending, correction_by_id, is_pending_row}

pub found_or :
    (db : Db) (id : ℕ) {c : Correction}
    → correction_by_id db id ≡ ok c
    → find (λ x. x.id == id) db.corrections ≡ some c
found_or db id h = ground arith

correction_by_id-kept :
    (db db' : Db) (id : ℕ) (c : Correction)
    → CorrectionEffect db db'
    → correction_by_id db id ≡ ok c
    → is_pending c.status ≡ false
    → correction_by_id db' id ≡ ok c
correction_by_id-kept db db' id c (CorrectionEffect.filed row i f e n) h p =
    rw (e, find-append (λ x. x.id == id) db.corrections (row ∷ []) {r = c} (found_or db id h)) refl
correction_by_id-kept db db' id c (CorrectionEffect.settled k f cl e n) h p =
    let same : updated (is_pending_row k) f c ≡ c = ground arith in
    rw
      (
        e,
        find-updated (λ x. x.id == id) (is_pending_row k) f db.corrections {r = c}
            (λ x. ground (arith, cl.keeps_id x)) (found_or db id h),
        same,
      )
      refl
correction_by_id-kept db db' id c (CorrectionEffect.untouched e n) h p = rw (e) h

-- A correction that is decided or withdrawn stays as it is, whatever calls follow.
pub closed_forever :
    (db db' : Db) (id : ℕ) (c : Correction)
    → Reach db db'
    → correction_by_id db id ≡ ok c
    → is_pending c.status ≡ false
    → correction_by_id db' id ≡ ok c
closed_forever db db' id c Reach.here h p = h
closed_forever db db'' id c (Reach.next {db' = db'} r t) h p =
    correction_by_id-kept db' db'' id c ((Step-effects t).1) (closed_forever db db' id c r h p) p
