-- ===== src/Attendance/Sound.antt =====
-- What holds of attendances and attendance_corrections between any two calls.
use attendance_system.Prelude.{
  ℕ, ◌+◌, ◌<◌, ◌≡◌, inl, inr, true, false, ◌&&◌, List, [], ◌∷◌, arith, ◌==◌, Bool-cases, All, Pairs,
  any-false-All, All-append, Pairs-snoc, All-map, All-rewrite, Pairs-rewrite, HasKey,
}
use attendance_system.Attendance.Steps.{Step, Reach, Step-effects}
use attendance_system.Attendance.Effects.{RowEffect, CorrectionEffect}
use attendance_system.Db.{Db}
use attendance_system.Attendance.Rows.{Attendance, Correction}
use attendance_system.Attendance.Store.{meets_checks, is_of_day}
use attendance_system.Attendance.CorrectionStore.{is_pending, is_pending_of, is_pending_row}

-- UNIQUE (user_id, work_date).
abbrev pub OneADay : List Attendance → Type 0
OneADay = Pairs (λ a b. is_of_day b.user_id b.work_date a ≡ false)

-- attendance_corrections_pending_key: of two rows the later one's pending day is not the earlier's.
abbrev pub OnePending : List Correction → Type 0
OnePending = Pairs (λ a b. is_pending b.status && is_pending_of b.user_id b.work_date a ≡ false)

pub record IsSound (db : Db) : Type 0 where
  pub one_a_day : OneADay db.attendances
  pub keyed : HasKey (λ (r : Attendance). r.id) db.attendances
  pub issued : All (λ r. r.id < db.next_attendance_id) db.attendances
  pub checked : All (λ r. meets_checks r ≡ true) db.attendances
  pub one_pending : OnePending db.corrections
  pub corrections_keyed : HasKey (λ (c : Correction). c.id) db.corrections
  pub corrections_issued : All (λ c. c.id < db.next_correction_id) db.corrections

record SoundRows (rows : List Attendance) (next_id : ℕ) : Type 0 where
  one_a_day : OneADay rows
  keyed : HasKey (λ (r : Attendance). r.id) rows
  issued : All (λ r. r.id < next_id) rows
  checked : All (λ r. meets_checks r ≡ true) rows

record SoundCorrections (rows : List Correction) (next_id : ℕ) : Type 0 where
  one_pending : OnePending rows
  keyed : HasKey (λ (c : Correction). c.id) rows
  issued : All (λ c. c.id < next_id) rows

All-and {ℓ κ ρ} :
    {A : Type ℓ} (P : A → Type κ) (Q : A → Type ρ) (xs : List A)
    → All P xs
    → All Q xs
    → All (λ x. P x × Q x) xs
All-and P Q [] h k = tt
All-and P Q (x ∷ xs) h k = ((h.0, k.0), All-and P Q xs (h.1) (k.1))

RowEffect-SoundRows :
    (db db' : Db)
    → SoundRows db.attendances db.next_attendance_id
    → RowEffect db db'
    → SoundRows db'.attendances db'.next_attendance_id
RowEffect-SoundRows db db' s (RowEffect.added row i f m e n) =
    rw (e, n)
      (record {
        one_a_day =
            Pairs-snoc (λ a b. is_of_day b.user_id b.work_date a ≡ false) db.attendances row
              s.one_a_day (any-false-All (is_of_day row.user_id row.work_date) db.attendances f);
        keyed =
            Pairs-snoc (λ a b. (a.id == b.id) ≡ false) db.attendances row s.keyed
              (All-map (λ r. r.id < db.next_attendance_id) (λ r. (r.id == row.id) ≡ false)
                (λ r h. ground (arith, i)) db.attendances s.issued);
        issued =
            All-append (λ r. r.id < db.next_attendance_id + 1) db.attendances (row ∷ [])
              (All-map (λ r. r.id < db.next_attendance_id) (λ r. r.id < db.next_attendance_id + 1)
                (λ r h. omega arith) db.attendances s.issued)
              (omega (arith, i), tt);
        checked =
            All-append (λ r. meets_checks r ≡ true) db.attendances (row ∷ []) s.checked (m, tt);
      })
RowEffect-SoundRows db db' s (RowEffect.changed p f k m e n) =
    rw (e, n)
      (record {
        one_a_day =
            Pairs-rewrite p f (λ a b. is_of_day b.user_id b.work_date a ≡ false)
              (λ a b h. ground (arith, k a, k b)) db.attendances s.one_a_day;
        keyed =
            Pairs-rewrite p f (λ a b. (a.id == b.id) ≡ false) (λ a b h. ground (arith, k a, k b))
              db.attendances s.keyed;
        issued =
            All-rewrite p f (λ r. r.id < db.next_attendance_id) (λ r. r.id < db.next_attendance_id)
              (λ r h. ground (arith, k r)) db.attendances s.issued;
        checked =
            All-rewrite p f
              (λ r.
                (meets_checks r ≡ true)
                × (p r ≡ true → meets_checks r ≡ true → meets_checks (f r) ≡ true))
              (λ r. meets_checks r ≡ true)
              (λ r h. elim (Bool-cases (p r)) [ inl y ↦ rw y (h.1 y (h.0)) | inr y ↦ rw y (h.0) ])
              db.attendances
              (All-and (λ r. meets_checks r ≡ true)
                (λ r. p r ≡ true → meets_checks r ≡ true → meets_checks (f r) ≡ true) db.attendances
                s.checked m);
      })
RowEffect-SoundRows db db' s (RowEffect.unchanged e n) = rw (e, n) s

CorrectionEffect-SoundCorrections :
    (db db' : Db)
    → SoundCorrections db.corrections db.next_correction_id
    → CorrectionEffect db db'
    → SoundCorrections db'.corrections db'.next_correction_id
CorrectionEffect-SoundCorrections db db' s (CorrectionEffect.filed row i f e n) =
    rw (e, n)
      (record {
        one_pending =
            Pairs-snoc (λ a b. is_pending b.status && is_pending_of b.user_id b.work_date a ≡ false)
              db.corrections row s.one_pending
              (All-map (λ c. is_pending_of row.user_id row.work_date c ≡ false)
                (λ c. is_pending row.status && is_pending_of row.user_id row.work_date c ≡ false)
                (λ c h. ground (arith, h)) db.corrections
                (any-false-All (is_pending_of row.user_id row.work_date) db.corrections f));
        keyed =
            Pairs-snoc (λ a b. (a.id == b.id) ≡ false) db.corrections row s.keyed
              (All-map (λ c. c.id < db.next_correction_id) (λ c. (c.id == row.id) ≡ false)
                (λ c h. ground (arith, i)) db.corrections s.issued);
        issued =
            All-append (λ c. c.id < db.next_correction_id + 1) db.corrections (row ∷ [])
              (All-map (λ c. c.id < db.next_correction_id) (λ c. c.id < db.next_correction_id + 1)
                (λ c h. omega arith) db.corrections s.issued)
              (omega (arith, i), tt);
      })
CorrectionEffect-SoundCorrections db db' s (CorrectionEffect.settled id f k e n) =
    rw (e, n)
      (record {
        one_pending =
            Pairs-rewrite (is_pending_row id) f
              (λ a b. is_pending b.status && is_pending_of b.user_id b.work_date a ≡ false)
              (λ a b h. ground (
                arith,
                k.keeps_user a,
                k.keeps_user b,
                k.keeps_date a,
                k.keeps_date b,
                k.closes a,
                k.closes b,
              ))
              db.corrections s.one_pending;
        keyed =
            Pairs-rewrite (is_pending_row id) f (λ a b. (a.id == b.id) ≡ false)
              (λ a b h. ground (arith, k.keeps_id a, k.keeps_id b)) db.corrections s.keyed;
        issued =
            All-rewrite (is_pending_row id) f (λ c. c.id < db.next_correction_id)
              (λ c. c.id < db.next_correction_id) (λ c h. ground (arith, k.keeps_id c))
              db.corrections s.issued;
      })
CorrectionEffect-SoundCorrections db db' s (CorrectionEffect.untouched e n) = rw (e, n) s

Step-IsSound : (db db' : Db) → IsSound db → Step db db' → IsSound db'
Step-IsSound db db' s t =
    let e = Step-effects t in
    let r =
      RowEffect-SoundRows db db'
        (record {
          one_a_day = s.one_a_day;
          keyed = s.keyed;
          issued = s.issued;
          checked = s.checked;
        })
        (e.0) in
    let c =
      CorrectionEffect-SoundCorrections db db'
        (record {
          one_pending = s.one_pending;
          keyed = s.corrections_keyed;
          issued = s.corrections_issued;
        })
        (e.1) in
    record {
      one_a_day = r.one_a_day;
      keyed = r.keyed;
      issued = r.issued;
      checked = r.checked;
      one_pending = c.one_pending;
      corrections_keyed = c.keyed;
      corrections_issued = c.issued;
    }

-- After any sequence of calls of the attendance module, by anybody, a person has at most one
-- attendance for a work date and at most one pending correction of it, ids are unique and below the
-- next one, and every attendance meets the CHECK constraints of its table: its check-out after its
-- check-in, no negative minutes, and each side's evidence whole or absent. All this if it held at
-- first.
pub Reach-attendance_IsSound : (db db' : Db) → IsSound db → Reach db db' → IsSound db'
Reach-attendance_IsSound db db' s Reach.here = s
Reach-attendance_IsSound db db'' s (Reach.next {db' = db'} r t) =
    Step-IsSound db' db'' (Reach-attendance_IsSound db db' s r) t
