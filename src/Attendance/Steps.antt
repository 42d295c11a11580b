-- ===== src/Attendance/Steps.antt =====
-- The writes of the attendance module as a step relation, and what one step does to its two tables.
use attendance_system.Prelude.{
  subst, ℕ, ◌+◌, ◌-◌, ◌≡◌, refl, ap, ◌∙◌, false, not, ◌&&◌, Option, none, some, [], ◌∷◌, ◌++◌,
  arith, ◌==◌, any, rewrite, Result, ok, refuse_if, >>=-elim,
}
use attendance_system.Text.{Text}
use attendance_system.Access.{Role, at_least, Claims}
use attendance_system.Time.{Instant, date_only}
use attendance_system.User.Hierarchy.{reach}
use attendance_system.Schedule.Roster.{plan_days}
use attendance_system.Attendance.Shift.{place, pick_shift}
use attendance_system.Attendance.Service.{
  Host, max_open_check_in, evidence, three_day_span, check_in, schedule_of, check_closable, closed,
  check_out, save_daily_report,
}
use attendance_system.Attendance.Corrections.{
  corrected, person_of, new_correction, request_correction, withdrawn, cancel_correction, Decision,
  is_decision, apply_correction, decided_by, carry_out, decide_correction,
}
use attendance_system.Db.{Db}
use attendance_system.Attendance.Validation.{
  Mark, Proposal, check_mark, check_report, check_note, check_proposal,
}
use attendance_system.Attendance.Rows.{Attendance, Correction}
use attendance_system.Attendance.Store.{open_check_in, store_check_out, held}
use attendance_system.Attendance.CorrectionStore.{
  is_pending, is_pending_of, correction_by_id, is_pending_row, write_times, with_old_times, approve,
}
use attendance_system.Attendance.Effects.{
  RowEffect, CorrectionEffect, Closes, SameCorrections, SameRows, create-RowEffect,
  store_check_out-RowEffect, save_report-RowEffect, create_correction-CorrectionEffect,
  settle-CorrectionEffect, write_times-RowEffect,
}

-- One successful call, by anybody, at any moment, with any distance and any answer of the store.
pub data Step : Db → Db → Type 0 where
  checked_in :
      {db db' : Db} (host : Host) (user : ℕ) (mark : Mark) (row : Attendance)
      → check_in host db user mark ≡ ok (row, db')
      → Step db db'
  checked_out :
      {db db' : Db} (host : Host) (user : ℕ) (mark : Mark) (row : Attendance)
      → check_out host db user mark ≡ ok (row, db')
      → Step db db'
  reported :
      {db db' : Db} (host : Host) (user : ℕ) (work_date : Instant) (content : Text)
      (row : Attendance)
      → save_daily_report host db user work_date content ≡ ok (row, db')
      → Step db db'
  requested :
      {db db' : Db} (host : Host) (claims : Claims) (sent : Proposal) (row : Correction)
      → request_correction host db claims sent ≡ ok (row, db')
      → Step db db'
  cancelled :
      {db db' : Db} (claims : Claims) (id : ℕ) (row : Correction)
      → cancel_correction db claims id ≡ ok (row, db')
      → Step db db'
  decided :
      {db db' : Db} (host : Host) (claims : Claims) (id : ℕ) (decision : Decision) (note : Text)
      (row : Correction)
      → decide_correction host db claims id decision note ≡ ok (row, db')
      → Step db db'

pub data Reach (db : Db) : Db → Type 0 where
  here : Reach db db
  next : {db' db'' : Db} → Reach db db' → Step db' db'' → Reach db db''

check_in-RowEffect :
    (host : Host) (db : Db) (user : ℕ) (mark : Mark) (row : Attendance) (db' : Db)
    → check_in host db user mark ≡ ok (row, db')
    → RowEffect db db' × SameCorrections db db'
unfolding check_in
check_in-RowEffect host db user mark row db' h = >>=-elim (check_mark mark) _ h λ _ _ h1.
    >>=-elim (plan_days db user (three_day_span host)) _ h1 λ plan _ h2.
      >>=-elim (pick_shift host.now host.zone plan) _ h2 λ picked _ h3.
        >>=-elim (evidence host db user mark) _ h3 λ proof _ h4. create-RowEffect db _ row db' h4

check_out-RowEffect :
    (host : Host) (db : Db) (user : ℕ) (mark : Mark) (row : Attendance) (db' : Db)
    → check_out host db user mark ≡ ok (row, db')
    → RowEffect db db' × SameCorrections db db'
unfolding check_out
check_out-RowEffect host db user mark row db' h = >>=-elim (check_mark mark) _ h λ _ _ h1.
    >>=-elim (open_check_in db user (host.now - max_open_check_in)) _ h1 λ old _ h2.
      let measured = place old.work_date (schedule_of db old.schedule_id) host.zone in
      >>=-elim (check_closable host.now measured) _ h2 λ _ _ h3.
        >>=-elim (evidence host db user mark) _ h3 λ proof _ h4.
          >>=-elim (store_check_out db (closed host measured proof old)) _ h4 λ out e h5.
            let same : out ≡ db' = ground arith in
            store_check_out-RowEffect db (closed host measured proof old) db' (e ∙ ap ok same)

decided_by-Closes :
    (host : Host) (claims : Claims) (decision : Decision) (note : Text)
    → Closes (decided_by host claims decision note)
decided_by-Closes host claims decision note = record {
  keeps_id = λ c. refl;
  keeps_user = λ c. refl;
  keeps_date = λ c. refl;
  closes = λ c. ground arith;
}

with_old-Closes :
    (current : Option Attendance) (f : Correction → Correction)
    → Closes f
    → Closes (λ c. with_old_times current (f c))
with_old-Closes none f k = k
with_old-Closes (some r) f k = record {
  keeps_id = k.keeps_id;
  keeps_user = k.keeps_user;
  keeps_date = k.keeps_date;
  closes = k.closes;
}

withdrawn-Closes : Closes withdrawn
withdrawn-Closes = record {
  keeps_id = λ c. refl;
  keeps_user = λ c. refl;
  keeps_date = λ c. refl;
  closes = λ c. refl;
}

-- Both tables after an approval: the attendance is written, then the correction is settled.
both :
    (db mid db' : Db)
    → RowEffect db mid
    → SameCorrections db mid
    → CorrectionEffect mid db'
    → SameRows mid db'
    → RowEffect db db' × CorrectionEffect db db'
both db mid db' r s c t = (row_side r, correction_side c)
  where
    row_side : RowEffect db mid → RowEffect db db'
    row_side (RowEffect.added row i f m e n) = RowEffect.added row i f m (t.0 ∙ e) (t.1 ∙ n)
    row_side (RowEffect.changed p f k m e n) = RowEffect.changed p f k m (t.0 ∙ e) (t.1 ∙ n)
    row_side (RowEffect.unchanged e n) = RowEffect.unchanged (t.0 ∙ e) (t.1 ∙ n)

    correction_side : CorrectionEffect mid db' → CorrectionEffect db db'
    correction_side (CorrectionEffect.filed row i f e n) =
        CorrectionEffect.filed row (i ∙ s.1)
          (subst (λ cs. any (is_pending_of row.user_id row.work_date) cs ≡ false) (s.0) f)
          (e ∙ ap (λ cs. cs ++ row ∷ []) (s.0)) (n ∙ ap (λ k. k + 1) (s.1))
    correction_side (CorrectionEffect.settled id f k e n) =
        CorrectionEffect.settled id f k (e ∙ ap (rewrite (is_pending_row id) f) (s.0)) (n ∙ s.1)
    correction_side (CorrectionEffect.untouched e n) =
        CorrectionEffect.untouched (e ∙ s.0) (n ∙ s.1)

approve-effects :
    (db : Db) (id : ℕ) (f : Correction → Correction)
    (apply : Correction → Option Attendance → Result Attendance) (row : Correction) (db' : Db)
    → Closes f
    → approve db id f apply ≡ ok (row, db')
    → RowEffect db db' × CorrectionEffect db db'
unfolding approve
approve-effects db id f apply row db' k h = >>=-elim (correction_by_id db id) _ h λ c _ h1.
    >>=-elim (refuse_if (not (is_pending c.status)) _) _ h1 λ _ _ h2.
      >>=-elim (apply c (held db c.user_id c.work_date)) _ h2 λ new _ h3.
        >>=-elim (write_times db (held db c.user_id c.work_date) new) _ h3 λ mid e h4.
          let w = write_times-RowEffect db (held db c.user_id c.work_date) new mid e in
          let s =
            settle-CorrectionEffect mid id _ row db'
              (with_old-Closes (held db c.user_id c.work_date) f k) h4 in
          both db mid db' (w.0) (w.1) (s.0) (s.1)

settled_only :
    (db db' : Db)
    → CorrectionEffect db db' × SameRows db db'
    → RowEffect db db' × CorrectionEffect db db'
settled_only db db' e = (RowEffect.unchanged (e.1.0) (e.1.1), e.0)

rows_only :
    (db db' : Db)
    → RowEffect db db' × SameCorrections db db'
    → RowEffect db db' × CorrectionEffect db db'
rows_only db db' e = (e.0, CorrectionEffect.untouched (e.1.0) (e.1.1))

carry_out-effects :
    (host : Host) (db : Db) (id : ℕ) (decision : Decision) (f : Correction → Correction)
    (row : Correction) (db' : Db)
    → Closes f
    → carry_out host db id decision f ≡ ok (row, db')
    → RowEffect db db' × CorrectionEffect db db'
carry_out-effects host db id Decision.approved f row db' k h =
    approve-effects db id f (apply_correction host db) row db' k h
carry_out-effects host db id Decision.rejected f row db' k h =
    settled_only db db' (settle-CorrectionEffect db id f row db' k h)
carry_out-effects host db id Decision.other_decision f row db' k h =
    settled_only db db' (settle-CorrectionEffect db id f row db' k h)

decide_correction-effects :
    (host : Host) (db : Db) (claims : Claims) (id : ℕ) (decision : Decision) (note : Text)
    (row : Correction) (db' : Db)
    → decide_correction host db claims id decision note ≡ ok (row, db')
    → RowEffect db db' × CorrectionEffect db db'
unfolding decide_correction
decide_correction-effects host db claims id decision note row db' h =
    >>=-elim (refuse_if (not (at_least claims.role Role.supervisor)) _) _ h λ _ _ h1.
      >>=-elim (refuse_if (not (is_decision decision)) _) _ h1 λ _ _ h2.
        >>=-elim (check_note note) _ h2 λ _ _ h3. >>=-elim (correction_by_id db id) _ h3 λ c _ h4.
          >>=-elim (refuse_if (c.user_id == claims.user_id) _) _ h4 λ _ _ h5.
            >>=-elim (reach db claims c.user_id) _ h5 λ _ _ h6.
              carry_out-effects host db id decision _ row db'
                (decided_by-Closes host claims decision note) h6

request_correction-effects :
    (host : Host) (db : Db) (claims : Claims) (sent : Proposal) (row : Correction) (db' : Db)
    → request_correction host db claims sent ≡ ok (row, db')
    → CorrectionEffect db db' × SameRows db db'
unfolding request_correction
request_correction-effects host db claims sent row db' h =
    >>=-elim (person_of claims sent.user_id) _ h λ user _ h1.
      >>=-elim (check_proposal sent host.now host.zone) _ h1 λ p _ h2.
        >>=-elim (corrected (held db user (date_only p.work_date)) (new_correction claims user p)) _
          h2 λ _ _ h3. create_correction-CorrectionEffect db _ row db' h3 refl

cancel_correction-effects :
    (db : Db) (claims : Claims) (id : ℕ) (row : Correction) (db' : Db)
    → cancel_correction db claims id ≡ ok (row, db')
    → CorrectionEffect db db' × SameRows db db'
unfolding cancel_correction
cancel_correction-effects db claims id row db' h = >>=-elim (correction_by_id db id) _ h λ c _ h1.
    >>=-elim
      (refuse_if (not (claims.user_id == c.user_id) && not (claims.user_id == c.requested_by)) _) _
      h1 λ _ _ h2. settle-CorrectionEffect db id withdrawn row db' withdrawn-Closes h2

save_daily_report-RowEffect :
    (host : Host) (db : Db) (user : ℕ) (work_date : Instant) (content : Text) (row : Attendance)
    (db' : Db)
    → save_daily_report host db user work_date content ≡ ok (row, db')
    → RowEffect db db' × SameCorrections db db'
unfolding save_daily_report
save_daily_report-RowEffect host db user work_date content row db' h =
    >>=-elim (check_report work_date content) _ h
      λ t _ h1. save_report-RowEffect db user (date_only work_date) t host.now row db' h1

pub Step-effects : {db db' : Db} → Step db db' → RowEffect db db' × CorrectionEffect db db'
Step-effects {db} {db'} (Step.checked_in host user mark row h) =
    rows_only db db' (check_in-RowEffect host db user mark row db' h)
Step-effects {db} {db'} (Step.checked_out host user mark row h) =
    rows_only db db' (check_out-RowEffect host db user mark row db' h)
Step-effects {db} {db'} (Step.reported host user work_date content row h) =
    rows_only db db' (save_daily_report-RowEffect host db user work_date content row db' h)
Step-effects {db} {db'} (Step.requested host claims sent row h) =
    settled_only db db' (request_correction-effects host db claims sent row db' h)
Step-effects {db} {db'} (Step.cancelled claims id row h) =
    settled_only db db' (cancel_correction-effects db claims id row db' h)
Step-effects {db} {db'} (Step.decided host claims id decision note row h) =
    decide_correction-effects host db claims id decision note row db' h
