-- ===== src/Attendance/Deciding.antt =====
-- What a decision on a correction does (attendance/correction.go `DecideCorrection`).
use attendance_system.Prelude.{
  subst, ℕ, ◌≡◌, refl, sym, ◌∙◌, ◌≢◌, inl, inr, true, not, Option, none, some, [], ◌∷◌, arith, ◌==◌,
  Option-cases, find, find-holds, HasKey, find-by_key, ok, refuse_if, >>=-elim,
}
use attendance_system.Text.{NoteAfter, Text}
use attendance_system.Access.{Role, at_least, Claims}
use attendance_system.User.Hierarchy.{reach}
use attendance_system.Attendance.Service.{Host}
use attendance_system.Attendance.Corrections.{
  Decision, is_decision, note_of, decided_by, carry_out, decide_correction,
}
use attendance_system.Attendance.Sound.{IsSound}
use attendance_system.Db.{Db}
use attendance_system.Attendance.Validation.{check_note}
use attendance_system.Attendance.Rows.{Attendance, Status, Correction}
use attendance_system.Attendance.Store.{held}
use attendance_system.Attendance.CorrectionStore.{
  is_pending, correction_by_id, is_pending_row, settle, with_old_times,
}
use attendance_system.Attendance.Closed.{found_or}
use attendance_system.Attendance.Approving.{
  settle-rows, Settled, settle-Settled, approve-ApprovedOf,
}
use attendance_system.Attendance.Applying.{TimesStand}
use attendance_system.Time.{Instant}

-- The correction in the end: with the times that it replaced, where it is approved.
abbrev pub with_replaced : Decision → Option Attendance → Correction → Correction
with_replaced Decision.approved current c = with_old_times current c
with_replaced _ current c = c

-- The attendance after a decision: the new times stand after an approval, else nothing changes.
abbrev pub After : Host → Db → Correction → Db → Decision → Type 0
After host db c db' Decision.approved = TimesStand host db c db'
After host db c db' _ = db'.attendances ≡ db.attendances

-- Which status a decision gives; there is none for a text that is no decision.
pub data Outcome : Decision → Status → Type 0 where
  approves : Outcome Decision.approved Status.approved
  rejects : Outcome Decision.rejected Status.rejected

-- The replaced times that a correction has in the end: those of the row that an approval changed.
pub data Replaced (old : Correction)
    : Decision → Option Attendance → Option Instant → Option Instant → Type 0 where
  over_row :
      {r : Attendance} → Replaced old Decision.approved (some r) (some r.check_in_at) r.check_out_at
  new_row : Replaced old Decision.approved none old.old_check_in_at old.old_check_out_at
  rejected :
      {held : Option Attendance}
      → Replaced old Decision.rejected held old.old_check_in_at old.old_check_out_at

-- What a review writes on the correction.
pub record Reviewed (host : Host) (claims : Claims) (decision : Decision) (note : Text)
    (held : Option Attendance) (old row : Correction) : Type 0 where
  pub outcome_is : Outcome decision row.status
  pub reviewer_is : row.reviewed_by ≡ some claims.user_id
  pub moment_is : row.reviewed_at ≡ some host.now
  pub note_is : NoteAfter old.review_note note row.review_note
  pub replaced_is : Replaced old decision held row.old_check_in_at row.old_check_out_at
  pub rest_is :
      record row {
        status = old.status;
        reviewed_by = old.reviewed_by;
        reviewed_at = old.reviewed_at;
        review_note = old.review_note;
        old_check_in_at = old.old_check_in_at;
        old_check_out_at = old.old_check_out_at;
      }
      ≡ old

note_of-NoteAfter : (note : Text) (held : Option Text) → NoteAfter held note (note_of note held)
note_of-NoteAfter [] held = NoteAfter.nothing_sent
note_of-NoteAfter (c ∷ note) held = NoteAfter.sent

decided_by-Reviewed :
    (host : Host) (claims : Claims) (decision : Decision) (note : Text) (held : Option Attendance)
    (old : Correction)
    → is_decision decision ≡ true
    → Reviewed host claims decision note held old
        (with_replaced decision held (decided_by host claims decision note old))
decided_by-Reviewed host claims Decision.approved note none old h = record {
  outcome_is = Outcome.approves;
  reviewer_is = refl;
  moment_is = refl;
  note_is = note_of-NoteAfter note old.review_note;
  replaced_is = Replaced.new_row;
  rest_is = refl;
}
decided_by-Reviewed host claims Decision.approved note (some r) old h = record {
  outcome_is = Outcome.approves;
  reviewer_is = refl;
  moment_is = refl;
  note_is = note_of-NoteAfter note old.review_note;
  replaced_is = Replaced.over_row;
  rest_is = refl;
}
decided_by-Reviewed host claims Decision.rejected note held old h = record {
  outcome_is = Outcome.rejects;
  reviewer_is = refl;
  moment_is = refl;
  note_is = note_of-NoteAfter note old.review_note;
  replaced_is = Replaced.rejected;
  rest_is = refl;
}
decided_by-Reviewed host claims Decision.other_decision note held old h = absurd (ground arith)

pub record DecidedCorrection (host : Host) (db : Db) (claims : Claims) (id : ℕ)
    (decision : Decision) (note : Text) (row : Correction) (db' : Db) : Type 0 where
  pub old : Correction
  pub was_read : correction_by_id db id ≡ ok old
  pub was_pending : is_pending old.status ≡ true
  pub by_supervisor : at_least claims.role Role.supervisor ≡ true
  pub of_another : old.user_id ≢ claims.user_id
  pub in_reach : reach db claims old.user_id ≡ ok tt
  pub reviewed : Reviewed host claims decision note (held db old.user_id old.work_date) old row
  pub settled : Settled db id row db'
  pub after : After host db old db' decision

record CarriedOut (host : Host) (db : Db) (id : ℕ) (decision : Decision)
    (f : Correction → Correction) (c row : Correction) (db' : Db) : Type 0 where
  was_pending : is_pending c.status ≡ true
  row_is : row ≡ with_replaced decision (held db c.user_id c.work_date) (f c)
  settled : Settled db id row db'
  after : After host db c db' decision

only_pending :
    (db : Db) (id : ℕ) (c old : Correction)
    → HasKey (λ (x : Correction). x.id) db.corrections
    → correction_by_id db id ≡ ok c
    → find (is_pending_row id) db.corrections ≡ some old
    → (c ≡ old) × (is_pending old.status ≡ true)
only_pending db id c old key read e =
    let p = find-holds (is_pending_row id) db.corrections {r = old} e in
    let same_id : old.id ≡ id = ground arith in
    let by_key : find (λ (x : Correction). x.id == id) db.corrections ≡ some old =
      subst (λ k. find (λ (x : Correction). x.id == k) db.corrections ≡ some old) same_id
        (find-by_key (λ (x : Correction). x.id) (is_pending_row id) db.corrections {r = old} key
          e) in
    let same : some c ≡ some old = sym (found_or db id read) ∙ by_key in
    (ground arith, ground arith)

settle_by_id :
    (db : Db) (id : ℕ) (f : Correction → Correction) (c row : Correction) (db' : Db)
    → HasKey (λ (x : Correction). x.id) db.corrections
    → ((x : Correction) → (f x).id ≡ x.id)
    → correction_by_id db id ≡ ok c
    → settle db id f ≡ ok (row, db')
    → (is_pending c.status ≡ true)
      × (row ≡ f c)
      × Settled db id row db'
      × (db'.attendances ≡ db.attendances)
unfolding settle
settle_by_id db id f c row db' key keeps read h =
    elim (Option-cases (find (is_pending_row id) db.corrections)) [
      | inl e ↦ absurd (ground arith)
      | inr (old, e) ↦
          let o = only_pending db id c old key read e in
          let pending : is_pending c.status ≡ true =
            subst (λ (x : Correction). is_pending x.status ≡ true) (sym (o.0)) (o.1) in
          let s = settle-Settled db db id f c row db' refl keeps read pending h in
          (pending, s.0, s.1, (settle-rows db id f row db' h).0)
    ]

ok_eq : {A : Type 0} {a b : A} → ok a ≡ ok b → a ≡ b
ok_eq h = ground arith

carry_out-CarriedOut :
    (host : Host) (db : Db) (id : ℕ) (decision : Decision) (f : Correction → Correction)
    (c row : Correction) (db' : Db)
    → HasKey (λ (x : Correction). x.id) db.corrections
    → ((x : Correction) → (f x).id ≡ x.id)
    → correction_by_id db id ≡ ok c
    → carry_out host db id decision f ≡ ok (row, db')
    → CarriedOut host db id decision f c row db'
carry_out-CarriedOut host db id Decision.approved f c row db' key keeps read h =
    let a = approve-ApprovedOf host db id f row db' keeps h in
    let same : a.old ≡ c = ok_eq (sym a.was_read ∙ read) in
    record {
      was_pending = subst (λ (x : Correction). is_pending x.status ≡ true) same a.was_pending;
      row_is =
          subst (λ (x : Correction). row ≡ with_old_times (held db x.user_id x.work_date) (f x))
            same a.row_is;
      settled = a.settled;
      after = subst (λ x. TimesStand host db x db') same a.times;
    }
carry_out-CarriedOut host db id Decision.rejected f c row db' key keeps read h =
    let s = settle_by_id db id f c row db' key keeps read h in
    record { was_pending = s.0; row_is = s.1; settled = s.2; after = s.3 }
carry_out-CarriedOut host db id Decision.other_decision f c row db' key keeps read h =
    let s = settle_by_id db id f c row db' key keeps read h in
    record { was_pending = s.0; row_is = s.1; settled = s.2; after = s.3 }

-- A decision on a correction is accepted only of a pending one, about somebody else whom the caller,
-- a supervisor or above, reaches. The correction then stands with the decided status, the reviewer,
-- the moment, the note where one was sent and, if an approval changed a row, the times that it
-- replaced; every other correction is as it was. An approval leaves the attendance of that work
-- date with the proposed times, else those that stood, the lateness measured anew, and the early
-- leave measured anew where there is a check-out; a rejection leaves every attendance as it was.
-- All this if the tables are sound.
pub decide_correction_lem :
    (host : Host) (db : Db) (claims : Claims) (id : ℕ) (decision : Decision) (note : Text)
    (row : Correction) (db' : Db)
    → IsSound db
    → decide_correction host db claims id decision note ≡ ok (row, db')
    → DecidedCorrection host db claims id decision note row db'
unfolding decide_correction
decide_correction_lem host db claims id decision note row db' sound h =
    >>=-elim (refuse_if (not (at_least claims.role Role.supervisor)) _) _ h λ _ may h1.
      >>=-elim (refuse_if (not (is_decision decision)) _) _ h1 λ _ known h2.
        >>=-elim (check_note note) _ h2 λ _ _ h3.
          >>=-elim (correction_by_id db id) _ h3 λ c read h4.
            >>=-elim (refuse_if (c.user_id == claims.user_id) _) _ h4 λ _ other h5.
              >>=-elim (reach db claims c.user_id) _ h5 λ _ reached h6.
                let r =
                  carry_out-CarriedOut host db id decision (decided_by host claims decision note) c
                    row db' sound.corrections_keyed (λ x. refl) read h6 in
                record {
                  old = c;
                  was_read = read;
                  was_pending = r.was_pending;
                  by_supervisor = ground (arith, may);
                  of_another = ground (arith, other);
                  in_reach = reached;
                  reviewed =
                      subst (Reviewed host claims decision note (held db c.user_id c.work_date) c)
                        (sym r.row_is)
                        (decided_by-Reviewed host claims decision note
                          (held db c.user_id c.work_date) c (ground (arith, known)));
                  settled = r.settled;
                  after = r.after;
                }
