-- ===== src/Attendance/Applying.antt =====
-- The attendance that an approval makes (attendance/correction.go `corrected`, `hoursFor` and the
-- closure of `DecideCorrection`).
use attendance_system.Prelude.{
  subst, ◌≡◌, refl, sym, ap, ◌∙◌, ◌≢◌, true, not, Option, none, some, List, [], ◌∷◌, arith, ◌==◌,
  if◌then◌else◌, Error, ok, err, >>=-elim, ℤ, pos,
}
use attendance_system.Time.{Instant, midnight}
use attendance_system.Attendance.Shift.{Shift, place, late_minutes, early_leave_minutes}
use attendance_system.Attendance.Service.{Host, schedule_of}
use attendance_system.Attendance.Corrections.{
  or_blank, proposed_in, proposed_out, corrected, first_schedule, hours_for, early_of, measure,
  apply_correction,
}
use attendance_system.Db.{Db}
use attendance_system.Schedule.Rows.{WorkSchedule}
use attendance_system.Attendance.Rows.{Attendance, Correction}
use attendance_system.Attendance.Store.{leaves_after, held}
use attendance_system.Schedule.Resolve.{Day}
use attendance_system.Schedule.Roster.{plan_days}

-- The check-in time that a correction leaves: the proposed one, else the one that stood.
pub data InAfter : Option Instant → Option Attendance → Instant → Type 0 where
  proposed : {at : Instant} {held : Option Attendance} → InAfter (some at) held at
  kept : {r : Attendance} → InAfter none (some r) r.check_in_at

-- The check-out time that it leaves, which may be none.
pub data OutAfter : Option Instant → Option Attendance → Option Instant → Type 0 where
  proposed : {at : Instant} {held : Option Attendance} → OutAfter (some at) held (some at)
  kept : {r : Attendance} → OutAfter none (some r) r.check_out_at
  still_none : OutAfter none none none

-- The early leave of a row: measured where there is a check-out, else as it stood.
pub data EarlyAfter (measured : Shift) : Option Attendance → Option Instant → ℤ → Type 0 where
  measured_at :
      {at : Instant} {held : Option Attendance}
      → EarlyAfter measured held (some at) (early_leave_minutes measured at)
  still_open : {r : Attendance} → EarlyAfter measured (some r) none r.early_leave_minutes
  new_open : EarlyAfter measured none none (pos 0)

-- The hours of a work date: those that the row kept, or rule A's where there was no row.
pub data HoursOf (db : Db) (c : Correction) : Option Attendance → Option WorkSchedule → Type 0 where
  kept : {r : Attendance} → HoursOf db c (some r) (schedule_of db r.schedule_id)
  by_rule :
      {day : Day} {more : List Day}
      → plan_days db c.user_id (record { from = midnight c.work_date; to = midnight c.work_date })
        ≡ ok (day ∷ more)
      → HoursOf db c none day.schedule

-- The row that an approval leaves for the work date: its times are the proposed ones where there
-- are any, else those that stood, in order, and its minutes are measured by the hours that the row
-- kept, or by rule A's where there was no row.
pub record TimesStand (host : Host) (db : Db) (c : Correction) (db' : Db) : Type 0 where
  pub row : Attendance
  pub hours : Option WorkSchedule
  pub stands : held db' c.user_id c.work_date ≡ some row
  pub hours_are : HoursOf db c (held db c.user_id c.work_date) hours
  pub in_is : InAfter c.proposed_check_in_at (held db c.user_id c.work_date) row.check_in_at
  pub out_is : OutAfter c.proposed_check_out_at (held db c.user_id c.work_date) row.check_out_at
  pub ordered : leaves_after row.check_in_at row.check_out_at ≡ true
  pub late_is : row.late_minutes ≡ late_minutes (place c.work_date hours host.zone) row.check_in_at
  pub early_is :
      EarlyAfter
        (place c.work_date hours host.zone)
        (held db c.user_id c.work_date)
        row.check_out_at
        row.early_leave_minutes

-- `next` as the closure of an approval makes it.
pub record Applied (host : Host) (db : Db) (c : Correction) (current : Option Attendance)
    (next : Attendance) : Type 0 where
  pub hours : Option WorkSchedule
  pub hours_are : HoursOf db c current hours
  pub id_is : next.id ≡ (or_blank c current).id
  pub user_is : next.user_id ≡ (or_blank c current).user_id
  pub date_is : next.work_date ≡ (or_blank c current).work_date
  pub in_is : InAfter c.proposed_check_in_at current next.check_in_at
  pub out_is : OutAfter c.proposed_check_out_at current next.check_out_at
  pub ordered : leaves_after next.check_in_at next.check_out_at ≡ true
  pub late_is :
      next.late_minutes ≡ late_minutes (place next.work_date hours host.zone) next.check_in_at
  pub early_is :
      EarlyAfter
        (place next.work_date hours host.zone)
        current
        next.check_out_at
        next.early_leave_minutes

hours_for-HoursOf :
    (db : Db) (c : Correction) (current : Option Attendance) (hours : Option WorkSchedule)
    → hours_for db c current ≡ ok hours
    → HoursOf db c current hours
unfolding hours_for
hours_for-HoursOf db c (some r) hours h =
    let same : schedule_of db r.schedule_id ≡ hours = ground arith in
    subst (HoursOf db c (some r)) same HoursOf.kept
hours_for-HoursOf db c none hours h =
    >>=-elim
      (plan_days db c.user_id (record { from = midnight c.work_date; to = midnight c.work_date })) _
      h go
  where
    go :
        (ds : List Day)
        → plan_days db c.user_id (record { from = midnight c.work_date; to = midnight c.work_date })
          ≡ ok ds
        → first_schedule ds ≡ ok hours
        → HoursOf db c none hours
    go [] e k = absurd (ground arith)
    go (d ∷ more) e k =
        let same : d.schedule ≡ hours = ground arith in
        subst (HoursOf db c none) same (HoursOf.by_rule e)

abbrev laid_over : Correction → Attendance → Attendance
laid_over c r = proposed_out c.proposed_check_out_at (proposed_in c.proposed_check_in_at r)

checked_times :
    (raw next : Attendance) (no_in no_order : Error)
    → (if raw.check_in_at == 0
        then err no_in
        else if not (leaves_after raw.check_in_at raw.check_out_at)
        then err no_order
        else ok raw)
      ≡ ok next
    → (next ≡ raw)
      × (leaves_after next.check_in_at next.check_out_at ≡ true)
      × (raw.check_in_at ≢ 0)
checked_times raw next no_in no_order h =
    let o : leaves_after raw.check_in_at raw.check_out_at ≡ true = ground arith in
    let same : raw ≡ next = ground arith in
    (
      sym same,
      subst (λ (r : Attendance). leaves_after r.check_in_at r.check_out_at ≡ true) same o,
      λ z. ground arith,
    )

corrected-eq_ok :
    (current : Option Attendance) (c : Correction) (next : Attendance)
    → corrected current c ≡ ok next
    → (next ≡ laid_over c (or_blank c current))
      × (leaves_after next.check_in_at next.check_out_at ≡ true)
      × ((laid_over c (or_blank c current)).check_in_at ≢ 0)
unfolding corrected
corrected-eq_ok current c next h = checked_times (laid_over c (or_blank c current)) next _ _ h

-- The row with the proposed times laid over it.
abbrev laid : Correction → Option Instant → Option Instant → Option Attendance → Attendance
laid c i o current = proposed_out o (proposed_in i (or_blank c current))

laid-keys :
    (c : Correction) (i o : Option Instant) (current : Option Attendance)
    → ((laid c i o current).id ≡ (or_blank c current).id)
      × ((laid c i o current).user_id ≡ (or_blank c current).user_id)
      × ((laid c i o current).work_date ≡ (or_blank c current).work_date)
laid-keys c none none current = (refl, refl, refl)
laid-keys c none (some b) current = (refl, refl, refl)
laid-keys c (some a) none current = (refl, refl, refl)
laid-keys c (some a) (some b) current = (refl, refl, refl)

laid-in :
    (c : Correction) (i o : Option Instant) (current : Option Attendance)
    → (laid c i o current).check_in_at ≢ 0
    → InAfter i current (laid c i o current).check_in_at
laid-in c (some a) none current k = InAfter.proposed
laid-in c (some a) (some b) current k = InAfter.proposed
laid-in c none none (some r) k = InAfter.kept
laid-in c none (some b) (some r) k = InAfter.kept
laid-in c none none none k = absurd (k refl)
laid-in c none (some b) none k = absurd (k refl)

laid-out :
    (c : Correction) (i o : Option Instant) (current : Option Attendance)
    → OutAfter o current (laid c i o current).check_out_at
laid-out c i (some b) current = OutAfter.proposed
laid-out c none none (some r) = OutAfter.kept
laid-out c (some a) none (some r) = OutAfter.kept
laid-out c none none none = OutAfter.still_none
laid-out c (some a) none none = OutAfter.still_none

early_of-EarlyAfter :
    (measured : Shift) (current : Option Attendance) (out : Option Instant) (early : ℤ)
    (c : Correction)
    → early ≡ (or_blank c current).early_leave_minutes
    → EarlyAfter measured current out (early_of measured out early)
early_of-EarlyAfter measured current (some b) early c e = EarlyAfter.measured_at
early_of-EarlyAfter measured (some r) none early c e =
    subst (EarlyAfter measured (some r) none) (sym e) EarlyAfter.still_open
early_of-EarlyAfter measured none none early c e =
    subst (EarlyAfter measured none none) (sym e) EarlyAfter.new_open

laid-early :
    (c : Correction) (i o : Option Instant) (current : Option Attendance)
    → (laid c i o current).early_leave_minutes ≡ (or_blank c current).early_leave_minutes
laid-early c none none current = refl
laid-early c none (some b) current = refl
laid-early c (some a) none current = refl
laid-early c (some a) (some b) current = refl

measured-Applied :
    (host : Host) (db : Db) (c : Correction) (current : Option Attendance)
    (hours : Option WorkSchedule) (raw : Attendance)
    → HoursOf db c current hours
    → corrected current c ≡ ok raw
    → Applied host db c current (measure host.zone hours raw)
unfolding measure
measured-Applied host db c current hours raw hours_are e =
    let i = c.proposed_check_in_at in
    let o = c.proposed_check_out_at in
    let (same, ordered, given) = corrected-eq_ok current c raw e in
    let keys = laid-keys c i o current in
    record {
      hours = hours;
      hours_are = hours_are;
      id_is = ap (λ (r : Attendance). r.id) same ∙ keys.0;
      user_is = ap (λ (r : Attendance). r.user_id) same ∙ keys.1;
      date_is = ap (λ (r : Attendance). r.work_date) same ∙ keys.2;
      in_is =
          subst (λ (r : Attendance). InAfter i current r.check_in_at) (sym same)
            (laid-in c i o current given);
      out_is =
          subst (λ (r : Attendance). OutAfter o current r.check_out_at) (sym same)
            (laid-out c i o current);
      ordered = ordered;
      late_is = refl;
      early_is =
          early_of-EarlyAfter (place raw.work_date hours host.zone) current raw.check_out_at
            raw.early_leave_minutes c
            (ap (λ (r : Attendance). r.early_leave_minutes) same ∙ laid-early c i o current);
    }

pub apply_correction-Applied :
    (host : Host) (db : Db) (c : Correction) (current : Option Attendance) (next : Attendance)
    → apply_correction host db c current ≡ ok next
    → Applied host db c current next
unfolding apply_correction
apply_correction-Applied host db c current next h = >>=-elim (corrected current c) _ h λ raw e h1.
    >>=-elim (hours_for db c current) _ h1 λ hours hours_are h2.
      let same : measure host.zone hours raw ≡ next = ground arith in
      subst (Applied host db c current) same (
        measured-Applied host db c current hours raw
          (hours_for-HoursOf db c current hours hours_are) e)
