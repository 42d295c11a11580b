-- ===== src/Schedule/Rule.antt =====
-- Rule A (schedule/resolve.go `Resolve`) against its statement as a table.
use attendance_system.Prelude.{
  subst, ◌≡◌, refl, ap, ◌∙◌, ◌↔◌, inl, inr, Bool, true, false, not, ◌&&◌, Option, none, some, arith,
  ◌==◌, if◌then◌else◌, Bool-cases, any,
}
use attendance_system.Text.{Text, is_empty}
use attendance_system.Time.{Date}
use attendance_system.Schedule.Rows.{WorkSchedule, ShiftAssignment}
use attendance_system.Schedule.Resolve.{
  Reason, Day, Inputs, iso_weekday, works_on, worked_unless_holiday, day_off, choose, resolve,
}

-- The hours that a person keeps on a date before holidays are asked: the roster's, or their own
-- on one of their weekdays where the roster has no entry.
pub data Hours (d : Date) (i : Inputs) : WorkSchedule → Reason → Type 0 where
  rostered :
      (a : ShiftAssignment) (s : WorkSchedule)
      → i.assignment ≡ some a
      → i.assigned ≡ some s
      → Hours d i s Reason.shift
  own :
      (s : WorkSchedule)
      → i.assignment ≡ none
      → i.default ≡ some s
      → any (λ w. w == iso_weekday d) s.workdays ≡ true
      → Hours d i s Reason.by_default

-- A holiday falls on the date, and the hours observe holidays.
abbrev pub is_holiday : Inputs → WorkSchedule → Bool
is_holiday i s = not (is_empty i.holiday) && s.observes_holidays

-- Why a person is off.
pub data Off (d : Date) (i : Inputs) : Reason → Type 0 where
  planned :
      (a : ShiftAssignment)
      → i.assignment ≡ some a
      → i.assigned ≡ none
      → Off d i Reason.assigned_off
  observed :
      (s : WorkSchedule) (why : Reason)
      → Hours d i s why
      → is_holiday i s ≡ true
      → Off d i Reason.holiday
  no_hours : i.assignment ≡ none → i.default ≡ none → Off d i Reason.not_a_workday
  other_weekday :
      (s : WorkSchedule)
      → i.assignment ≡ none
      → i.default ≡ some s
      → any (λ w. w == iso_weekday d) s.workdays ≡ false
      → Off d i Reason.not_a_workday

pub record WorkingDay (day : Day) (s : WorkSchedule) (why : Reason) : Type 0 where
  pub is_working : day.working ≡ true
  pub hours : day.schedule ≡ some s
  pub because : day.reason ≡ why

Hours-WorkingDay :
    (d : Date) (i : Inputs) (s : WorkSchedule) (why : Reason)
    → Hours d i s why
    → is_holiday i s ≡ false
    → WorkingDay (resolve d i) s why
unfolding resolve choose worked_unless_holiday works_on
Hours-WorkingDay d i t why (Hours.rostered a s ea es) h = record {
  is_working = ground arith;
  hours = ground arith;
  because = ground arith;
}
Hours-WorkingDay d i t why (Hours.own s ea es w) h = record {
  is_working = ground arith;
  hours = ground arith;
  because = ground arith;
}

shown :
    (d : Date) (name : Text) (why0 : Reason) (t s : WorkSchedule) (why : Reason)
    → WorkingDay (worked_unless_holiday d name why0 t) s why
    → (t ≡ s) × (why0 ≡ why) × (not (is_empty name) && t.observes_holidays ≡ false)
unfolding worked_unless_holiday
shown d name why0 t s why w = ground (arith, w.is_working, w.hours, w.because)

no_day_off :
    (d : Date) (name : Text) (why0 : Reason) (s : WorkSchedule) (why : Reason)
    → WorkingDay (day_off d name why0) s why
    → ⊥
unfolding day_off
no_day_off d name why0 s why w = ground (arith, w.is_working)

choose-Hours :
    (d : Date) (i : Inputs) (assignment : Option ShiftAssignment)
    (assigned default : Option WorkSchedule) (s : WorkSchedule) (why : Reason)
    → i.assignment ≡ assignment
    → i.assigned ≡ assigned
    → i.default ≡ default
    → WorkingDay (choose d i.holiday assignment assigned default) s why
    → Hours d i s why × (is_holiday i s ≡ false)
unfolding choose works_on
choose-Hours d i (some a) none own_hours s why ea es eo w = absurd (no_day_off _ _ _ _ _ w)
choose-Hours d i (some a) (some t) own_hours s why ea es eo w =
    let o = shown _ _ _ _ _ _ w in
    (
      subst (Hours d i s) (o.1) (Hours.rostered a s ea (es ∙ ap some (o.0))),
      subst (λ t. is_holiday i t ≡ false) (o.0) (o.2),
    )
choose-Hours d i none assigned none s why ea es eo w = absurd (no_day_off _ _ _ _ _ w)
choose-Hours d i none assigned (some t) s why ea es eo w =
    elim (Bool-cases (any (λ w. w == iso_weekday d) t.workdays)) [
      | inl y ↦
          let o = shown _ _ _ _ _ _ (
            subst
              (λ b.
                WorkingDay
                  (if b
                    then worked_unless_holiday d i.holiday Reason.by_default t
                    else day_off d i.holiday Reason.not_a_workday)
                  s why)
              y w) in
          (
            subst (Hours d i s) (o.1)
                (subst (λ t. Hours d i t Reason.by_default) (o.0) (Hours.own t ea eo y)),
            subst (λ t. is_holiday i t ≡ false) (o.0) (o.2),
          )
      | inr y ↦ absurd (
          no_day_off _ _ _ _ _ (
            subst
              (λ b.
                WorkingDay
                  (if b
                    then worked_unless_holiday d i.holiday Reason.by_default t
                    else day_off d i.holiday Reason.not_a_workday)
                  s why)
              y w))
    ]

-- A person works a date exactly when they keep hours on it, the roster's before their own, that no
-- observed holiday turns off; the day then carries those hours and where they come from.
pub resolve-Hours :
    (d : Date) (i : Inputs) (s : WorkSchedule) (why : Reason)
    → WorkingDay (resolve d i) s why ↔ (Hours d i s why × (is_holiday i s ≡ false))
unfolding resolve
resolve-Hours d i s why = (
  choose-Hours d i i.assignment i.assigned i.default s why refl refl refl,
  λ h. Hours-WorkingDay d i s why (h.0) (h.1),
)

turned-Off :
    (d : Date) (i : Inputs) (why0 why : Reason) (t : WorkSchedule)
    → Hours d i t why
    → (worked_unless_holiday d i.holiday why0 t).working ≡ false
    → ((worked_unless_holiday d i.holiday why0 t).schedule ≡ none)
      × Off d i (worked_unless_holiday d i.holiday why0 t).reason
unfolding worked_unless_holiday
turned-Off d i why0 why t h w =
    let e : is_holiday i t ≡ true = ground arith in
    (ground arith, subst (Off d i) (ground arith) (Off.observed t why h e))

choose-Off :
    (d : Date) (i : Inputs) (assignment : Option ShiftAssignment)
    (assigned default : Option WorkSchedule)
    → i.assignment ≡ assignment
    → i.assigned ≡ assigned
    → i.default ≡ default
    → (choose d i.holiday assignment assigned default).working ≡ false
    → ((choose d i.holiday assignment assigned default).schedule ≡ none)
      × Off d i (choose d i.holiday assignment assigned default).reason
unfolding choose day_off
choose-Off d i (some a) none own_hours ea es eo w = (refl, Off.planned a ea es)
choose-Off d i (some a) (some t) own_hours ea es eo w =
    turned-Off d i _ _ t (Hours.rostered a t ea es) w
choose-Off d i none assigned none ea es eo w = (refl, Off.no_hours ea eo)
choose-Off d i none assigned (some t) ea es eo w = elim (Bool-cases (works_on t d)) [
  | inl y ↦ rw (y) (
      turned-Off d i _ _ t (Hours.own t ea eo y) (
        subst
          (λ b.
            (if b
              then worked_unless_holiday d i.holiday Reason.by_default t
              else day_off d i.holiday Reason.not_a_workday).working
            ≡ false)
          y w))
  | inr y ↦ rw (y) (refl, Off.other_weekday t ea eo y)
]

-- A person who does not work a date has no hours on it, and is off for one of the four reasons: the
-- roster plans it off, an observed holiday falls on it, they keep no hours of their own, or it is
-- none of their weekdays.
pub resolve-Off :
    (d : Date) (i : Inputs)
    → (resolve d i).working ≡ false
    → ((resolve d i).schedule ≡ none) × Off d i (resolve d i).reason
unfolding resolve
resolve-Off d i = choose-Off d i i.assignment i.assigned i.default refl refl refl
