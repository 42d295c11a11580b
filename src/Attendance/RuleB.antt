-- ===== src/Attendance/RuleB.antt =====
-- Rule B (attendance/whosin.go) against its statement.
use attendance_system.Prelude.{
  subst, ℕ, ◌+◌, ◌*◌, ◌≤◌, ◌<◌, ◌≡◌, refl, sym, ap, ◌∙◌, ◌⊎◌, inl, inr, true, false, Option, none,
  some, arith, ltb, if◌then◌else◌, ltb→lt, Bool-cases, Result, ok, pos, ◌≤ℤ◌, ◌<ℤ◌, ltb_ℤ,
}
use attendance_system.Text.{is_empty}
use attendance_system.Time.{Instant, Date, minute, Zone}
use attendance_system.User.Rows.{User}
use attendance_system.Schedule.Rows.{WorkSchedule, ShiftAssignment}
use attendance_system.Schedule.Validation.{Range}
use attendance_system.Schedule.Resolve.{
  Reason, Day, Inputs, works_on, worked_unless_holiday, day_off, choose, resolve,
}
use attendance_system.Schedule.Rule.{Hours, Off, resolve-Hours, resolve-Off}
use attendance_system.Schedule.Roster.{holiday_name, inputs_on}
use attendance_system.Attendance.Shift.{place}
use attendance_system.Attendance.Service.{Host}
use attendance_system.Attendance.Standing.{
  Standing, attended, away, covered, is_named, standing, standing_of_row, status_on,
}
use attendance_system.Db.{Db}
use attendance_system.Attendance.Rows.{Attendance}

-- When a shift with its grace starts.
abbrev pub counts_from : Zone → Date → WorkSchedule → Instant
counts_from zone d s = (place d (some s) zone).start + s.grace_minutes * minute

-- Where a person stands on a date, and why: an attendance before an approved leave, a leave before
-- rule A, and absence only from the start of the hours with their grace on.
pub data Stands (host : Host) (db : Db) (manager : Option ℕ) (span : Range) (member : User)
    (d : Date) : Standing → Type 0 where
  came_late :
      (row : Attendance)
      → attended db manager member.id d ≡ some row
      → pos 0 <ℤ row.late_minutes
      → Stands host db manager span member d Standing.late
  came :
      (row : Attendance)
      → attended db manager member.id d ≡ some row
      → row.late_minutes ≤ℤ pos 0
      → Stands host db manager span member d Standing.present
  is_away :
      attended db manager member.id d ≡ none
      → covered (away db manager span member.id) d ≡ true
      → Stands host db manager span member d Standing.on_leave
  is_off :
      (why : Reason)
      → attended db manager member.id d ≡ none
      → covered (away db manager span member.id) d ≡ false
      → Off d (inputs_on db member.id member.default_schedule_id d) why
      → Stands host db manager span member d
          (if is_named (holiday_name db d) then Standing.holiday else Standing.off)
  is_due :
      (hours : WorkSchedule) (why : Reason)
      → attended db manager member.id d ≡ none
      → covered (away db manager span member.id) d ≡ false
      → Hours d (inputs_on db member.id member.default_schedule_id d) hours why
      → host.now < counts_from host.zone d hours
      → Stands host db manager span member d Standing.not_yet
  is_missing :
      (hours : WorkSchedule) (why : Reason)
      → attended db manager member.id d ≡ none
      → covered (away db manager span member.id) d ≡ false
      → Hours d (inputs_on db member.id member.default_schedule_id d) hours why
      → counts_from host.zone d hours ≤ host.now
      → Stands host db manager span member d Standing.absent

-- A resolved day works with hours, or is off; its date and its holiday are those asked about.
abbrev Shaped : Date → Inputs → Day → Type 0
Shaped d i day =
    (day.date ≡ d)
    × (day.holiday ≡ i.holiday)
    × (((s : WorkSchedule) × (day.working ≡ true) × (day.schedule ≡ some s))
        ⊎ (day.working ≡ false))

worked-Shaped :
    (d : Date) (i : Inputs) (why : Reason) (s : WorkSchedule)
    → Shaped d i (worked_unless_holiday d i.holiday why s)
unfolding worked_unless_holiday
worked-Shaped d i why s = elim (Bool-cases (is_empty i.holiday)) [
  | inl y ↦ rw y (refl, refl, inl (s, refl, refl))
  | inr n ↦ elim (Bool-cases s.observes_holidays) [
    | inl o ↦ rw (n, o) (refl, refl, inr refl)
    | inr o ↦ (ground arith, ground arith, inl (s, ground arith, ground arith))
  ]
]

choose-Shaped :
    (d : Date) (i : Inputs) (a : Option ShiftAssignment) (b c : Option WorkSchedule)
    → Shaped d i (choose d i.holiday a b c)
unfolding choose day_off
choose-Shaped d i (some a) none c = (refl, refl, inr refl)
choose-Shaped d i (some a) (some s) c = worked-Shaped d i Reason.shift s
choose-Shaped d i none b none = (refl, refl, inr refl)
choose-Shaped d i none b (some s) = elim (Bool-cases (works_on s d)) [
  | inl y ↦ rw y (worked-Shaped d i Reason.by_default s)
  | inr n ↦ rw n (refl, refl, inr refl)
]

resolve-Shaped : (d : Date) (i : Inputs) → Shaped d i (resolve d i)
unfolding resolve
resolve-Shaped d i = choose-Shaped d i i.assignment i.assigned i.default

-- What `standing` says of a day.
standing-working :
    (day : Day) (at : Instant) (zone : Zone) (s : WorkSchedule)
    → day.working ≡ true
    → day.schedule ≡ some s
    → standing day at zone
      ≡ ok (if ltb at (counts_from zone day.date s) then Standing.not_yet else Standing.absent)
unfolding standing
standing-working day at zone s w h = rw (w, h) refl

standing-off :
    (day : Day) (at : Instant) (zone : Zone)
    → day.working ≡ false
    → standing day at zone ≡ ok (if is_named day.holiday then Standing.holiday else Standing.off)
unfolding standing
standing-off day at zone w = rw w refl

module _ (host : Host) (db : Db) (manager : Option ℕ) (span : Range) (member : User)
    (d : Date) where
  abbrev Answer : Result Standing → Type 0
  Answer r = (s : Standing) × (r ≡ ok s) × Stands host db manager span member d s

  day_at : Day
  day_at = resolve d (inputs_on db member.id member.default_schedule_id d)

  by_rule_A :
      attended db manager member.id d ≡ none
      → covered (away db manager span member.id) d ≡ false
      → Answer (standing day_at host.now host.zone)
  unfolding day_at inputs_on
  by_rule_A a c =
      let i = inputs_on db member.id member.default_schedule_id d in
      let shaped = resolve-Shaped d i in
      elim (shaped.2) [
        | inl (s, w, h) ↦
            let hours =
              (resolve-Hours d i s (resolve d i).reason).0
                (record { is_working = w; hours = h; because = refl }) in
            let is : standing (resolve d i) host.now host.zone
                ≡ ok (
                    if ltb host.now (counts_from host.zone d s)
                    then Standing.not_yet
                    else Standing.absent) =
              subst
                (λ e.
                  standing (resolve d i) host.now host.zone
                  ≡ ok (
                      if ltb host.now (counts_from host.zone e s)
                      then Standing.not_yet
                      else Standing.absent))
                (shaped.0) (standing-working (resolve d i) host.now host.zone s w h) in
            elim (Bool-cases (ltb host.now (counts_from host.zone d s))) [
              | inl y ↦ (
                Standing.not_yet,
                is ∙ rw y refl,
                Stands.is_due s (resolve d i).reason a c (hours.0) (ltb→lt _ _ y),
              )
              | inr n ↦ (
                Standing.absent,
                is ∙ rw n refl,
                Stands.is_missing s (resolve d i).reason a c (hours.0) (ground arith),
              )
            ]
        | inr w ↦ (
          (if is_named (holiday_name db d) then Standing.holiday else Standing.off),
          standing-off (resolve d i) host.now host.zone w
              ∙ ap (λ name. ok (if is_named name then Standing.holiday else Standing.off))
                  (shaped.1),
          Stands.is_off (resolve d i).reason a c ((resolve-Off d i w).1),
        )
      ]

  status_on-Answer : Answer (status_on host db manager span member d)
  unfolding status_on day_at
  status_on-Answer = go (attended db manager member.id d) refl
    where
      go :
          (held : Option Attendance)
          → attended db manager member.id d ≡ held
          → Answer (elim held [
            | some row ↦ ok (standing_of_row row)
            | none ↦
                if covered (away db manager span member.id) d
                then ok Standing.on_leave
                else standing
                    (resolve d (inputs_on db member.id member.default_schedule_id d))
                    host.now
                    host.zone
          ])
      go (some row) e = elim (Bool-cases (ltb_ℤ (pos 0) row.late_minutes)) [
        | inl y ↦ (Standing.late, rw y refl, Stands.came_late row e (ground arith))
        | inr n ↦ (Standing.present, rw n refl, Stands.came row e (ground arith))
      ]
      go none e = elim (Bool-cases (covered (away db manager span member.id) d)) [
        | inl y ↦ (Standing.on_leave, rw y refl, Stands.is_away e y)
        | inr n ↦
            subst
              (λ b. Answer (
                if b
                then ok Standing.on_leave
                else standing (resolve d (inputs_on db member.id member.default_schedule_id d))
                    host.now host.zone))
              (sym n) (by_rule_A e n)
      ]

-- Everybody stands somewhere on every date, and for the reason that rule B names: an attendance
-- makes them late or present by its minutes, else an approved leave makes them away, else rule A says
-- whether they are off, on a holiday or not, or due; and who is due is absent only from the start of
-- the hours and their grace on.
pub status_on-Stands :
    (host : Host) (db : Db) (manager : Option ℕ) (span : Range) (member : User) (d : Date)
    → (s : Standing) × (status_on host db manager span member d ≡ ok s)
      × Stands host db manager span member d s
status_on-Stands host db manager span member d = status_on-Answer host db manager span member d
