-- ===== src/Schedule/Rostered.antt =====
-- Rule A (schedule/resolve.go) on a date that schedule/service.go's `Assign` has written.
use attendance_system.Prelude.{
  subst, ℕ, ◌≡◌, refl, ap, ◌∙◌, Option, none, some, List, [], ◌∷◌, map, arith, find, ok,
}
use attendance_system.Text.{Text}
use attendance_system.Access.{Claims}
use attendance_system.Time.{Date}
use attendance_system.Schedule.Rows.{WorkSchedule, ShiftAssignment}
use attendance_system.Db.{Db, ok_db}
use attendance_system.Schedule.Resolve.{
  Reason, Day, worked_unless_holiday, day_off, choose, resolve,
}
use attendance_system.Schedule.Roster.{lookup, assignment_on, holiday_name, inputs_on}
use attendance_system.Schedule.RosterStore.{same_slot, put_row, put_rows}
use attendance_system.Schedule.Planning.{Host}
use attendance_system.Schedule.Assigning.{Assignment, planned_row, assign}
use attendance_system.Schedule.RosterMap.{
  entry_of, entry, overlaid, assign-Assigned, assign-overlaid,
}

-- The roster's writes leave the schedules and the holidays alone.
abbrev SamePlans : Db → Db → Type 0
SamePlans db db' = (db'.work_schedules ≡ db.work_schedules) × (db'.holidays ≡ db.holidays)

put_row-SamePlans :
    (held : Option ShiftAssignment) (new : ShiftAssignment) (db : Db)
    → SamePlans db (put_row held new db).1
put_row-SamePlans none new db = (refl, refl)
put_row-SamePlans (some a) new db = (refl, refl)

put_rows-SamePlans : (news : List ShiftAssignment) (db : Db) → SamePlans db (put_rows news db).1
unfolding put_rows
put_rows-SamePlans [] db = (refl, refl)
put_rows-SamePlans (new ∷ more) db =
    let held = assignment_on db new.user_id new.work_date in
    let (s, h) = put_rows-SamePlans more (put_row held new db).1 in
    let (s1, h1) = put_row-SamePlans held new db in (s ∙ s1, h ∙ h1)

-- What rule A says of a date whose roster names a schedule, or a day off.
abbrev pub rostered : Date → Text → Option WorkSchedule → Day
rostered d name none = day_off d name Reason.assigned_off
rostered d name (some s) = worked_unless_holiday d name Reason.shift s

resolve-rostered :
    (db : Db) (u : ℕ) (own : Option ℕ) (d : Date) (a : ShiftAssignment)
    → assignment_on db u d ≡ some a
    → resolve d (inputs_on db u own d) ≡ rostered d (holiday_name db d) (lookup db a.schedule_id)
unfolding resolve choose inputs_on
resolve-rostered db u own d a e = go (assignment_on db u d) e
  where
    decided :
        (s : Option WorkSchedule)
        → choose d (holiday_name db d) (some a) s (lookup db own) ≡ rostered d (holiday_name db d) s
    decided none = refl
    decided (some s) = refl

    go :
        (o : Option ShiftAssignment)
        → o ≡ some a
        → choose d
            (holiday_name db d)
            o
            (elim o [ none ↦ none | some r ↦ lookup db r.schedule_id ])
            (lookup db own)
          ≡ rostered d (holiday_name db d) (lookup db a.schedule_id)
    go none e = absurd (cc)
    go (some r) e = let same : r ≡ a = ground arith in rw same (decided (lookup db a.schedule_id))

entry-row :
    (o : Option ShiftAssignment) (a : ShiftAssignment)
    → entry_of o ≡ entry_of (some a)
    → (r : ShiftAssignment) × (o ≡ some r) × (r.schedule_id ≡ a.schedule_id)
entry-row none a h = absurd (ground arith)
entry-row (some r) a h = (r, refl, ground arith)

lookup-SamePlans : (db db' : Db) (id : Option ℕ) → SamePlans db db' → lookup db' id ≡ lookup db id
lookup-SamePlans db db' none s = refl
lookup-SamePlans db db' (some id) s = rw (s.0) refl

-- After `Assign` has succeeded, rule A follows the row that was sent for a person and a date,
-- whatever the roster and the person's own hours said: the schedule that it names is worked, if one
-- of that id is kept and no holiday that it observes falls on the date, and without one the date is
-- a planned day off.
pub assign-resolve :
    (host : Host) (db : Db) (claims : Claims) (sent : List Assignment) (rows : List ShiftAssignment)
    (db' : Db) (u : ℕ) (own : Option ℕ) (d : Date) (a : ShiftAssignment)
    → assign host db claims sent ≡ ok (rows, db')
    → find (same_slot u d) (map planned_row sent) ≡ some a
    → resolve d (inputs_on db' u own d) ≡ rostered d (holiday_name db d) (lookup db a.schedule_id)
assign-resolve host db claims sent rows db' u own d a h e =
    let written = assign-overlaid host db claims sent rows db' u d h in
    let (r, held, same) =
      entry-row (assignment_on db' u d) a (written ∙ ap (λ o. overlaid o (entry db u d)) e) in
    let kept : SamePlans db db' =
      subst (SamePlans db) (ok_db _ _ ((assign-Assigned host db claims sent rows db' h).wrote))
        (put_rows-SamePlans (map planned_row sent) db) in
    resolve-rostered db' u own d r held
    ∙ rw (same, lookup-SamePlans db db' a.schedule_id kept, kept.1) refl
