-- ===== src/Schedule/Fitting.antt =====
-- What schedule/service.go lets through against the CHECKs of internal/db/migrations/00004.
use attendance_system.Prelude.{
  ℕ, ◌+◌, ◌-◌, ◌≤◌, ◌<◌, ◌≡◌, refl, ◌⊎◌, inl, inr, Bool, true, false, List, [], ◌∷◌, ◌++◌, arith,
  Bool-cases, length, any, all, All, All-map, ok, err, >>=-elim, ℤ, pos, negsuc, pos_part, ltb_ℤ,
  leb_ℤ,
}
use attendance_system.Access.{Role, Claims}
use attendance_system.Schedule.Rows.{WorkSchedule}
use attendance_system.Db.{Db}
use attendance_system.Schedule.Validation.{check_name, check_workdays, check_schedule}
use attendance_system.Schedule.Clock.{parse_clock}
use attendance_system.Schedule.Store.{
  already_exists, is_weekday, schedule_fits, has_schedule_name, create_schedule,
}
use attendance_system.Schedule.Planning.{Host, role_only, Hours, build_schedule, add_schedule}
use attendance_system.Schedule.Weekdays.{Increasing, check_workdays-GoodWeekdays}
use attendance_system.Schedule.Sound.{Fits}

Increasing-length :
    (k : ℕ) (days : List ℕ)
    → Increasing days
    → All (λ n. k < n) days
    → All (λ n. n ≤ 7) days
    → length days ≤ 7 - k
Increasing-length k [] o b t = omega arith
Increasing-length k (d ∷ days) o b t =
    let rest = Increasing-length d days o.1 o.0 t.1 in omega (arith, rest, b.0, t.0)

all-weekdays : (days : List ℕ) → All (λ n. (1 ≤ n) × (n ≤ 7)) days → all is_weekday days ≡ true
all-weekdays [] h = refl
all-weekdays (d ∷ days) h = ground (arith, h.0, all-weekdays days h.1)

leb_ℤ_refl : (x : ℤ) → leb_ℤ x x ≡ true
leb_ℤ_refl (pos n) = ground arith
leb_ℤ_refl (negsuc n) = ground arith

some_day : (sent : List ℤ) (days : List ℕ) → check_workdays sent ≡ ok days → 0 < length days
unfolding check_workdays
some_day [] days h = absurd (ground arith)
some_day (x ∷ xs) [] h =
    let g = (check_workdays-GoodWeekdays (x ∷ xs) [] h).same x in
    absurd (ground (arith, g, leb_ℤ_refl x))
some_day (x ∷ xs) (d ∷ days) h = omega arith

-- Weekdays that are kept fit the column.
weekdays-Fits :
    (sent : List ℤ) (days : List ℕ)
    → check_workdays sent ≡ ok days
    → (1 ≤ length days) × (length days ≤ 7) × (all is_weekday days ≡ true)
weekdays-Fits sent days h =
    let g = check_workdays-GoodWeekdays sent days h in
    (
      some_day sent days h,
      Increasing-length 0 days g.order
          (All-map (λ n. (1 ≤ n) × (n ≤ 7)) (λ n. 0 < n) (λ n b. b.0) days g.bounds)
          (All-map (λ n. (1 ≤ n) × (n ≤ 7)) (λ n. n ≤ 7) (λ n b. b.1) days g.bounds),
      all-weekdays days g.bounds,
    )

grace-Fits :
    (start end : ℕ) (grace pause : ℤ)
    → check_schedule start end grace pause ≡ ok tt
    → (pos_part grace ≤ 240) × (pos_part pause ≤ 480)
unfolding check_schedule
grace-Fits start end grace pause h = (part grace 240 (ground arith), part pause 480 (ground arith))
  where
    part : (x : ℤ) (n : ℕ) → ltb_ℤ (pos n) x ≡ false → pos_part x ≤ n
    part (pos m) n h = ground arith
    part (negsuc m) n h = ground arith

build_schedule-Fits :
    (claims : Claims) (hours : Hours) (s : WorkSchedule)
    → build_schedule claims hours ≡ ok s
    → Fits s
unfolding build_schedule schedule_fits
build_schedule-Fits claims hours s h = >>=-elim (role_only Role.hr_admin claims) _ h λ u1 e1 h1.
    >>=-elim (check_name hours.name) _ h1 λ name e2 h2.
      >>=-elim (check_workdays hours.workdays) _ h2 λ days e3 h3.
        >>=-elim (parse_clock hours.start_time) _ h3 λ start e4 h4.
          >>=-elim (parse_clock hours.end_time) _ h4 λ end e5 h5.
            >>=-elim (check_schedule start end hours.grace_minutes hours.break_minutes) _ h5
              λ u6 e6 h6. ground (
                arith,
                weekdays-Fits hours.workdays days e3,
                grace-Fits start end hours.grace_minutes hours.break_minutes e6,
              )

-- Whether a live schedule has the name, but for the case.
abbrev pub name_taken : Host → Db → WorkSchedule → Bool
name_taken host db s = any (has_schedule_name host.lower s.name) db.work_schedules

abbrev pub stored : Db → WorkSchedule → WorkSchedule
stored db s = record s { id = db.next_schedule_id; deleted = false }

abbrev pub with_schedule : Db → WorkSchedule → Db
with_schedule db row = record db {
  work_schedules = db.work_schedules ++ row ∷ [];
  next_schedule_id = db.next_schedule_id + 1;
}

-- Hours that pass the checks of a request never meet a CHECK of the table: they are stored with the
-- next id, unless a live schedule has their name but for the case, which is answered as a conflict.
pub add_schedule_lem :
    (host : Host) (db : Db) (claims : Claims) (hours : Hours) (s : WorkSchedule)
    → build_schedule claims hours ≡ ok s
    → ((name_taken host db s ≡ true) × (add_schedule host db claims hours ≡ err already_exists))
      ⊎ ((name_taken host db s ≡ false)
          × (add_schedule host db claims hours ≡ ok (stored db s, with_schedule db (stored db s))))
unfolding add_schedule create_schedule
add_schedule_lem host db claims hours s h =
    let fits = build_schedule-Fits claims hours s h in
    elim (Bool-cases (name_taken host db s)) [
      | inl t ↦ inl (t, rw (h, fits, t) refl)
      | inr o ↦ inr (o, rw (h, fits, o) refl)
    ]
