-- ===== src/Attendance/Roll.antt =====
-- Who is listed on which dates (attendance/whosin.go `standings`, `Daily`).
use mathlib.Core.List.{Permᴰ}
use attendance_system.Prelude.{
  ℕ, zero, suc, ◌+◌, ◌-◌, ◌≡◌, refl, ap, ◌∙◌, inl, inr, Bool, true, false, not, ◌&&◌, Option, none,
  some, List, [], ◌∷◌, ◌++◌, map, arith, ltb, leb, if◌then◌else◌, Bool-cases, All, All-append,
  Result, ok,
}
use attendance_system.Access.{Role, at_least, Claims}
use attendance_system.Time.{Instant, Date, Zone}
use attendance_system.User.Rows.{User}
use attendance_system.User.Hierarchy.{scope}
use attendance_system.Schedule.Validation.{Span, Range, days, check_range}
use attendance_system.Attendance.Service.{Host}
use attendance_system.Attendance.Standing.{
  Presence, Filter, staff, attended, is_employed, presence_on, dates_of, standings, daily,
}
use attendance_system.Attendance.RuleB.{Stands, status_on-Stands}
use attendance_system.Db.{Db}
use attendance_system.Attendance.Listing.{
  Selected, All-Selected, All-Permᴰ, IsRow, users-IsRow, InReach, staff-Selected,
}

-- Employed on a date: joined by then, and not removed before it.
abbrev works_on : Zone → User → Date → Bool
works_on zone u d =
    leb u.join_date d && elim u.deleted_at [ none ↦ true | some at ↦ leb d (zone.date_in at) ]

works_on-employed : (zone : Zone) (u : User) (d : Date) → is_employed zone d u ≡ works_on zone u d
works_on-employed zone u d = go u.deleted_at
  where
    go :
        (gone : Option Instant)
        → (not (ltb d u.join_date)
            && not (elim gone [ none ↦ false | some at ↦ ltb (zone.date_in at) d ]))
          ≡ (leb u.join_date d && elim gone [ none ↦ true | some at ↦ leb d (zone.date_in at) ])
    go none = ground arith
    go (some at) = ground arith

abbrev employed_from : Zone → User → ℕ → Date → List (ℕ × Date)
employed_from zone u zero d = []
employed_from zone u (suc left) d =
    let rest = employed_from zone u left (d + 1) in
    if works_on zone u d then (u.id, d) ∷ rest else rest

-- The dates of a span on which these people are employed, person by person, in order.
abbrev pub roll : Zone → Range → List User → List (ℕ × Date)
roll zone span [] = []
roll zone span (u ∷ us) =
    employed_from zone u (span.to + 1 - span.from) span.from ++ roll zone span us

abbrev pub entry : Presence → ℕ × Date
entry p = (p.user_id, p.date)

-- One entry of the list: the person's row in the table, and their status on that date.
pub record Entry (host : Host) (db : Db) (manager : Option ℕ) (span : Range) (p : Presence)
    : Type 0 where
  pub person : User
  pub is_row : IsRow db person
  pub user_is : p.user_id ≡ person.id
  pub name_is : p.full_name ≡ person.full_name
  pub department_is : p.department_id ≡ person.department_id
  pub attendance_is : p.attendance ≡ attended db manager person.id p.date
  pub right : Stands host db manager span person p.date p.status

-- One entry for each, with a status that rule B allows.
pub record Listed (host : Host) (db : Db) (manager : Option ℕ) (span : Range)
    (days : List (ℕ × Date)) (out : List Presence) : Type 0 where
  pub entries : map entry out ≡ days
  pub right : All (Entry host db manager span) out

Answered :
    (host : Host) (db : Db) (manager : Option ℕ) (span : Range) (days : List (ℕ × Date))
    (r : Result (List Presence))
    → Type 0
Answered host db manager span days r =
    (out : List Presence) × (r ≡ ok out) × Listed host db manager span days out

module _ (host : Host) (db : Db) (manager : Option ℕ) (span : Range) where
  presence_on-Entry :
      (member : User) (d : Date)
      → IsRow db member
      → (p : Presence) × (presence_on host db manager span member d ≡ ok p)
        × (entry p ≡ (member.id, d))
        × Entry host db manager span p
  unfolding presence_on
  presence_on-Entry member d row =
      let (s, e, why) = status_on-Stands host db manager span member d in
      let p : Presence = record {
        user_id = member.id;
        full_name = member.full_name;
        department_id = member.department_id;
        date = d;
        status = s;
        attendance = attended db manager member.id d;
      } in
      (
        p,
        rw e refl,
        refl,
        record {
          person = member;
          is_row = row;
          user_is = refl;
          name_is = refl;
          department_is = refl;
          attendance_is = refl;
          right = why;
        },
      )

  dates_of-Answered :
      (member : User) (left : ℕ) (d : Date)
      → IsRow db member
      → Answered host db manager span
          (employed_from host.zone member left d)
          (dates_of host db manager span member left d)
  unfolding dates_of Answered
  dates_of-Answered member zero d row = ([], refl, record { entries = refl; right = tt })
  dates_of-Answered member (suc left) d row =
      let (ps, e, l) = dates_of-Answered member left (d + 1) row in
      let same = works_on-employed host.zone member d in
      elim (Bool-cases (works_on host.zone member d)) [
        | inr n ↦ (ps, rw (same, n) e, record { entries = rw n l.entries; right = l.right })
        | inl y ↦
            let (p, f, k, why) = presence_on-Entry member d row in
            (
              p ∷ ps,
              rw (same, y, f, e) refl,
              record { entries = rw (y, k, l.entries) refl; right = (why, l.right) },
            )
      ]

  map-append : (xs ys : List Presence) → map entry (xs ++ ys) ≡ map entry xs ++ map entry ys
  map-append [] ys = refl
  map-append (x ∷ xs) ys = ap (λ l. entry x ∷ l) (map-append xs ys)

  standings-Answered :
      (members : List User)
      → All (IsRow db) members
      → Answered host db manager span
          (roll host.zone span members)
          (standings host db manager members span)
  unfolding standings Answered
  standings-Answered [] rows = ([], refl, record { entries = refl; right = tt })
  standings-Answered (u ∷ us) rows =
      let (ps, e, l) = dates_of-Answered u (span.to + 1 - span.from) span.from (rows.0) in
      let (qs, f, k) = standings-Answered us (rows.1) in
      (
        ps ++ qs,
        rw (e, f) refl,
        record {
          entries = map-append ps qs ∙ rw (l.entries, k.entries) refl;
          right = All-append _ ps qs l.right k.right;
        },
      )

-- For a supervisor or above and an accepted span, the daily list never fails, if the order by name
-- is an order of the rows it is given. It is about exactly the users who joined by the end of the
-- span, were not gone a day before its start, are seen by the caller (everybody for hr_admin and
-- above, else those below the caller) and pass the filter. In the order by name it has one entry for
-- each of them and each date of the span on which they were employed, in order, with the data of
-- their row, their attendance and a status that rule B allows.
pub daily_lem :
    (host : Host) (by_name : List User → List User) (db : Db) (claims : Claims) (sent : Span)
    (filter : Filter) (span : Range)
    → ((us : List User) → Permᴰ us (by_name us))
    → at_least claims.role Role.supervisor ≡ true
    → check_range sent ≡ ok span
    → (chosen : List User) × (out : List Presence) × Selected
        (InReach db claims span filter)
        db.users
        chosen
      × (daily host by_name db claims sent filter ≡ ok out)
      × Listed host db (scope claims) span (roll host.zone span (by_name chosen)) out
unfolding daily Answered
daily_lem host by_name db claims sent filter span order may checked =
    let chosen = staff db (scope claims) span filter in
    let selected = staff-Selected db claims span filter in
    let rows =
      All-Permᴰ (IsRow db) (order chosen)
        (All-Selected (InReach db claims span filter) (IsRow db) selected (users-IsRow db)) in
    let (out, e, l) = standings-Answered host db (scope claims) span (by_name chosen) rows in
    (chosen, out, selected, rw (may, checked) e, l)
