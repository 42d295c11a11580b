-- ===== src/Schedule/RosterMap.antt =====
-- The roster as a map from a person and a date to what is planned, and what schedule/service.go's
-- `Assign` writes into it.
use attendance_system.Prelude.{
  ℕ, ◌≡◌, refl, sym, ap, ◌∙◌, inl, inr, true, false, not, ◌&&◌, Option, none, some, List, [], ◌∷◌,
  ◌++◌, map, arith, ltb, ◌==◌, if◌then◌else◌, Bool-cases, Option-cases, length, any, all, find,
  rewrite, All, Pairs, find-holds, All-map, find-rewrite_same, find-updated, find-snoc,
  find-snoc_other, ok, refuse_if, >>=-elim, refuse_if-eq_ok,
}
use attendance_system.Text.{Text, byte_len}
use attendance_system.Access.{Role, Claims}
use attendance_system.Time.{Date}
use attendance_system.Schedule.Rows.{ShiftAssignment}
use attendance_system.Db.{Db, ok_db}
use attendance_system.Schedule.Roster.{assignment_on}
use attendance_system.Schedule.RosterStore.{
  same_slot, put_row, put_rows, refers_to_rows, lock_assignments, write_audits, audits_of,
  upsert_assignments,
}
use attendance_system.Schedule.Planning.{Host, today, is_past, role_only}
use attendance_system.Schedule.Assigning.{
  Assignment, max_bulk_assigned, slot_of, slot_eq, check_each, check_assignments, planned_row,
  audit_assigned, assign,
}

-- What a slot of the roster says: a schedule or a day off, and the note.
abbrev pub Entry : Type 0
Entry = Option ℕ × Text

abbrev pub entry_of : Option ShiftAssignment → Option Entry
entry_of none = none
entry_of (some a) = some (a.schedule_id, a.note)

abbrev pub entry : Db → ℕ → Date → Option Entry
entry db user date = entry_of (assignment_on db user date)

-- The map with a slice of rows laid over it.
abbrev pub overlaid : Option ShiftAssignment → Option Entry → Option Entry
overlaid none old = old
overlaid (some a) old = some (a.schedule_id, a.note)

abbrev set_to : ShiftAssignment → ShiftAssignment → ShiftAssignment
set_to new a = record a { schedule_id = new.schedule_id; note = new.note }

put_new :
    (db : Db) (new row : ShiftAssignment) (u : ℕ) (d : Date)
    → assignment_on db new.user_id new.work_date ≡ none
    → same_slot u d row ≡ same_slot u d new
    → entry_of (some row) ≡ entry_of (some new)
    → entry_of (find (same_slot u d) (db.shift_assignments ++ row ∷ []))
      ≡ (if same_slot u d new then some (new.schedule_id, new.note) else entry db u d)
put_new db new row u d e k s = elim (Bool-cases (same_slot u d new)) [
  | inl t ↦
      let eu : new.user_id ≡ u = ground arith in
      let ed : new.work_date ≡ d = ground arith in
      let there = find-snoc (same_slot u d) db.shift_assignments row (rw (eu, ed) at e) (k ∙ t) in
      rw (there, t) s
  | inr o ↦
      let there = find-snoc_other (same_slot u d) db.shift_assignments row (k ∙ o) in
      rw (there, o) refl
]

put_over :
    (db : Db) (new held : ShiftAssignment) (u : ℕ) (d : Date)
    → assignment_on db new.user_id new.work_date ≡ some held
    → entry_of (
        find
          (same_slot u d)
          (rewrite (same_slot new.user_id new.work_date) (set_to new) db.shift_assignments))
      ≡ (if same_slot u d new then some (new.schedule_id, new.note) else entry db u d)
put_over db new held u d e = elim (Bool-cases (same_slot u d new)) [
  | inl t ↦
      let eu : new.user_id ≡ u = ground arith in
      let ed : new.work_date ≡ d = ground arith in
      let p = same_slot new.user_id new.work_date in
      let there =
        find-updated (same_slot u d) p (set_to new) db.shift_assignments {r = held}
          (λ x. ground arith) (rw (eu, ed) at e) in
      let hit : p held ≡ true = find-holds p db.shift_assignments e in rw (there, t, hit) refl
  | inr o ↦
      let there =
        find-rewrite_same (same_slot new.user_id new.work_date) (set_to new) (same_slot u d)
          db.shift_assignments (λ x h. ground arith) (λ x h. ground arith) in
      rw (there, o) refl
]

-- One row of the statement sets its own slot and no other.
put_row-entry :
    (db : Db) (new : ShiftAssignment) (u : ℕ) (d : Date)
    → entry (put_row (assignment_on db new.user_id new.work_date) new db).1 u d
      ≡ (if same_slot u d new then some (new.schedule_id, new.note) else entry db u d)
put_row-entry db new u d = elim (Option-cases (assignment_on db new.user_id new.work_date)) [
  | inl e ↦ rw e (put_new db new (record new { id = db.next_assignment_id }) u d e refl refl)
  | inr (held, e) ↦ rw e (put_over db new held u d e)
]

-- Rows of different slots.
abbrev pub Apart : ShiftAssignment → ShiftAssignment → Type 0
Apart a b = ((a.user_id == b.user_id) && (a.work_date == b.work_date)) ≡ false

find-Apart :
    (new : ShiftAssignment) (more : List ShiftAssignment) (u : ℕ) (d : Date)
    → All (Apart new) more
    → same_slot u d new ≡ true
    → find (same_slot u d) more ≡ none
find-Apart new [] u d h t = refl
find-Apart new (a ∷ more) u d h t =
    let rest = find-Apart new more u d h.1 t in let apart = h.0 in ground arith

put_rows-entry :
    (news : List ShiftAssignment) (db : Db) (u : ℕ) (d : Date)
    → Pairs Apart news
    → entry (put_rows news db).1 u d ≡ overlaid (find (same_slot u d) news) (entry db u d)
unfolding put_rows
put_rows-entry [] db u d h = refl
put_rows-entry (new ∷ more) db u d h =
    let held = assignment_on db new.user_id new.work_date in
    let rest = put_rows-entry more (put_row held new db).1 u d h.1 in
    elim (Bool-cases (same_slot u d new)) [
      | inl t ↦ rest ∙ rw (put_row-entry db new u d, find-Apart new more u d h.0 t, t) refl
      | inr o ↦ rest ∙ rw (put_row-entry db new u d, o) refl
    ]

-- The check of a request leaves no slot twice.
abbrev Fresh : List (ℕ × Date) → ShiftAssignment → Type 0
Fresh seen a = any (slot_eq (a.user_id, a.work_date)) seen ≡ false

check_each-Apart :
    (seen : List (ℕ × Date)) (sent : List Assignment)
    → check_each seen sent ≡ ok tt
    → All (Fresh seen) (map planned_row sent) × Pairs Apart (map planned_row sent)
unfolding check_each
check_each-Apart seen [] h = (tt, tt)
check_each-Apart seen (a ∷ more) h = >>=-elim (refuse_if (ltb a.user_id 1) _) _ h λ u1 e1 h1.
    >>=-elim (refuse_if (a.work_date == 0) _) _ h1 λ u2 e2 h2.
      >>=-elim (refuse_if (ltb 200 (byte_len a.note)) _) _ h2 λ u3 e3 h3.
        >>=-elim (refuse_if (any (slot_eq (slot_of a)) seen) _) _ h3 λ u4 e4 h4.
          let (fresh, apart) = check_each-Apart (slot_of a ∷ seen) more h4 in
          let new : any (slot_eq (slot_of a)) seen ≡ false = refuse_if-eq_ok _ _ e4 in
          (
            (new, All-map (Fresh (slot_of a ∷ seen)) (Fresh seen) (λ x f. ground arith) _ fresh),
            (
              All-map (Fresh (slot_of a ∷ seen)) (Apart (planned_row a)) (λ x f. ground arith) _
                  fresh,
              apart,
            ),
          )

-- What `Assign` answers and leaves when nothing refuses it.
abbrev pub upserted : Host → Db → Claims → List Assignment → List ShiftAssignment × Db
upserted host db claims sent =
    let news = map planned_row sent in
    let audits =
      if any (λ a. is_past a.work_date (today host)) news
      then some (audit_assigned claims (today host) news)
      else none in
    let (rows, db') = put_rows news db in
    (rows, write_audits (audits_of audits (lock_assignments db news)) db')

-- What is known of a call of `Assign` that succeeded.
pub record Assigned (host : Host) (db : Db) (claims : Claims) (sent : List Assignment)
    (rows : List ShiftAssignment) (db' : Db) : Type 0 where
  pub apart : Pairs Apart (map planned_row sent)
  pub refers : all (refers_to_rows db) (map planned_row sent) ≡ true
  pub wrote : ok (upserted host db claims sent) ≡ ok (rows, db')

pub assign-Assigned :
    (host : Host) (db : Db) (claims : Claims) (sent : List Assignment) (rows : List ShiftAssignment)
    (db' : Db)
    → assign host db claims sent ≡ ok (rows, db')
    → Assigned host db claims sent rows db'
unfolding assign check_assignments upsert_assignments
assign-Assigned host db claims sent rows db' h =
    >>=-elim (role_only Role.hr_admin claims) _ h λ u1 e1 h1.
      >>=-elim (check_assignments sent) _ h1 λ u2 e2 h2.
        >>=-elim (refuse_if (length sent == 0) _) _ e2 λ u3 e3 h3.
          >>=-elim (refuse_if (ltb max_bulk_assigned (length sent)) _) _ h3 λ u4 e4 h4.
            >>=-elim (refuse_if (not (all (refers_to_rows db) (map planned_row sent))) _) _ h2
              λ u5 e5 h5. record {
                apart = (check_each-Apart [] sent h4).1;
                refers = ground (arith, refuse_if-eq_ok _ _ e5);
                wrote = h5;
              }

-- `Assign` refines the map: after it the slots that were sent hold what was sent for them, and every
-- other slot holds what it held. The call must have succeeded.
pub assign-overlaid :
    (host : Host) (db : Db) (claims : Claims) (sent : List Assignment) (rows : List ShiftAssignment)
    (db' : Db) (u : ℕ) (d : Date)
    → assign host db claims sent ≡ ok (rows, db')
    → entry db' u d ≡ overlaid (find (same_slot u d) (map planned_row sent)) (entry db u d)
assign-overlaid host db claims sent rows db' u d h =
    let a = assign-Assigned host db claims sent rows db' h in
    let written = put_rows-entry (map planned_row sent) db u d a.apart in
    let same : (upserted host db claims sent).1 ≡ db' = ok_db _ _ a.wrote in
    ap (λ (x : Db). entry x u d) (sym same) ∙ written
