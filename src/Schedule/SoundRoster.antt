-- ===== src/Schedule/SoundRoster.antt =====
-- The writes of schedule/repository.go to the holidays and the roster keep the constraints of the
-- database.
use attendance_system.Prelude.{
  subst, ℕ, ◌≡◌, refl, inl, inr, false, not, ◌&&◌, Option, List, [], ◌∷◌, arith, ◌==◌, Option-cases,
  any, find-none-All, Pairs-snoc, All-map, Pairs-rewrite, AtMostOne-of_key, any-All-false,
  keep-Pairs, Pairs-replace, IsTable-snoc, IsTable-rewrite, IsTable-keep, ok, refuse_if, >>=-elim,
  refuse_if-eq_ok,
}
use attendance_system.Text.{Text}
use attendance_system.Schedule.Rows.{ShiftAssignment, Holiday}
use attendance_system.Db.{AuditLog, Db, ok_is, ok_db}
use attendance_system.Schedule.Roster.{assignment_on}
use attendance_system.Schedule.Store.{
  find_holiday, with_entity_id, create_holiday, replace_holiday, delete_holiday,
}
use attendance_system.Schedule.RosterStore.{
  same_slot, put_row, put_rows, find_assignment, delete_assignment,
}
use attendance_system.Schedule.RosterMap.{entry, Apart}
use attendance_system.Schedule.Sound.{OtherDay, IsSound, write_audit-IsSound}

pub create_holiday-IsSound :
    (lower : Text → Text) (db : Db) (new row : Holiday) (entry : Option AuditLog) (db' : Db)
    → IsSound lower db
    → create_holiday db new entry ≡ ok (row, db')
    → IsSound lower db'
unfolding create_holiday
create_holiday-IsSound lower db new row entry db' s h =
    >>=-elim (refuse_if (any (λ h. h.date == new.date) db.holidays) _) _ h λ u1 e1 h1.
      let free = any-All-false _ db.holidays (refuse_if-eq_ok _ _ e1) in
      let built : Holiday = record new { id = db.next_holiday_id } in
      subst (IsSound lower) (ok_db _ _ h1) (
        write_audit-IsSound lower _ (with_entity_id built.id entry) (record {
          schedules = s.schedules;
          locations = s.locations;
          slots = s.slots;
          holidays = record {
            ids =
                IsTable-snoc (λ (x : Holiday). x.id) db.next_holiday_id db.holidays built refl
                  s.holidays.ids;
            one_per_date = Pairs-snoc OtherDay db.holidays built s.holidays.one_per_date free;
          };
        }))

pub replace_holiday-IsSound :
    (lower : Text → Text) (db : Db) (next row : Holiday) (entry : Option AuditLog) (db' : Db)
    → IsSound lower db
    → replace_holiday db next entry ≡ ok (row, db')
    → IsSound lower db'
unfolding replace_holiday
replace_holiday-IsSound lower db next row entry db' s h =
    >>=-elim (find_holiday db next.id) _ h λ held e0 h0.
      >>=-elim (refuse_if (any (λ h. not (h.id == next.id) && (h.date == next.date)) db.holidays) _)
        _ h0
        λ u1 e1 h1.
          let free = any-All-false _ db.holidays (refuse_if-eq_ok _ _ e1) in
          subst (IsSound lower) (ok_db _ _ h1) (
            write_audit-IsSound lower _ entry (record {
              schedules = s.schedules;
              locations = s.locations;
              slots = s.slots;
              holidays = record {
                ids =
                    IsTable-rewrite (λ (x : Holiday). x.id) db.next_holiday_id
                      (λ h. h.id == next.id) (λ _. next) db.holidays (λ a. ground arith)
                      s.holidays.ids;
                one_per_date =
                    Pairs-replace (λ h. h.id == next.id) next OtherDay db.holidays
                      (AtMostOne-of_key (λ (x : Holiday). x.id) next.id (λ h. h.id == next.id)
                        db.holidays (λ x p. p) s.holidays.ids.keys)
                      (All-map (λ a. (not (a.id == next.id) && (a.date == next.date)) ≡ false)
                        (λ a. (a.id == next.id) ≡ false → OtherDay a next × OtherDay next a)
                        (λ a f o. (ground arith, ground arith)) _ free)
                      s.holidays.one_per_date;
              };
            }))

pub delete_holiday-IsSound :
    (lower : Text → Text) (db : Db) (id : ℕ) (entry : Option AuditLog) (db' : Db)
    → IsSound lower db
    → delete_holiday db id entry ≡ ok db'
    → IsSound lower db'
unfolding delete_holiday
delete_holiday-IsSound lower db id entry db' s h = >>=-elim (find_holiday db id) _ h λ held e0 h0.
    subst (IsSound lower) (ok_is _ _ h0) (
      write_audit-IsSound lower _ entry (record {
        schedules = s.schedules;
        locations = s.locations;
        slots = s.slots;
        holidays = record {
          ids =
              IsTable-keep (λ (x : Holiday). x.id) db.next_holiday_id (λ h. not (h.id == id))
                db.holidays s.holidays.ids;
          one_per_date =
              keep-Pairs (λ h. not (h.id == id)) OtherDay db.holidays s.holidays.one_per_date;
        };
      }))

pub delete_assignment-IsSound :
    (lower : Text → Text) (db : Db) (id : ℕ) (entry : Option AuditLog) (db' : Db)
    → IsSound lower db
    → delete_assignment db id entry ≡ ok db'
    → IsSound lower db'
unfolding delete_assignment
delete_assignment-IsSound lower db id entry db' s h =
    >>=-elim (find_assignment db id) _ h λ held e0 h0. subst (IsSound lower) (ok_is _ _ h0) (
      write_audit-IsSound lower _ entry (record {
        schedules = s.schedules;
        holidays = s.holidays;
        locations = s.locations;
        slots = record {
          ids =
              IsTable-keep (λ (x : ShiftAssignment). x.id) db.next_assignment_id
                (λ a. not (a.id == id)) db.shift_assignments s.slots.ids;
          one_per_slot =
              keep-Pairs (λ a. not (a.id == id)) Apart db.shift_assignments s.slots.one_per_slot;
        };
      }))

put_row-IsSound :
    (lower : Text → Text) (db : Db) (new : ShiftAssignment)
    → IsSound lower db
    → IsSound lower (put_row (assignment_on db new.user_id new.work_date) new db).1
put_row-IsSound lower db new s = elim (Option-cases (assignment_on db new.user_id new.work_date)) [
  | inl e ↦
      let built : ShiftAssignment = record new { id = db.next_assignment_id } in
      rw e (record {
        schedules = s.schedules;
        holidays = s.holidays;
        locations = s.locations;
        slots = record {
          ids =
              IsTable-snoc (λ (x : ShiftAssignment). x.id) db.next_assignment_id
                db.shift_assignments built refl s.slots.ids;
          one_per_slot =
              Pairs-snoc Apart db.shift_assignments built s.slots.one_per_slot
                (find-none-All (same_slot new.user_id new.work_date) db.shift_assignments e);
        };
      })
  | inr (held, e) ↦
      let over : ShiftAssignment → ShiftAssignment =
        λ a. record a { schedule_id = new.schedule_id; note = new.note } in
      rw e (record {
        schedules = s.schedules;
        holidays = s.holidays;
        locations = s.locations;
        slots = record {
          ids =
              IsTable-rewrite (λ (x : ShiftAssignment). x.id) db.next_assignment_id
                (same_slot new.user_id new.work_date) over db.shift_assignments (λ a. ground arith)
                s.slots.ids;
          one_per_slot =
              Pairs-rewrite (same_slot new.user_id new.work_date) over Apart
                (λ a b r. ground (arith, r)) db.shift_assignments s.slots.one_per_slot;
        };
      })
]

pub put_rows-IsSound :
    (lower : Text → Text) (news : List ShiftAssignment) (db : Db)
    → IsSound lower db
    → IsSound lower (put_rows news db).1
unfolding put_rows
put_rows-IsSound lower [] db s = s
put_rows-IsSound lower (new ∷ more) db s =
    put_rows-IsSound lower more (put_row (assignment_on db new.user_id new.work_date) new db).1
      (put_row-IsSound lower db new s)
