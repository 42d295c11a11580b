-- ===== src/Schedule/SoundSchedules.antt =====
-- The writes of schedule/repository.go to the schedules keep the constraints of the database.
use attendance_system.Prelude.{
  subst, ℕ, ◌≡◌, refl, inl, inr, true, false, not, ◌&&◌, [], ◌∷◌, arith, ◌==◌, Bool-cases, any,
  All-append, Pairs-snoc, All-map, All-rewrite, Pairs-rewrite, AtMostOne-of_key, any-All-false,
  Pairs-replace, IsTable-snoc, IsTable-rewrite, ok, refuse_if, >>=-elim, refuse_if-eq_ok,
}
use attendance_system.Text.{Text, text_eq_comm}
use attendance_system.Schedule.Rows.{WorkSchedule}
use attendance_system.Db.{Db, ok_is, ok_db}
use attendance_system.Schedule.Store.{
  schedule_fits, is_schedule, find_schedule, has_schedule_name, create_schedule, replace_schedule,
  delete_schedule,
}
use attendance_system.Schedule.Sound.{OtherSchedule, Fits, IsSound}

pub create_schedule-IsSound :
    (lower : Text → Text) (db : Db) (new row : WorkSchedule) (db' : Db)
    → IsSound lower db
    → create_schedule lower db new ≡ ok (row, db')
    → IsSound lower db'
unfolding create_schedule schedule_fits
create_schedule-IsSound lower db new row db' s h =
    >>=-elim (refuse_if (not (schedule_fits new)) _) _ h λ u1 e1 h1.
      >>=-elim (refuse_if (any (has_schedule_name lower new.name) db.work_schedules) _) _ h1
        λ u2 e2 h2.
          let free = any-All-false _ db.work_schedules (refuse_if-eq_ok _ _ e2) in
          let built : WorkSchedule = record new { id = db.next_schedule_id; deleted = false } in
          let fits : Fits built = ground (arith, refuse_if-eq_ok _ _ e1) in
          subst (IsSound lower) (ok_db _ _ h2) (record {
            holidays = s.holidays;
            locations = s.locations;
            slots = s.slots;
            schedules = record {
              ids =
                  IsTable-snoc (λ (x : WorkSchedule). x.id) db.next_schedule_id db.work_schedules
                    built refl s.schedules.ids;
              names = Pairs-snoc (OtherSchedule lower) db.work_schedules built s.schedules.names (
                  All-map (λ a. has_schedule_name lower new.name a ≡ false)
                    (λ a. OtherSchedule lower a built) (λ a f live _. ground arith) _ free);
              fit = All-append Fits db.work_schedules (built ∷ []) s.schedules.fit (fits, tt);
            };
          })

pub replace_schedule-IsSound :
    (lower : Text → Text) (db : Db) (next row : WorkSchedule) (db' : Db)
    → IsSound lower db
    → replace_schedule lower db next ≡ ok (row, db')
    → IsSound lower db'
unfolding replace_schedule schedule_fits
replace_schedule-IsSound lower db next row db' s h =
    >>=-elim (find_schedule db next.id) _ h λ held e0 h0.
      >>=-elim (refuse_if (not (schedule_fits next)) _) _ h0 λ u1 e1 h1.
        >>=-elim
          (refuse_if
            (any (λ x. not (x.id == next.id) && has_schedule_name lower next.name x)
              db.work_schedules)
            _)
          _ h1
          λ u2 e2 h2.
            let free = any-All-false _ db.work_schedules (refuse_if-eq_ok _ _ e2) in
            let built : WorkSchedule = record next { deleted = false } in
            let fits : Fits built = ground (arith, refuse_if-eq_ok _ _ e1) in
            subst (IsSound lower) (ok_db _ _ h2) (record {
              holidays = s.holidays;
              locations = s.locations;
              slots = s.slots;
              schedules = record {
                ids =
                    IsTable-rewrite (λ (x : WorkSchedule). x.id) db.next_schedule_id
                      (is_schedule next.id) (λ _. built) db.work_schedules (λ a. ground arith)
                      s.schedules.ids;
                names =
                    Pairs-replace (is_schedule next.id) built (OtherSchedule lower)
                      db.work_schedules
                      (AtMostOne-of_key (λ (x : WorkSchedule). x.id) next.id (is_schedule next.id)
                        db.work_schedules (λ x p. ground arith) s.schedules.ids.keys)
                      (All-map
                        (λ a.
                          (not (a.id == next.id) && has_schedule_name lower next.name a) ≡ false)
                        (λ a.
                          is_schedule next.id a ≡ false
                          → OtherSchedule lower a built × OtherSchedule lower built a)
                        (λ a f o. (
                          λ live _. ground arith,
                          λ _ live. ground (arith, text_eq_comm (lower next.name) (lower a.name)),
                        ))
                        _ free)
                      s.schedules.names;
                fit =
                    All-rewrite (is_schedule next.id) (λ _. built) Fits Fits
                      (λ a p. elim (Bool-cases (is_schedule next.id a)) [
                        | inl t ↦ rw t fits
                        | inr o ↦ rw o p
                      ])
                      db.work_schedules s.schedules.fit;
              };
            })

pub delete_schedule-IsSound :
    (lower : Text → Text) (db : Db) (id : ℕ) (db' : Db)
    → IsSound lower db
    → delete_schedule db id ≡ ok db'
    → IsSound lower db'
unfolding delete_schedule schedule_fits
delete_schedule-IsSound lower db id db' s h = >>=-elim (find_schedule db id) _ h λ held e0 h0.
    let gone : WorkSchedule → WorkSchedule = λ x. record x { deleted = true } in
    subst (IsSound lower) (ok_is _ _ h0) (record {
      holidays = s.holidays;
      locations = s.locations;
      slots = s.slots;
      schedules = record {
        ids =
            IsTable-rewrite (λ (x : WorkSchedule). x.id) db.next_schedule_id (is_schedule id) gone
              db.work_schedules (λ a. ground arith) s.schedules.ids;
        names =
            Pairs-rewrite (is_schedule id) gone (OtherSchedule lower)
              (λ a b r la lb. ground (arith, r)) db.work_schedules s.schedules.names;
        fit =
            All-rewrite (is_schedule id) gone Fits Fits
              (λ a p. elim (Bool-cases (is_schedule id a)) [ inl t ↦ rw t p | inr o ↦ rw o p ])
              db.work_schedules s.schedules.fit;
      };
    })
