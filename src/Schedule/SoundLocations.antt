-- ===== src/Schedule/SoundLocations.antt =====
-- The writes of schedule/repository.go to the offices keep the constraints of the database.
use attendance_system.Prelude.{
  subst, ℕ, ◌≡◌, refl, inl, inr, true, false, not, ◌&&◌, [], ◌∷◌, arith, ◌==◌, Bool-cases, any,
  All-append, Pairs-snoc, All-map, All-rewrite, Pairs-rewrite, AtMostOne-of_key, any-All-false,
  Pairs-replace, IsTable-snoc, IsTable-rewrite, ok, refuse_if, >>=-elim, refuse_if-eq_ok,
}
use attendance_system.Text.{Text, text_eq_comm}
use attendance_system.Schedule.Rows.{OfficeLocation}
use attendance_system.Db.{Db, ok_is, ok_db}
use attendance_system.Schedule.Store.{
  location_fits, is_location, find_location, has_location_name, create_location, replace_location,
  delete_location,
}
use attendance_system.Schedule.Sound.{OtherLocation, OnMap, IsSound}

pub create_location-IsSound :
    (lower : Text → Text) (db : Db) (new row : OfficeLocation) (db' : Db)
    → IsSound lower db
    → create_location lower db new ≡ ok (row, db')
    → IsSound lower db'
unfolding create_location location_fits
create_location-IsSound lower db new row db' s h =
    >>=-elim (refuse_if (not (location_fits new)) _) _ h λ u1 e1 h1.
      >>=-elim (refuse_if (any (has_location_name lower new.name) db.office_locations) _) _ h1
        λ u2 e2 h2.
          let free = any-All-false _ db.office_locations (refuse_if-eq_ok _ _ e2) in
          let built : OfficeLocation = record new { id = db.next_location_id; deleted = false } in
          let fits : OnMap built = ground (arith, refuse_if-eq_ok _ _ e1) in
          subst (IsSound lower) (ok_db _ _ h2) (record {
            schedules = s.schedules;
            holidays = s.holidays;
            slots = s.slots;
            locations = record {
              ids =
                  IsTable-snoc (λ (x : OfficeLocation). x.id) db.next_location_id
                    db.office_locations built refl s.locations.ids;
              names = Pairs-snoc (OtherLocation lower) db.office_locations built s.locations.names (
                  All-map (λ a. has_location_name lower new.name a ≡ false)
                    (λ a. OtherLocation lower a built) (λ a f live _. ground arith) _ free);
              fit = All-append OnMap db.office_locations (built ∷ []) s.locations.fit (fits, tt);
            };
          })

pub replace_location-IsSound :
    (lower : Text → Text) (db : Db) (next row : OfficeLocation) (db' : Db)
    → IsSound lower db
    → replace_location lower db next ≡ ok (row, db')
    → IsSound lower db'
unfolding replace_location location_fits
replace_location-IsSound lower db next row db' s h =
    >>=-elim (find_location db next.id) _ h λ held e0 h0.
      >>=-elim (refuse_if (not (location_fits next)) _) _ h0 λ u1 e1 h1.
        >>=-elim
          (refuse_if
            (any (λ x. not (x.id == next.id) && has_location_name lower next.name x)
              db.office_locations)
            _)
          _ h1
          λ u2 e2 h2.
            let free = any-All-false _ db.office_locations (refuse_if-eq_ok _ _ e2) in
            let built : OfficeLocation = record next { deleted = false } in
            let fits : OnMap built = ground (arith, refuse_if-eq_ok _ _ e1) in
            subst (IsSound lower) (ok_db _ _ h2) (record {
              schedules = s.schedules;
              holidays = s.holidays;
              slots = s.slots;
              locations = record {
                ids =
                    IsTable-rewrite (λ (x : OfficeLocation). x.id) db.next_location_id
                      (is_location next.id) (λ _. built) db.office_locations (λ a. ground arith)
                      s.locations.ids;
                names =
                    Pairs-replace (is_location next.id) built (OtherLocation lower)
                      db.office_locations
                      (AtMostOne-of_key (λ (x : OfficeLocation). x.id) next.id (is_location next.id)
                        db.office_locations (λ x p. ground arith) s.locations.ids.keys)
                      (All-map
                        (λ a.
                          (not (a.id == next.id) && has_location_name lower next.name a) ≡ false)
                        (λ a.
                          is_location next.id a ≡ false
                          → OtherLocation lower a built × OtherLocation lower built a)
                        (λ a f o. (
                          λ live _. ground arith,
                          λ _ live. ground (arith, text_eq_comm (lower next.name) (lower a.name)),
                        ))
                        _ free)
                      s.locations.names;
                fit =
                    All-rewrite (is_location next.id) (λ _. built) OnMap OnMap
                      (λ a p. elim (Bool-cases (is_location next.id a)) [
                        | inl t ↦ rw t fits
                        | inr o ↦ rw o p
                      ])
                      db.office_locations s.locations.fit;
              };
            })

pub delete_location-IsSound :
    (lower : Text → Text) (db : Db) (id : ℕ) (db' : Db)
    → IsSound lower db
    → delete_location db id ≡ ok db'
    → IsSound lower db'
unfolding delete_location location_fits
delete_location-IsSound lower db id db' s h = >>=-elim (find_location db id) _ h λ held e0 h0.
    let gone : OfficeLocation → OfficeLocation = λ x. record x { deleted = true } in
    subst (IsSound lower) (ok_is _ _ h0) (record {
      schedules = s.schedules;
      holidays = s.holidays;
      slots = s.slots;
      locations = record {
        ids =
            IsTable-rewrite (λ (x : OfficeLocation). x.id) db.next_location_id (is_location id) gone
              db.office_locations (λ a. ground arith) s.locations.ids;
        names =
            Pairs-rewrite (is_location id) gone (OtherLocation lower)
              (λ a b r la lb. ground (arith, r)) db.office_locations s.locations.names;
        fit =
            All-rewrite (is_location id) gone OnMap OnMap
              (λ a p. elim (Bool-cases (is_location id a)) [ inl t ↦ rw t p | inr o ↦ rw o p ])
              db.office_locations s.locations.fit;
      };
    })
