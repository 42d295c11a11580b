-- ===== src/Schedule/Steps.antt =====
-- The calls of schedule/service.go that write, as steps of the database. `lower` is the collation's.
use attendance_system.Prelude.{ℕ, ◌≡◌, List, ok}
use attendance_system.Text.{Text}
use attendance_system.Access.{Claims}
use attendance_system.Time.{Instant, Zone}
use attendance_system.Schedule.Rows.{WorkSchedule, ShiftAssignment, Holiday, OfficeLocation}
use attendance_system.Db.{Db}
use attendance_system.Schedule.Planning.{
  Host, Hours, Place, add_schedule, edit_schedule, retire_schedule, add_holiday, edit_holiday,
  remove_holiday, add_location, edit_location, retire_location,
}
use attendance_system.Schedule.Assigning.{Assignment, assign, remove_assignment}

module _ (lower : Text → Text) where
  pub data Step (db db' : Db) : Type 0 where
    schedule_added :
        (now : Instant) (zone : Zone) (claims : Claims) (hours : Hours) (row : WorkSchedule)
        → add_schedule (record { now = now; zone = zone; lower = lower }) db claims hours
          ≡ ok (row, db')
        → Step db db'
    schedule_replaced :
        (now : Instant) (zone : Zone) (claims : Claims) (id : ℕ) (hours : Hours)
        (row : WorkSchedule)
        → edit_schedule (record { now = now; zone = zone; lower = lower }) db claims id hours
          ≡ ok (row, db')
        → Step db db'
    schedule_retired :
        (host : Host) (claims : Claims) (id : ℕ)
        → retire_schedule host db claims id ≡ ok db'
        → Step db db'
    holiday_added :
        (host : Host) (claims : Claims) (date : Instant) (name : Text) (row : Holiday)
        → add_holiday host db claims date name ≡ ok (row, db')
        → Step db db'
    holiday_replaced :
        (host : Host) (claims : Claims) (id : ℕ) (date : Instant) (name : Text) (row : Holiday)
        → edit_holiday host db claims id date name ≡ ok (row, db')
        → Step db db'
    holiday_removed :
        (host : Host) (claims : Claims) (id : ℕ)
        → remove_holiday host db claims id ≡ ok db'
        → Step db db'
    location_added :
        (now : Instant) (zone : Zone) (claims : Claims) (place : Place) (row : OfficeLocation)
        → add_location (record { now = now; zone = zone; lower = lower }) db claims place
          ≡ ok (row, db')
        → Step db db'
    location_replaced :
        (now : Instant) (zone : Zone) (claims : Claims) (id : ℕ) (place : Place)
        (row : OfficeLocation)
        → edit_location (record { now = now; zone = zone; lower = lower }) db claims id place
          ≡ ok (row, db')
        → Step db db'
    location_retired :
        (claims : Claims) (id : ℕ) → retire_location db claims id ≡ ok db' → Step db db'
    assigned :
        (host : Host) (claims : Claims) (sent : List Assignment) (rows : List ShiftAssignment)
        → assign host db claims sent ≡ ok (rows, db')
        → Step db db'
    assignment_removed :
        (host : Host) (claims : Claims) (id : ℕ)
        → remove_assignment host db claims id ≡ ok db'
        → Step db db'

  pub data Reach (db : Db) : Db → Type 0 where
    here : Reach db db
    next : {mid db' : Db} → Reach db mid → Step mid db' → Reach db db'
