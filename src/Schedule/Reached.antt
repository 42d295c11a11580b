-- ===== src/Schedule/Reached.antt =====
-- The database that the calls of schedule/service.go lead to.
use attendance_system.Prelude.{subst, ◌≡◌, List, map, ok, refuse_if, >>=-elim}
use attendance_system.Text.{Text}
use attendance_system.Access.{Role, Claims}
use attendance_system.Schedule.Rows.{ShiftAssignment}
use attendance_system.Db.{Db, ok_db}
use attendance_system.Schedule.Store.{schedule_in_use, find_holiday}
use attendance_system.Schedule.RosterStore.{find_assignment}
use attendance_system.Schedule.Planning.{
  Host, today, role_only, build_schedule, build_holiday, build_location, add_schedule,
  edit_schedule, retire_schedule, add_holiday, edit_holiday, remove_holiday, add_location,
  edit_location, retire_location,
}
use attendance_system.Schedule.Assigning.{Assignment, planned_row, assign, remove_assignment}
use attendance_system.Schedule.RosterMap.{assign-Assigned}
use attendance_system.Schedule.Steps.{Step, Reach}
use attendance_system.Schedule.Sound.{IsSound}
use attendance_system.Schedule.SoundSchedules.{
  create_schedule-IsSound, replace_schedule-IsSound, delete_schedule-IsSound,
}
use attendance_system.Schedule.SoundLocations.{
  create_location-IsSound, replace_location-IsSound, delete_location-IsSound,
}
use attendance_system.Schedule.SoundRoster.{
  create_holiday-IsSound, replace_holiday-IsSound, delete_holiday-IsSound,
  delete_assignment-IsSound, put_rows-IsSound,
}

assign-IsSound :
    (lower : Text → Text) (host : Host) (db : Db) (claims : Claims) (sent : List Assignment)
    (rows : List ShiftAssignment) (db' : Db)
    → IsSound lower db
    → assign host db claims sent ≡ ok (rows, db')
    → IsSound lower db'
assign-IsSound lower host db claims sent rows db' s h =
    let written = put_rows-IsSound lower (map planned_row sent) db s in
    subst (IsSound lower) (ok_db _ _ ((assign-Assigned host db claims sent rows db' h).wrote))
      (record {
        schedules = written.schedules;
        holidays = written.holidays;
        locations = written.locations;
        slots = written.slots;
      })

pub Step-IsSound :
    (lower : Text → Text) (db db' : Db) → Step lower db db' → IsSound lower db → IsSound lower db'
unfolding add_schedule edit_schedule retire_schedule add_holiday edit_holiday remove_holiday
    add_location edit_location retire_location remove_assignment
Step-IsSound lower db db' (Step.schedule_added now zone claims hours row h) s =
    >>=-elim (build_schedule claims hours) _ h
      λ built e k. create_schedule-IsSound lower db built row db' s k
Step-IsSound lower db db' (Step.schedule_replaced now zone claims id hours row h) s =
    >>=-elim (build_schedule claims hours) _ h
      λ built e k. replace_schedule-IsSound lower db (record built { id = id }) row db' s k
Step-IsSound lower db db' (Step.schedule_retired host claims id h) s =
    >>=-elim (role_only Role.hr_admin claims) _ h λ u1 e1 h1.
      >>=-elim (refuse_if (schedule_in_use db id (today host)) _) _ h1
        λ u2 e2 h2. delete_schedule-IsSound lower db id db' s h2
Step-IsSound lower db db' (Step.holiday_added host claims date name row h) s =
    >>=-elim (build_holiday claims date name) _ h
      λ built e k. create_holiday-IsSound lower db built row _ db' s k
Step-IsSound lower db db' (Step.holiday_replaced host claims id date name row h) s =
    >>=-elim (build_holiday claims date name) _ h λ built e k.
      >>=-elim (find_holiday db id) _ k
        λ before e1 h1. replace_holiday-IsSound lower db (record built { id = id }) row _ db' s h1
Step-IsSound lower db db' (Step.holiday_removed host claims id h) s =
    >>=-elim (role_only Role.hr_admin claims) _ h λ u1 e1 h1.
      >>=-elim (find_holiday db id) _ h1
        λ before e2 h2. delete_holiday-IsSound lower db id _ db' s h2
Step-IsSound lower db db' (Step.location_added now zone claims place row h) s =
    >>=-elim (build_location claims place) _ h
      λ built e k. create_location-IsSound lower db built row db' s k
Step-IsSound lower db db' (Step.location_replaced now zone claims id place row h) s =
    >>=-elim (build_location claims place) _ h
      λ built e k. replace_location-IsSound lower db (record built { id = id }) row db' s k
Step-IsSound lower db db' (Step.location_retired claims id h) s =
    >>=-elim (role_only Role.hr_admin claims) _ h
      λ u1 e1 h1. delete_location-IsSound lower db id db' s h1
Step-IsSound lower db db' (Step.assigned host claims sent rows h) s =
    assign-IsSound lower host db claims sent rows db' s h
Step-IsSound lower db db' (Step.assignment_removed host claims id h) s =
    >>=-elim (role_only Role.hr_admin claims) _ h λ u1 e1 h1.
      >>=-elim (find_assignment db id) _ h1
        λ before e2 h2. delete_assignment-IsSound lower db id _ db' s h2

-- Whatever calls of the planning service succeed, in any order, the roster keeps one row at most for
-- each person and date, the calendar one holiday for each date, live schedules and live offices
-- keep names that differ but for the case, and every column stays in its range, if all that was so
-- before and every call lowers names the same way.
pub Reach-schedule_IsSound :
    (lower : Text → Text) (db db' : Db) → IsSound lower db → Reach lower db db' → IsSound lower db'
Reach-schedule_IsSound lower db db' s Reach.here = s
Reach-schedule_IsSound lower db db' s (Reach.next {mid = mid} r k) =
    Step-IsSound lower mid db' k (Reach-schedule_IsSound lower db mid s r)
