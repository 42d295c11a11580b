-- ===== src/Schedule/Store.antt =====
-- The writes of schedule/repository.go to the schedules, holidays and locations, with the
-- constraints of internal/db/migrations/00004 that it translates. `lower` is the database's function
-- of that name, which its collation decides.
use attendance_system.Prelude.{
  ℕ, ◌+◌, Bool, true, false, not, ◌&&◌, ◌||◌, Option, none, some, [], ◌∷◌, ◌++◌, leb, ◌==◌, length,
  any, all, keep, find, rewrite, Error, not_found, conflict, invalid, Result, ok, ◌>>=◌, ◌>>◌,
  refuse_if, or_error, pos, negsuc, leb_ℤ,
}
use attendance_system.Text.{Text, text_eq}
use attendance_system.Time.{Date}
use attendance_system.User.Hierarchy.{is_live}
use attendance_system.Schedule.Rows.{WorkSchedule, Holiday, OfficeLocation}
use attendance_system.Db.{AuditLog, Db}

abbrev pub already_exists : Error
already_exists = conflict "already exists"

abbrev pub out_of_column : Error
out_of_column = invalid "a value is outside the range the column allows: %s"

-- The CHECKs of work_schedules.
abbrev pub is_weekday : ℕ → Bool
is_weekday d = leb 1 d && leb d 7

unfoldable pub schedule_fits : WorkSchedule → Bool
schedule_fits s =
    leb s.grace_minutes 240
    && leb s.break_minutes 480
    && leb 1 (length s.workdays)
    && leb (length s.workdays) 7
    && all is_weekday s.workdays

-- The row of an id that is not deleted.
abbrev pub is_schedule : ℕ → WorkSchedule → Bool
is_schedule id s = (s.id == id) && not s.deleted

abbrev pub find_schedule : Db → ℕ → Result WorkSchedule
find_schedule db id = or_error (find (is_schedule id) db.work_schedules) not_found

-- work_schedules_live_name_key.
abbrev pub has_schedule_name : (Text → Text) → Text → WorkSchedule → Bool
has_schedule_name lower name s = not s.deleted && text_eq (lower s.name) (lower name)

unfoldable pub create_schedule : (Text → Text) → Db → WorkSchedule → Result (WorkSchedule × Db)
create_schedule lower db new = do
  refuse_if (not (schedule_fits new)) out_of_column
  refuse_if (any (has_schedule_name lower new.name) db.work_schedules) already_exists
  let row : WorkSchedule = record new { id = db.next_schedule_id; deleted = false }
  ok (
    row,
    record db {
      work_schedules = db.work_schedules ++ row ∷ [];
      next_schedule_id = db.next_schedule_id + 1;
    },
  )

unfoldable pub replace_schedule : (Text → Text) → Db → WorkSchedule → Result (WorkSchedule × Db)
replace_schedule lower db next = do
  held ← find_schedule db next.id
  refuse_if (not (schedule_fits next)) out_of_column
  refuse_if
      (any (λ s. not (s.id == next.id) && has_schedule_name lower next.name s) db.work_schedules)
      already_exists
  let row : WorkSchedule = record next { deleted = false }
  ok (
    row,
    record db { work_schedules = rewrite (is_schedule next.id) (λ _. row) db.work_schedules },
  )

unfoldable pub delete_schedule : Db → ℕ → Result Db
delete_schedule db id = do
  held ← find_schedule db id
  ok (record db {
    work_schedules =
        rewrite (is_schedule id) (λ (s : WorkSchedule). record s { deleted = true })
          db.work_schedules;
  })

-- `ScheduleInUse`.
abbrev pub is_id : ℕ → Option ℕ → Bool
is_id id none = false
is_id id (some x) = x == id

unfoldable pub schedule_in_use : Db → ℕ → Date → Bool
schedule_in_use db id today =
    any (λ u. is_id id u.default_schedule_id && is_live u) db.users
    || any (λ a. is_id id a.schedule_id && leb today a.work_date) db.shift_assignments

abbrev pub write_audit : Option AuditLog → Db → Db
write_audit none db = db
write_audit (some entry) db = record db { audit_logs = db.audit_logs ++ entry ∷ [] }

abbrev pub find_holiday : Db → ℕ → Result Holiday
find_holiday db id = or_error (find (λ h. h.id == id) db.holidays) not_found

-- The entity id of the audit entry is the new row's.
abbrev pub with_entity_id : ℕ → Option AuditLog → Option AuditLog
with_entity_id id none = none
with_entity_id id (some entry) = some (record entry { entity_id = id })

unfoldable pub create_holiday : Db → Holiday → Option AuditLog → Result (Holiday × Db)
create_holiday db new audit = do
  refuse_if (any (λ h. h.date == new.date) db.holidays) already_exists
  let row : Holiday = record new { id = db.next_holiday_id }
  ok (
    row,
    write_audit (with_entity_id row.id audit) (record db {
      holidays = db.holidays ++ row ∷ [];
      next_holiday_id = db.next_holiday_id + 1;
    }),
  )

unfoldable pub replace_holiday : Db → Holiday → Option AuditLog → Result (Holiday × Db)
replace_holiday db next audit = do
  held ← find_holiday db next.id
  refuse_if (any (λ h. not (h.id == next.id) && (h.date == next.date)) db.holidays) already_exists
  ok (
    next,
    write_audit audit
        (record db { holidays = rewrite (λ h. h.id == next.id) (λ _. next) db.holidays }),
  )

unfoldable pub delete_holiday : Db → ℕ → Option AuditLog → Result Db
delete_holiday db id audit = do
  held ← find_holiday db id
  ok (write_audit audit (record db { holidays = keep (λ h. not (h.id == id)) db.holidays }))

-- The CHECKs of office_locations.
unfoldable pub location_fits : OfficeLocation → Bool
location_fits l =
    leb_ℤ (negsuc 89999999) l.lat
    && leb_ℤ l.lat (pos 90000000)
    && leb_ℤ (negsuc 179999999) l.lng
    && leb_ℤ l.lng (pos 180000000)
    && leb 10 l.radius_m
    && leb l.radius_m 10000

abbrev pub is_location : ℕ → OfficeLocation → Bool
is_location id l = (l.id == id) && not l.deleted

abbrev pub find_location : Db → ℕ → Result OfficeLocation
find_location db id = or_error (find (is_location id) db.office_locations) not_found

-- office_locations_live_name_key.
abbrev pub has_location_name : (Text → Text) → Text → OfficeLocation → Bool
has_location_name lower name l = not l.deleted && text_eq (lower l.name) (lower name)

unfoldable pub create_location : (Text → Text) → Db → OfficeLocation → Result (OfficeLocation × Db)
create_location lower db new = do
  refuse_if (not (location_fits new)) out_of_column
  refuse_if (any (has_location_name lower new.name) db.office_locations) already_exists
  let row : OfficeLocation = record new { id = db.next_location_id; deleted = false }
  ok (
    row,
    record db {
      office_locations = db.office_locations ++ row ∷ [];
      next_location_id = db.next_location_id + 1;
    },
  )

unfoldable pub replace_location : (Text → Text) → Db → OfficeLocation → Result (OfficeLocation × Db)
replace_location lower db next = do
  held ← find_location db next.id
  refuse_if (not (location_fits next)) out_of_column
  refuse_if
      (any (λ l. not (l.id == next.id) && has_location_name lower next.name l) db.office_locations)
      already_exists
  let row : OfficeLocation = record next { deleted = false }
  ok (
    row,
    record db { office_locations = rewrite (is_location next.id) (λ _. row) db.office_locations },
  )

unfoldable pub delete_location : Db → ℕ → Result Db
delete_location db id = do
  held ← find_location db id
  ok (record db {
    office_locations =
        rewrite (is_location id) (λ (l : OfficeLocation). record l { deleted = true })
          db.office_locations;
  })
