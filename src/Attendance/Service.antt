-- ===== src/Attendance/Service.antt =====
-- attendance/service.go: checking in and out. What the service takes from outside is a `Host`: the
-- moment that `now` gives, the company's zone, whether the geofence is enforced, the distance of two
-- points, and the object store's check of an uploaded photo.
use attendance_system.Prelude.{
  ℕ, ◌+◌, ◌-◌, ◌*◌, Bool, true, false, not, ◌&&◌, Option, none, some, List, ltb, keep, not_found,
  invalid, Result, ok, ◌>>=◌, ◌>>◌, refuse_if, or_error, pos,
}
use attendance_system.Text.{Text}
use attendance_system.Access.{Claims}
use attendance_system.Time.{Instant, hour, date_only, midnight, Zone}
use attendance_system.User.Hierarchy.{reach}
use attendance_system.Schedule.Rows.{WorkSchedule, OfficeLocation}
use attendance_system.Schedule.Validation.{Span, check_range}
use attendance_system.Schedule.Roster.{lookup, plan_days}
use attendance_system.Attendance.Shift.{
  Shift, place, pick_shift, schedule_id_of, late_minutes, early_leave_minutes,
}
use attendance_system.Attendance.Geofence.{Distance, locate}
use attendance_system.Attendance.Validation.{Mark, check_mark, check_report}
use attendance_system.Db.{Db}
use attendance_system.Attendance.Rows.{Evidence, no_evidence, Attendance}
use attendance_system.Attendance.Store.{
  create, photo_key_used, open_check_in, store_check_out, list_by_user, attendance_by_id,
  save_report,
}

pub record Host : Type 0 where
  pub now : Instant
  pub zone : Zone
  pub enforce : Bool
  pub distance : Distance
  pub verify : ℕ → Text → Result Text

abbrev pub max_open_check_in : ℕ
max_open_check_in = 24 * hour

abbrev pub check_out_closes_after : ℕ
check_out_closes_after = 8 * hour

-- `ListLocations`: the offices that are not retired.
abbrev pub live_locations : Db → List OfficeLocation
live_locations db = keep (λ (o : OfficeLocation). not o.deleted) db.office_locations

-- `evidence`: the mark placed against the offices, with a photo that is new and vouched for.
unfoldable pub evidence : Host → Db → ℕ → Mark → Result Evidence
unfolding locate photo_key_used
evidence host db user mark = do
  let placed = locate host.distance (live_locations db) mark.lat mark.lng
  refuse_if (host.enforce && not (placed.1))
      (invalid "the location is outside every office's geofence")
  refuse_if (photo_key_used db mark.photo_key) (invalid "photo_key has already been used")
  _ ← host.verify user mark.photo_key
  ok (record {
    lat = some mark.lat;
    lng = some mark.lng;
    accuracy = some mark.accuracy;
    photo_key = some mark.photo_key;
    location_id = placed.0;
    within_geofence = some (placed.1);
    mock_location = some mark.mock_location;
  })

-- Yesterday, today and tomorrow.
abbrev pub three_day_span : Host → Span
three_day_span host =
    let today = host.zone.date_in host.now in
    record { from = midnight (today - 1); to = midnight (today + 1) }

-- The row that a check-in opens.
abbrev pub opened : Host → ℕ → Shift → Evidence → Attendance
opened host user picked proof = record {
  id = 0;
  user_id = user;
  work_date = picked.date;
  schedule_id = schedule_id_of picked;
  check_in_at = host.now;
  check_out_at = none;
  check_in = proof;
  check_out = no_evidence;
  late_minutes = late_minutes picked host.now;
  early_leave_minutes = pos 0;
  daily_report = none;
  daily_report_updated_at = none;
}

-- `Service.CheckIn`.
unfoldable pub check_in : Host → Db → ℕ → Mark → Result (Attendance × Db)
check_in host db user mark = do
  check_mark mark
  plan ← plan_days db user (three_day_span host)
  picked ← pick_shift host.now host.zone plan
  proof ← evidence host db user mark
  create db (opened host user picked proof)

-- `scheduleOf`: a foreign key keeps the schedule there.
abbrev pub schedule_of : Db → Option ℕ → Option WorkSchedule
schedule_of db id = lookup db id

-- `errNoOpenCheckIn` for a check-in whose shift ended more than eight hours ago.
abbrev pub check_closable : Instant → Shift → Result (Unit {0})
check_closable at s = elim s.hours [
  | none ↦ ok tt
  | some _ ↦
      refuse_if (ltb (s.end + check_out_closes_after) at)
        (invalid "there is no open check-in recent enough to close; request a correction")
]

abbrev pub closed : Host → Shift → Evidence → Attendance → Attendance
closed host measured proof row = record row {
  check_out_at = some host.now;
  check_out = proof;
  early_leave_minutes = early_leave_minutes measured host.now;
}

-- `Service.CheckOut`.
unfoldable pub check_out : Host → Db → ℕ → Mark → Result (Attendance × Db)
check_out host db user mark = do
  check_mark mark
  row ← open_check_in db user (host.now - max_open_check_in)
  let measured = place row.work_date (schedule_of db row.schedule_id) host.zone
  check_closable host.now measured
  proof ← evidence host db user mark
  db' ← store_check_out db (closed host measured proof row)
  ok (closed host measured proof row, db')

-- `Service.Mine`.
unfoldable pub mine : Db → ℕ → Span → Result (List Attendance)
mine db user span = check_range span >>= λ r. ok (list_by_user db user r)

-- `Service.SaveDailyReport`.
unfoldable pub save_daily_report : Host → Db → ℕ → Instant → Text → Result (Attendance × Db)
save_daily_report host db user work_date content = check_report work_date content >>= λ trimmed.
    save_report db user (date_only work_date) trimmed host.now

-- The two sides, and any other text.
pub data Side : Type 0 where
  side_in side_out other_side : Side

abbrev photo_of : Side → Attendance → Option Text
photo_of Side.side_in row = row.check_in.photo_key
photo_of _ row = row.check_out.photo_key

abbrev is_side : Side → Bool
is_side Side.other_side = false
is_side _ = true

-- `Service.PhotoURL` up to the signature of the download: the key of the photo.
unfoldable pub photo_key_for : Db → Claims → ℕ → Side → Result Text
photo_key_for db claims id side = do
  refuse_if (not (is_side side)) (invalid "side must be %s or %s")
  row ← attendance_by_id db id
  reach db claims row.user_id
  or_error (photo_of side row) not_found
