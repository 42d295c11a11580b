-- ===== src/Attendance/Cases.antt =====
-- The cases of the attendance tests: a phone at the gate, a correction, a check-out.
use attendance_system.Prelude.{
  ◌+◌, ◌-◌, ◌*◌, true, false, ◌&&◌, none, some, List, [], ◌∷◌, if◌then◌else◌, ok, pos, leb_ℤ,
}
use attendance_system.Access.{Role, Claims}
use attendance_system.Time.{Instant, Date, minute, hour, day_length}
use attendance_system.Schedule.Rows.{OfficeLocation}
use attendance_system.Schedule.Resolve.{Reason, Day}
use attendance_system.Attendance.Shift.{Shift}
use attendance_system.Attendance.Geofence.{Distance}
use attendance_system.Attendance.Service.{Host}
use attendance_system.Samples.{monday, office_hours, company, jakarta, half_past_nine}
use attendance_system.Db.{Db}
use attendance_system.Attendance.Validation.{Mark}
use attendance_system.Attendance.Rows.{no_evidence, Attendance, Status, Correction}

-- One degree is a kilometre on this test's globe.
abbrev pub far_apart : Distance
far_apart lat lng lat' lng' = if leb_ℤ lat lat' && leb_ℤ lat' lat then 0 else 1000000

abbrev pub head_office : OfficeLocation
head_office = record {
  id = 1;
  name = b'H' ∷ [];
  lat = pos 0;
  lng = pos 0;
  radius_m = 100;
  deleted = false;
}

abbrev pub with_office : Db
with_office = record company { office_locations = head_office ∷ [] }

abbrev pub phone : Mark
phone = record {
  photo_key = b'p' ∷ [];
  lat = pos 0;
  lng = pos 0;
  accuracy = pos 5000;
  mock_location = false;
}

abbrev pub gate : Host
gate = record {
  now = half_past_nine;
  zone = jakarta;
  enforce = true;
  distance = far_apart;
  verify = λ user key. ok key;
}

-- Half past nine is thirty minutes after the start, ten of them granted.
abbrev pub arrived : Attendance
arrived = record {
  id = 1;
  user_id = 1;
  work_date = monday;
  schedule_id = some 1;
  check_in_at = half_past_nine;
  check_out_at = none;
  check_in = record {
    lat = some (pos 0);
    lng = some (pos 0);
    accuracy = some (pos 5000);
    photo_key = some (b'p' ∷ []);
    location_id = some 1;
    within_geofence = some true;
    mock_location = some false;
  };
  check_out = no_evidence;
  late_minutes = pos 20;
  early_leave_minutes = pos 0;
  daily_report = none;
  daily_report_updated_at = none;
}

abbrev pub with_arrival : Db
with_arrival = record with_office { attendances = arrived ∷ []; next_attendance_id = 2 }

-- Nine to five on that Monday.
abbrev pub monday_shift : Shift
monday_shift = record {
  date = monday;
  hours = some office_hours;
  start = monday * day_length + 120 * minute;
  end = monday * day_length + 600 * minute;
}

abbrev pub worked : Date → Day
worked d = record {
  date = d;
  working = true;
  reason = Reason.by_default;
  schedule = some office_hours;
  holiday = [];
}

abbrev pub off : Date → Day
off d = record {
  date = d;
  working = false;
  reason = Reason.not_a_workday;
  schedule = none;
  holiday = [];
}

abbrev pub three_plan : List Day
three_plan = off (monday - 1) ∷ worked monday ∷ worked (monday + 1) ∷ []

-- The employee asks for nine o'clock, and the supervisor approves.
abbrev pub nine : Instant
nine = monday * day_length + 120 * minute

abbrev pub asked : Correction
asked = record {
  id = 1;
  user_id = 1;
  work_date = monday;
  requested_by = 1;
  proposed_check_in_at = some nine;
  proposed_check_out_at = none;
  old_check_in_at = none;
  old_check_out_at = none;
  reason = b'r' ∷ [];
  status = Status.pending;
  reviewed_by = none;
  reviewed_at = none;
  review_note = none;
}

abbrev pub with_ask : Db
with_ask = record with_arrival { corrections = asked ∷ []; next_correction_id = 2 }

abbrev pub boss : Claims
boss = record { user_id = 2; role = Role.supervisor }

abbrev pub granted : Correction
granted = record asked {
  old_check_in_at = some half_past_nine;
  status = Status.approved;
  reviewed_by = some 2;
  reviewed_at = some half_past_nine;
}

abbrev pub with_grant : Db
with_grant = record with_ask {
  attendances = record arrived { check_in_at = nine; late_minutes = pos 0 } ∷ [];
  corrections = granted ∷ [];
}

-- Later the next day's check-in leaves the decided correction alone.
abbrev pub next_day : Host
next_day = record gate { now = half_past_nine + day_length }

abbrev pub second_photo : Mark
second_photo = record phone { photo_key = b'q' ∷ [] }

abbrev pub arrived_again : Attendance
arrived_again = record arrived {
  id = 2;
  work_date = monday + 1;
  check_in_at = half_past_nine + day_length;
  check_in = record arrived.check_in { photo_key = some (b'q' ∷ []) };
}

abbrev pub with_second : Db
with_second = record with_grant {
  attendances = record arrived { check_in_at = nine; late_minutes = pos 0 } ∷ arrived_again ∷ [];
  next_attendance_id = 3;
}

-- At half past four the employee leaves, thirty minutes before the end.
abbrev pub half_past_four : Host
half_past_four = record gate { now = half_past_nine + 7 * hour }

abbrev pub left : Attendance
left = record arrived {
  check_out_at = some (half_past_nine + 7 * hour);
  check_out = record arrived.check_in { photo_key = some (b'q' ∷ []) };
  early_leave_minutes = pos 30;
}

abbrev pub with_leaving : Db
with_leaving = record with_arrival { attendances = left ∷ [] }
