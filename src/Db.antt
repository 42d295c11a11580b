-- ===== src/Db.antt =====
-- The PostgreSQL database of internal/db/migrations: one list of rows for each table, in the order
-- of insertion, with the next value of each identity column. A statement that fails leaves it as it
-- was, as does a transaction. Failures of the connection are left out.
use attendance_system.Prelude.{ℕ, Option, List, String, ℤ, Bool, ◌≡◌, ok, arith}
use attendance_system.Text.{Text}
use attendance_system.Access.{Role}
use attendance_system.Time.{Date}
use attendance_system.User.Rows.{User, Department}
use attendance_system.Auth.Rows.{RefreshToken}
use attendance_system.Schedule.Rows.{WorkSchedule, ShiftAssignment, Holiday, OfficeLocation}
use attendance_system.Attendance.Rows.{Attendance, Correction}
use attendance_system.Leave.Rows.{LeaveType, Quota, Leave}

-- The JSON documents of audit_logs, by their shape.
pub data Payload : Type 0 where
  null : Payload
  type_quota : Option ℤ → Payload
  quota : ℕ → ℕ → ℤ → ℤ → Payload
  holiday : Date → Text → Payload
  assignment : Date → Option ℕ → Payload
  is_active deleted : Bool → Payload
  role : Role → Payload

pub record AuditLog : Type 0 where
  pub actor_id : ℕ
  pub action : String
  pub entity_type : String
  pub entity_id : ℕ
  pub before : Payload
  pub after : Payload

pub record Db : Type 0 where
  pub users : List User
  pub departments : List Department
  pub refresh_tokens : List RefreshToken
  pub work_schedules : List WorkSchedule
  pub shift_assignments : List ShiftAssignment
  pub holidays : List Holiday
  pub office_locations : List OfficeLocation
  pub attendances : List Attendance
  pub corrections : List Correction
  pub leave_types : List LeaveType
  pub leave_balances : List Quota
  pub leave_requests : List Leave
  pub audit_logs : List AuditLog
  pub next_attendance_id : ℕ
  pub next_correction_id : ℕ
  pub next_leave_type_id : ℕ
  pub next_leave_id : ℕ
  pub next_user_id : ℕ
  pub next_department_id : ℕ
  pub next_schedule_id : ℕ
  pub next_assignment_id : ℕ
  pub next_holiday_id : ℕ
  pub next_location_id : ℕ

-- Two answers that are the same leave the same database.
pub ok_is : (x y : Db) → ok x ≡ ok y → x ≡ y
ok_is x y h = ground arith

pub ok_db {ℓ} : {A : Type ℓ} (x y : A × Db) → ok x ≡ ok y → x.1 ≡ y.1
ok_db x y h = ground arith
