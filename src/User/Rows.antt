-- ===== src/User/Rows.antt =====
-- The users row of user/repository.go, which every module reads a part of, and the department.
use attendance_system.Prelude.{ℕ, Bool, Option}
use attendance_system.Text.{Text}
use attendance_system.Access.{Role}
use attendance_system.Time.{Date, Instant}

pub record User : Type 0 where
  pub id : ℕ
  pub email : Text
  pub password_hash : Text
  pub full_name : Text
  pub role : Role
  pub is_active : Bool
  pub join_date : Date
  pub department_id : Option ℕ
  pub manager_id : Option ℕ
  pub default_schedule_id : Option ℕ
  pub deleted_at : Option Instant

pub record Department : Type 0 where
  pub id : ℕ
  pub name : Text
  pub deleted : Bool
