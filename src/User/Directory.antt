-- ===== src/User/Directory.antt =====
-- user/service.go: the employees and departments, and who may read and write them.
use attendance_system.Prelude.{
  ℕ, String, Bool, true, false, not, ◌&&◌, Option, none, some, List, ◌==◌, if◌then◌else◌, keep,
  invalid, Result, ok, ◌>>=◌, ◌>>◌, refuse_if, or_error,
}
use attendance_system.Text.{Text}
use attendance_system.Access.{Role, role_rank, at_least, Claims}
use attendance_system.Time.{Instant, Date, date_only, Zone}
use attendance_system.User.Rows.{User, Department}
use attendance_system.User.Hierarchy.{in_subtree, reach}
use attendance_system.Db.{Payload, AuditLog, Db}
use attendance_system.User.Store.{
  user_exists, find_user, Page, users_page, subtree_page, create_user, replace_user, change_role,
  soft_delete, department_exists, live_schedule_exists, create_department, rename_department,
  delete_department,
}
use attendance_system.User.Validation.{
  check_name, check_new_user, check_role, check_manager, check_page,
}
use attendance_system.Schedule.Planning.{role_only, audit_row, audit_if}

-- What a service call reads besides the database. `hash` is bcrypt, which fails on a password that
-- is too long; `lower` is the database's function and `to_lower` Go's.
pub record Office : Type 0 where
  pub now : Instant
  pub zone : Zone
  pub lower : Text → Text
  pub to_lower : Text → Text
  pub hash : Text → Option Text

pub record NewUser : Type 0 where
  pub email : Text
  pub password : Text
  pub full_name : Text
  pub join_date : Instant
  pub department_id : Option ℕ
  pub manager_id : Option ℕ
  pub default_schedule_id : Option ℕ

pub record Details : Type 0 where
  pub full_name : Text
  pub is_active : Bool
  pub join_date : Instant
  pub department_id : Option ℕ
  pub manager_id : Option ℕ
  pub default_schedule_id : Option ℕ

-- `Service.Me`.
unfoldable pub me : Db → Claims → Result User
me db claims = find_user db claims.user_id

-- `Service.List`.
unfoldable pub list_users : (List User → List User) → Db → Claims → Page → Result (List User)
list_users by_name db claims sent = do
  role_only Role.supervisor claims
  page ← check_page sent
  if at_least claims.role Role.hr_admin
      then ok (users_page by_name db page)
      else ok (subtree_page by_name db claims.user_id page)

-- `Service.Get`.
unfoldable pub get_user : Db → Claims → ℕ → Result User
get_user db claims id = do reach db claims id; find_user db id

unfoldable pub check_department : Db → Option ℕ → Result (Unit {0})
check_department db none = ok tt
check_department db (some id) =
    refuse_if (not (department_exists db id)) (invalid "department_id %d does not exist")

-- `checkSchedule`.
unfoldable pub check_default_schedule : Db → Option ℕ → Result (Unit {0})
check_default_schedule db none = ok tt
check_default_schedule db (some id) =
    refuse_if (not (live_schedule_exists db id)) (invalid "default_schedule_id %d does not exist")

unfoldable pub check_manager_for : Db → ℕ → Option ℕ → Result (Unit {0})
check_manager_for db id none = ok tt
check_manager_for db id (some m) = do
  check_manager id (some m)
  refuse_if (not (user_exists db m)) (invalid "manager_id %d does not exist")
  refuse_if (in_subtree db id m)
      (invalid "that manager reports to this user, which would make the hierarchy a loop")

-- A missing date is the zero time.
abbrev pub join_date_or : Instant → Date → Date
join_date_or sent other = if sent == 0 then other else date_only sent

abbrev pub check_full_name : Text → Result Text
check_full_name name =
    check_name "full_name is required" "full_name must be at most 100 characters" name

-- `Service.Create`.
unfoldable pub add_user : Office → Db → Claims → NewUser → Result (User × Db)
add_user office db claims next = do
  role_only Role.hr_admin claims
  email ← check_new_user office.to_lower next.email next.password
  full_name ← check_full_name next.full_name
  check_department db next.department_id
  check_manager_for db 0 next.manager_id
  check_default_schedule db next.default_schedule_id
  hash ← or_error (office.hash next.password) (invalid "password: %v")
  create_user office.lower db (record {
    id = 0;
    email = email;
    password_hash = hash;
    full_name = full_name;
    role = Role.employee;
    is_active = true;
    join_date = join_date_or next.join_date (office.zone.date_in office.now);
    department_id = next.department_id;
    manager_id = next.manager_id;
    default_schedule_id = next.default_schedule_id;
    deleted_at = none;
  })

abbrev pub user_audit : Claims → String → ℕ → Payload → Payload → AuditLog
user_audit claims action id before after = audit_row claims action "user" id before after

-- The row that `Replace` writes.
abbrev pub edited_row : User → ℕ → Text → Details → User
edited_row before id full_name details = record before {
  id = id;
  full_name = full_name;
  is_active = details.is_active;
  join_date = join_date_or details.join_date before.join_date;
  department_id = details.department_id;
  manager_id = details.manager_id;
  default_schedule_id = details.default_schedule_id;
}

-- `Service.Replace`.
unfoldable pub edit_user : Db → Claims → ℕ → Details → Result (User × Db)
edit_user db claims id details = do
  role_only Role.hr_admin claims
  full_name ← check_full_name details.full_name
  refuse_if ((id == claims.user_id) && not details.is_active)
      (invalid "an admin cannot deactivate their own account")
  before ← find_user db id
  role_only before.role claims
  check_manager_for db id details.manager_id
  check_department db details.department_id
  check_default_schedule db details.default_schedule_id
  replace_user db (edited_row before id full_name details) (
      audit_if (before.is_active && not details.is_active) (
        user_audit claims "user.deactivated" id (Payload.is_active true) (Payload.is_active false)))

-- `Service.Delete`.
unfoldable pub remove_user : Office → Db → Claims → ℕ → Result Db
remove_user office db claims id = do
  role_only Role.hr_admin claims
  refuse_if (id == claims.user_id) (invalid "an admin cannot delete their own account")
  target ← find_user db id
  role_only target.role claims
  soft_delete office.now db id
      (some (user_audit claims "user.deleted" id (Payload.deleted false) (Payload.deleted true)))

abbrev pub same_role : Role → Role → Bool
same_role r s = role_rank r == role_rank s

-- `Service.ChangeRole`; a role that is held already is not written.
unfoldable pub grant_role : Db → Claims → ℕ → Role → Result (User × Db)
grant_role db claims id role = do
  role_only Role.super_admin claims
  check_role role
  refuse_if (id == claims.user_id) (invalid "a super_admin cannot change their own role")
  before ← find_user db id
  let changed =
      change_role db id role
        (user_audit claims "user.role_changed" id (Payload.role before.role) (Payload.role role))
  if same_role before.role role then ok (before, db) else changed

-- `Service.ListDepartments`; `by_name` is the order of the database's collation.
unfoldable pub list_departments :
    (List Department → List Department) → Db → Claims → Result (List Department)
list_departments by_name db claims = do
  role_only Role.supervisor claims
  ok (by_name (keep (λ d. not d.deleted) db.departments))

abbrev pub department_name : Text → Result Text
department_name name = check_name "name is required" "name must be at most 100 characters" name

-- `Service.CreateDepartment`.
unfoldable pub add_department : Office → Db → Claims → Text → Result (Department × Db)
add_department office db claims sent = do
  role_only Role.hr_admin claims
  name ← department_name sent
  create_department office.lower db name

-- `Service.RenameDepartment`.
unfoldable pub edit_department : Office → Db → Claims → ℕ → Text → Result (Department × Db)
edit_department office db claims id sent = do
  role_only Role.hr_admin claims
  name ← department_name sent
  rename_department office.lower db id name

-- `Service.DeleteDepartment`.
unfoldable pub retire_department : Db → Claims → ℕ → Result Db
retire_department db claims id = do role_only Role.hr_admin claims; delete_department db id
