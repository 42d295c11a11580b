-- ===== src/User/Store.antt =====
-- user/repository.go on the users and departments, with the constraints of
-- internal/db/migrations/00002 to 00004 that it translates. `lower` is the database's function.
use attendance_system.Prelude.{
  ℕ, zero, suc, ◌+◌, Bool, true, false, not, ◌&&◌, ◌||◌, Option, none, some, List, [], ◌∷◌, ◌++◌,
  ◌==◌, any, keep, find, rewrite, Error, not_found, invalid, failed, Result, ok, ◌>>=◌, ◌>>◌,
  refuse_if, or_error, ℤ, pos_part,
}
use attendance_system.Text.{Text, text_eq}
use attendance_system.Access.{Role, is_valid}
use attendance_system.Time.{Instant}
use attendance_system.User.Rows.{User, Department}
use attendance_system.User.Hierarchy.{is_live, holds, subtree}
use attendance_system.Db.{AuditLog, Db}
use attendance_system.Schedule.Store.{already_exists, is_schedule, write_audit}

abbrev pub is_user : ℕ → User → Bool
is_user id u = (u.id == id) && is_live u

-- `Exists`.
abbrev pub user_exists : Db → ℕ → Bool
user_exists db id = any (is_user id) db.users

-- `ByID`.
abbrev pub find_user : Db → ℕ → Result User
find_user db id = or_error (find (is_user id) db.users) not_found

-- LIMIT and OFFSET.
pub record Page : Type 0 where
  pub limit : ℤ
  pub offset : ℤ

unfoldable pub skip {ℓ} : {A : Type ℓ} → ℕ → List A → List A
skip zero xs = xs
skip (suc n) [] = []
skip (suc n) (x ∷ xs) = skip n xs

unfoldable pub take {ℓ} : {A : Type ℓ} → ℕ → List A → List A
take zero xs = []
take (suc n) [] = []
take (suc n) (x ∷ xs) = x ∷ take n xs

unfoldable pub window {ℓ} : {A : Type ℓ} → Page → List A → List A
unfolding skip take
window page rows = take (pos_part page.limit) (skip (pos_part page.offset) rows)

-- `List` and `ListSubtree`; `by_name` is the order "full_name, id" of the database's collation.
abbrev pub users_page : (List User → List User) → Db → Page → List User
users_page by_name db page = window page (by_name (keep is_live db.users))

abbrev pub subtree_page : (List User → List User) → Db → ℕ → Page → List User
subtree_page by_name db manager page =
    window page (by_name (keep (λ u. is_live u && holds (subtree db.users manager) u.id) db.users))

-- The foreign keys of a row: a department, a manager and a schedule that are kept, deleted or not.
abbrev pub refers_to : {A : Type 0} → (A → ℕ) → List A → Option ℕ → Bool
refers_to key rows none = true
refers_to key rows (some id) = any (λ r. key r == id) rows

unfoldable pub refers_to_rows : Db → User → Bool
refers_to_rows db u =
    refers_to (λ (d : Department). d.id) db.departments u.department_id
    && refers_to (λ (m : User). m.id) db.users u.manager_id
    && refers_to (λ s. s.id) db.work_schedules u.default_schedule_id

abbrev pub no_reference : Error
no_reference = invalid "department_id or manager_id does not exist"

-- users_live_email_key.
abbrev pub has_email : Text → User → Bool
has_email email u = is_live u && text_eq u.email email

unfoldable pub create_user : (Text → Text) → Db → User → Result (User × Db)
create_user lower db new = do
  refuse_if (not (text_eq new.email (lower new.email)) || not (is_valid new.role))
      (failed "check_violation")
  refuse_if (any (has_email new.email) db.users) already_exists
  refuse_if (not (refers_to_rows db new)) no_reference
  let row : User = record new { id = db.next_user_id; deleted_at = none }
  ok (row, record db { users = db.users ++ row ∷ []; next_user_id = db.next_user_id + 1 })

-- The columns that `Replace` writes.
abbrev pub with_details : User → User → User
with_details next u = record u {
  full_name = next.full_name;
  is_active = next.is_active;
  join_date = next.join_date;
  department_id = next.department_id;
  manager_id = next.manager_id;
  default_schedule_id = next.default_schedule_id;
}

unfoldable pub replace_user : Db → User → Option AuditLog → Result (User × Db)
replace_user db next audit = do
  held ← find_user db next.id
  refuse_if (not (refers_to_rows db next)) no_reference
  ok (
    with_details next held,
    write_audit audit
        (record db { users = rewrite (is_user next.id) (with_details next) db.users }),
  )

abbrev pub with_role : Role → User → User
with_role role u = record u { role = role }

unfoldable pub change_role : Db → ℕ → Role → AuditLog → Result (User × Db)
change_role db id role audit = do
  held ← find_user db id
  refuse_if (not (is_valid role)) (failed "check_violation")
  ok (
    with_role role held,
    write_audit (some audit) (record db { users = rewrite (is_user id) (with_role role) db.users }),
  )

-- A live user whose manager is that one.
abbrev pub is_report_of : ℕ → User → Bool
is_report_of id u = is_live u && elim u.manager_id [ none ↦ false | some m ↦ m == id ]

abbrev pub under_manager : Option ℕ → User → User
under_manager manager u = record u { manager_id = manager }

abbrev pub deleted_now : Instant → User → User
deleted_now now u = record u { deleted_at = some now }

-- The two UPDATEs of `SoftDelete`: whoever reported to the leaver reports to the leaver's manager.
unfoldable pub without_user : Instant → ℕ → Option ℕ → List User → List User
without_user now id manager users =
    rewrite (is_user id) (deleted_now now) (rewrite (is_report_of id) (under_manager manager) users)

unfoldable pub soft_delete : Instant → Db → ℕ → Option AuditLog → Result Db
unfolding without_user
soft_delete now db id audit = do
  leaver ← find_user db id
  ok (write_audit audit (record db { users = without_user now id leaver.manager_id db.users }))

abbrev pub is_department : ℕ → Department → Bool
is_department id d = (d.id == id) && not d.deleted

-- `DepartmentExists`.
abbrev pub department_exists : Db → ℕ → Bool
department_exists db id = any (is_department id) db.departments

-- `ScheduleExists`.
abbrev pub live_schedule_exists : Db → ℕ → Bool
live_schedule_exists db id = any (is_schedule id) db.work_schedules

abbrev pub find_department : Db → ℕ → Result Department
find_department db id = or_error (find (is_department id) db.departments) not_found

-- departments_live_name_key.
abbrev pub has_department_name : (Text → Text) → Text → Department → Bool
has_department_name lower name d = not d.deleted && text_eq (lower d.name) (lower name)

unfoldable pub create_department : (Text → Text) → Db → Text → Result (Department × Db)
create_department lower db name = do
  refuse_if (any (has_department_name lower name) db.departments) already_exists
  let row : Department = record { id = db.next_department_id; name = name; deleted = false }
  ok (
    row,
    record db {
      departments = db.departments ++ row ∷ [];
      next_department_id = db.next_department_id + 1;
    },
  )

unfoldable pub rename_department : (Text → Text) → Db → ℕ → Text → Result (Department × Db)
rename_department lower db id name = do
  held ← find_department db id
  refuse_if (any (λ d. not (d.id == id) && has_department_name lower name d) db.departments)
      already_exists
  ok (
    record held { name = name },
    record db {
      departments =
          rewrite (is_department id) (λ (d : Department). record d { name = name }) db.departments;
    },
  )

unfoldable pub delete_department : Db → ℕ → Result Db
delete_department db id = do
  held ← find_department db id
  ok (record db {
    departments =
        rewrite (is_department id) (λ (d : Department). record d { deleted = true }) db.departments;
  })
