-- ===== src/User/Steps.antt =====
-- The calls of user/service.go that write, as steps of the database.
use attendance_system.Prelude.{ℕ, ◌≡◌, ok}
use attendance_system.Text.{Text}
use attendance_system.Access.{Role, Claims}
use attendance_system.User.Rows.{User, Department}
use attendance_system.Db.{Db}
use attendance_system.User.Directory.{
  Office, NewUser, Details, add_user, edit_user, remove_user, grant_role, add_department,
  edit_department, retire_department,
}

-- The calls that write employees and departments.
pub data Step (db db' : Db) : Type 0 where
  added :
      (office : Office) (claims : Claims) (sent : NewUser) (row : User)
      → add_user office db claims sent ≡ ok (row, db')
      → Step db db'
  edited :
      (claims : Claims) (id : ℕ) (sent : Details) (row : User)
      → edit_user db claims id sent ≡ ok (row, db')
      → Step db db'
  removed :
      (office : Office) (claims : Claims) (id : ℕ)
      → remove_user office db claims id ≡ ok db'
      → Step db db'
  granted :
      (claims : Claims) (id : ℕ) (role : Role) (row : User)
      → grant_role db claims id role ≡ ok (row, db')
      → Step db db'
  department_added :
      (office : Office) (claims : Claims) (name : Text) (row : Department)
      → add_department office db claims name ≡ ok (row, db')
      → Step db db'
  department_renamed :
      (office : Office) (claims : Claims) (id : ℕ) (name : Text) (row : Department)
      → edit_department office db claims id name ≡ ok (row, db')
      → Step db db'
  department_retired :
      (claims : Claims) (id : ℕ) → retire_department db claims id ≡ ok db' → Step db db'

pub data Reach (db : Db) : Db → Type 0 where
  here : Reach db db
  next : {mid db' : Db} → Reach db mid → Step mid db' → Reach db db'
