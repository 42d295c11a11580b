-- ===== src/User/Orderly.antt =====
-- The calls of user/service.go keep the hierarchy a tree, and a leaver's people in reach.
use attendance_system.Prelude.{
  subst, ℕ, ◌≡◌, refl, sym, inl, inr, false, not, ◌&&◌, ◌||◌, Option, none, some, arith, ◌==◌,
  Bool-cases, any, find, invalid, ok, refuse_if, or_error, >>=-elim, refuse_if-eq_ok,
}
use attendance_system.Text.{Text, text_eq}
use attendance_system.Access.{Role, is_valid}
use attendance_system.Time.{Instant}
use attendance_system.User.Rows.{User}
use attendance_system.User.Hierarchy.{in_subtree}
use attendance_system.User.Below.{Below, in_subtree-Below}
use attendance_system.Db.{AuditLog, Db, ok_is, ok_db}
use attendance_system.Schedule.Store.{write_audit}
use attendance_system.Schedule.Planning.{role_only}
use attendance_system.User.Store.{
  is_user, user_exists, find_user, refers_to_rows, has_email, create_user, replace_user,
  change_role, without_user, soft_delete, find_department, has_department_name, create_department,
  rename_department, delete_department,
}
use attendance_system.User.Validation.{check_new_user, check_role, check_manager}
use attendance_system.User.Directory.{
  check_department, check_default_schedule, check_manager_for, check_full_name, add_user, edit_user,
  remove_user, same_role, grant_role, department_name, add_department, edit_department,
  retire_department,
}
use attendance_system.User.Moves.{AtOrBelow}
use attendance_system.User.Steps.{Step, Reach}
use attendance_system.User.Tree.{IsTree, added-IsTree, edited-IsTree, left-IsTree, role-IsTree}

-- The hierarchy of a database.
abbrev pub Tree : Db → Type 0
Tree db = IsTree db.next_user_id db.users

audited : (entry : Option AuditLog) (db : Db) → Tree db → Tree (write_audit entry db)
audited none db t = t
audited (some e) db t = t

create_user-Tree :
    (lower : Text → Text) (db : Db) (new row : User) (db' : Db)
    → Tree db
    → create_user lower db new ≡ ok (row, db')
    → Tree db'
unfolding create_user refers_to_rows
create_user-Tree lower db new row db' t h =
    >>=-elim (refuse_if (not (text_eq new.email (lower new.email)) || not (is_valid new.role)) _) _
      h
      λ u1 e1 h1. >>=-elim (refuse_if (any (has_email new.email) db.users) _) _ h1 λ u2 e2 h2.
        >>=-elim (refuse_if (not (refers_to_rows db new)) _) _ h2 λ u3 e3 h3.
          subst Tree (ok_db _ _ h3) (
            added-IsTree db.next_user_id db.users
              (record new { id = db.next_user_id; deleted_at = none }) refl
              (ground (arith, refuse_if-eq_ok _ _ e3)) t)

replace_user-Tree :
    (db : Db) (next row : User) (entry : Option AuditLog) (db' : Db)
    → ((p : ℕ) → next.manager_id ≡ some p → ¬ AtOrBelow db.users next.id p)
    → Tree db
    → replace_user db next entry ≡ ok (row, db')
    → Tree db'
unfolding replace_user refers_to_rows
replace_user-Tree db next row entry db' above t h =
    >>=-elim (find_user db next.id) _ h λ held e1 h1.
      >>=-elim (refuse_if (not (refers_to_rows db next)) _) _ h1 λ u2 e2 h2.
        subst Tree (ok_db _ _ h2) (
          audited entry _ (
            edited-IsTree db.next_user_id db.users next (ground (arith, refuse_if-eq_ok _ _ e2))
              above t))

-- A manager that the service accepts is not at or below the person.
manager_above :
    (db : Db) (id : ℕ) (manager : Option ℕ)
    → check_manager_for db id manager ≡ ok tt
    → (p : ℕ) → manager ≡ some p
    → ¬ AtOrBelow db.users id p
unfolding check_manager_for check_manager
manager_above db id none h p e = absurd (ground arith)
manager_above db id (some m) h p e = >>=-elim (check_manager id (some m)) _ h λ u1 e1 h1.
    >>=-elim (refuse_if (not (user_exists db m)) _) _ h1 λ u2 e2 h2.
      let same : m ≡ p = ground arith in
      let apart : (m == id) ≡ false = refuse_if-eq_ok _ _ e1 in
      let clear : in_subtree db id m ≡ false = refuse_if-eq_ok _ _ h2 in go same apart clear
  where
    go :
        {m p : ℕ}
        → m ≡ p
        → (m == id) ≡ false
        → in_subtree db id m ≡ false
        → ¬ AtOrBelow db.users id p
    go same apart clear (inl e) = ground arith
    go {m} {p} same apart clear (inr k) =
        let held = (in_subtree-Below db id m).1 (subst (λ x. Below db.users id x) (sym same) k) in
        ground (arith, held)

soft_delete-Tree :
    (now : Instant) (db : Db) (id : ℕ) (entry : Option AuditLog) (db' : Db)
    → Tree db
    → soft_delete now db id entry ≡ ok db'
    → Tree db'
unfolding soft_delete
soft_delete-Tree now db id entry db' t h = >>=-elim (find_user db id) _ h λ leaver e1 h1.
    let found : find (is_user id) db.users ≡ some leaver = ground arith in
    let same : write_audit entry
          (record db { users = without_user now id leaver.manager_id db.users })
        ≡ db' =
      ground arith in
    subst Tree same (audited entry _ (left-IsTree now id db.next_user_id db.users leaver found t))

change_role-Tree :
    (db : Db) (id : ℕ) (role : Role) (entry : AuditLog) (row : User) (db' : Db)
    → Tree db
    → change_role db id role entry ≡ ok (row, db')
    → Tree db'
unfolding change_role
change_role-Tree db id role entry row db' t h = >>=-elim (find_user db id) _ h λ held e1 h1.
    >>=-elim (refuse_if (not (is_valid role)) _) _ h1
      λ u2 e2 h2. subst Tree (ok_db _ _ h2) (role-IsTree id role db.next_user_id db.users t)

Step-Tree : (db db' : Db) → Step db db' → Tree db → Tree db'
unfolding add_user edit_user remove_user grant_role add_department edit_department retire_department
    create_department rename_department delete_department
Step-Tree db db' (Step.added office claims sent row h) t =
    >>=-elim (role_only Role.hr_admin claims) _ h λ u1 e1 h1.
      >>=-elim (check_new_user office.to_lower sent.email sent.password) _ h1 λ email e2 h2.
        >>=-elim (check_full_name sent.full_name) _ h2 λ name e3 h3.
          >>=-elim (check_department db sent.department_id) _ h3 λ u4 e4 h4.
            >>=-elim (check_manager_for db 0 sent.manager_id) _ h4 λ u5 e5 h5.
              >>=-elim (check_default_schedule db sent.default_schedule_id) _ h5 λ u6 e6 h6.
                >>=-elim (or_error (office.hash sent.password) (invalid "password: %v")) _ h6
                  λ hash e7 h7. create_user-Tree office.lower db _ row db' t h7
Step-Tree db db' (Step.edited claims id sent row h) t =
    >>=-elim (role_only Role.hr_admin claims) _ h λ u1 e1 h1.
      >>=-elim (check_full_name sent.full_name) _ h1 λ name e2 h2.
        >>=-elim (refuse_if ((id == claims.user_id) && not sent.is_active) _) _ h2 λ u3 e3 h3.
          >>=-elim (find_user db id) _ h3 λ before e4 h4.
            >>=-elim (role_only before.role claims) _ h4 λ u5 e5 h5.
              >>=-elim (check_manager_for db id sent.manager_id) _ h5 λ u6 e6 h6.
                >>=-elim (check_department db sent.department_id) _ h6 λ u7 e7 h7.
                  >>=-elim (check_default_schedule db sent.default_schedule_id) _ h7 λ u8 e8 h8.
                    replace_user-Tree db _ row _ db' (manager_above db id sent.manager_id e6) t h8
Step-Tree db db' (Step.removed office claims id h) t =
    >>=-elim (role_only Role.hr_admin claims) _ h λ u1 e1 h1.
      >>=-elim (refuse_if (id == claims.user_id) _) _ h1 λ u2 e2 h2.
        >>=-elim (find_user db id) _ h2 λ target e3 h3.
          >>=-elim (role_only target.role claims) _ h3
            λ u4 e4 h4. soft_delete-Tree office.now db id _ db' t h4
Step-Tree db db' (Step.granted claims id role row h) t =
    >>=-elim (role_only Role.super_admin claims) _ h λ u1 e1 h1.
      >>=-elim (check_role role) _ h1 λ u2 e2 h2.
        >>=-elim (refuse_if (id == claims.user_id) _) _ h2 λ u3 e3 h3.
          >>=-elim (find_user db id) _ h3 λ before e4 h4.
            elim (Bool-cases (same_role before.role role)) [
              | inl y ↦
                  let same : db ≡ db' = ok_db (before, db) (row, db') (rw y at h4) in
                  subst Tree same t
              | inr o ↦ change_role-Tree db id role _ row db' t (rw o at h4)
            ]
Step-Tree db db' (Step.department_added office claims name row h) t =
    >>=-elim (role_only Role.hr_admin claims) _ h λ u1 e1 h1.
      >>=-elim (department_name name) _ h1 λ n e2 h2.
        >>=-elim (refuse_if (any (has_department_name office.lower n) db.departments) _) _ h2
          λ u3 e3 h3. subst Tree (ok_db _ _ h3) t
Step-Tree db db' (Step.department_renamed office claims id name row h) t =
    >>=-elim (role_only Role.hr_admin claims) _ h λ u1 e1 h1.
      >>=-elim (department_name name) _ h1 λ n e2 h2.
        >>=-elim (find_department db id) _ h2 λ held e3 h3.
          >>=-elim
            (refuse_if
              (any (λ d. not (d.id == id) && has_department_name office.lower n d) db.departments)
              _)
            _ h3 λ u4 e4 h4. subst Tree (ok_db _ _ h4) t
Step-Tree db db' (Step.department_retired claims id h) t =
    >>=-elim (role_only Role.hr_admin claims) _ h
      λ u1 e1 h1. >>=-elim (find_department db id) _ h1 λ held e2 h2. subst Tree (ok_is _ _ h2) t

-- Whatever calls of the directory succeed, in any order, nobody comes to be below themselves, every
-- manager has a row in the table, and ids stay different and below the next one, if all that was so
-- before.
pub Reach-Tree : (db db' : Db) → Tree db → Reach db db' → Tree db'
Reach-Tree db db' t Reach.here = t
Reach-Tree db db' t (Reach.next {mid = mid} r k) = Step-Tree mid db' k (Reach-Tree db mid t r)
