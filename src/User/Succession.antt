-- ===== src/User/Succession.antt =====
-- Every call of user/service.go leaves somebody who may grant roles.
use attendance_system.Prelude.{
  subst, ℕ, ◌≡◌, refl, ◌∙◌, inl, inr, true, not, ◌&&◌, ◌||◌, Option, none, some, [], ◌∷◌, arith,
  ◌==◌, Bool-cases, any, find, rewrite, updated, find-updated, IsTable, IsTable-rewrite, invalid,
  ok, refuse_if, or_error, >>=-elim, refuse_if-eq_ok,
}
use attendance_system.Text.{Text, text_eq}
use attendance_system.Access.{Role, at_least, is_valid, Claims}
use attendance_system.User.Rows.{User}
use attendance_system.Db.{AuditLog, Db, ok_is, ok_db}
use attendance_system.Schedule.Store.{write_audit}
use attendance_system.Schedule.Planning.{role_only}
use attendance_system.User.Store.{
  is_user, find_user, refers_to_rows, has_email, create_user, with_details, replace_user, with_role,
  change_role, is_report_of, under_manager, deleted_now, without_user, soft_delete, find_department,
  has_department_name, create_department, rename_department, delete_department,
}
use attendance_system.User.Validation.{check_new_user, check_role}
use attendance_system.User.Directory.{
  Office, NewUser, Details, check_department, check_default_schedule, check_manager_for,
  check_full_name, add_user, edited_row, edit_user, remove_user, same_role, grant_role,
  department_name, add_department, edit_department, retire_department,
}
use attendance_system.User.Steps.{Step}
use attendance_system.User.Admins.{
  is_admin, has_admin, vouches, is_current, actor, rank_le, any-append, admin-rewrite, moved-admins,
  outranks-of,
}

audited-admin :
    (entry : Option AuditLog) (db : Db) → has_admin (write_audit entry db) ≡ has_admin db
audited-admin none db = refl
audited-admin (some e) db = refl

replaced-admin :
    (db : Db) (next row : User) (entry : Option AuditLog) (db' : Db)
    → replace_user db next entry ≡ ok (row, db')
    → any is_admin (rewrite (is_user next.id) (with_details next) db.users) ≡ true
    → has_admin db' ≡ true
unfolding replace_user
replaced-admin db next row entry db' h kept = >>=-elim (find_user db next.id) _ h λ held e1 h1.
    >>=-elim (refuse_if (not (refers_to_rows db next)) _) _ h1 λ u2 e2 h2.
      subst (λ d. has_admin d ≡ true) (ok_db _ _ h2)
        (audited-admin entry
            (record db { users = rewrite (is_user next.id) (with_details next) db.users })
          ∙ kept)

edited-admin :
    (db : Db) (claims : Claims) (id : ℕ) (sent : Details) (row : User) (db' : Db)
    → IsTable (λ (u : User). u.id) db.next_user_id db.users
    → is_current db claims ≡ true
    → edit_user db claims id sent ≡ ok (row, db')
    → has_admin db ≡ true
    → has_admin db' ≡ true
unfolding edit_user
edited-admin db claims id sent row db' t current h admin =
    >>=-elim (role_only Role.hr_admin claims) _ h λ u1 e1 h1.
      >>=-elim (check_full_name sent.full_name) _ h1 λ name e2 h2.
        >>=-elim (refuse_if ((id == claims.user_id) && not sent.is_active) _) _ h2 λ u3 e3 h3.
          >>=-elim (find_user db id) _ h3 λ before e4 h4.
            >>=-elim (role_only before.role claims) _ h4 λ u5 e5 h5.
              >>=-elim (check_manager_for db id sent.manager_id) _ h5 λ u6 e6 h6.
                >>=-elim (check_department db sent.department_id) _ h6 λ u7 e7 h7.
                  >>=-elim (check_default_schedule db sent.default_schedule_id) _ h7 λ u8 e8 h8.
                    let found : find (is_user id) db.users ≡ some before = ground arith in
                    let guard = refuse_if-eq_ok _ _ e3 in
                    let next = edited_row before id name sent in
                    replaced-admin db next row _ db' h8 (
                      admin-rewrite db.users claims id before (with_details next) t.keys found
                        (outranks-of claims before.role e5) current
                        (λ u hit v a. ground (arith, guard)) admin)

removed-admin :
    (office : Office) (db : Db) (claims : Claims) (id : ℕ) (db' : Db)
    → IsTable (λ (u : User). u.id) db.next_user_id db.users
    → is_current db claims ≡ true
    → remove_user office db claims id ≡ ok db'
    → has_admin db ≡ true
    → has_admin db' ≡ true
unfolding remove_user soft_delete without_user
removed-admin office db claims id db' t current h admin =
    >>=-elim (role_only Role.hr_admin claims) _ h λ u1 e1 h1.
      >>=-elim (refuse_if (id == claims.user_id) _) _ h1 λ u2 e2 h2.
        >>=-elim (find_user db id) _ h2 λ target e3 h3.
          >>=-elim (role_only target.role claims) _ h3 λ u4 e4 h4.
            >>=-elim (find_user db id) _ h4 λ leaver e5 h5.
              let found : find (is_user id) db.users ≡ some target = ground arith in
              let guard = refuse_if-eq_ok _ _ e2 in
              let moved = rewrite (is_report_of id) (under_manager leaver.manager_id) db.users in
              let keys =
                (IsTable-rewrite (λ (u : User). u.id) db.next_user_id (is_report_of id)
                  (under_manager leaver.manager_id) db.users (λ a. ground arith) t).keys in
              let found' =
                find-updated (is_user id) (is_report_of id) (under_manager leaver.manager_id)
                  db.users {r = target} (λ x. ground arith) found in
              let rank : at_least claims.role
                    (updated (is_report_of id) (under_manager leaver.manager_id) target).role
                  ≡ true =
                ground (arith, outranks-of claims target.role e4) in
              subst (λ d. has_admin d ≡ true) (ok_is _ _ h5)
                (admin-rewrite moved claims id _ (deleted_now office.now) keys found' rank
                  (moved-admins id leaver.manager_id (vouches claims) db.users (λ u. refl)
                    ∙ current)
                  (λ u hit v a. absurd (ground (arith, guard)))
                  (moved-admins id leaver.manager_id is_admin db.users (λ u. refl) ∙ admin))

granted-admin :
    (db : Db) (claims : Claims) (id : ℕ) (role : Role) (row : User) (db' : Db)
    → IsTable (λ (u : User). u.id) db.next_user_id db.users
    → is_current db claims ≡ true
    → grant_role db claims id role ≡ ok (row, db')
    → has_admin db ≡ true
    → has_admin db' ≡ true
unfolding grant_role change_role
granted-admin db claims id role row db' t current h admin =
    >>=-elim (role_only Role.super_admin claims) _ h λ u1 e1 h1.
      >>=-elim (check_role role) _ h1 λ u2 e2 h2.
        >>=-elim (refuse_if (id == claims.user_id) _) _ h2 λ u3 e3 h3.
          >>=-elim (find_user db id) _ h3 λ before e4 h4.
            elim (Bool-cases (same_role before.role role)) [
              | inl y ↦
                  let same : db ≡ db' = ok_db (before, db) (row, db') (rw y at h4) in
                  subst (λ d. has_admin d ≡ true) same admin
              | inr o ↦ >>=-elim (find_user db id) _ (rw o at h4) λ held e5 h5.
                  >>=-elim (refuse_if (not (is_valid role)) _) _ h5 λ u6 e6 h6.
                    let found : find (is_user id) db.users ≡ some before = ground arith in
                    let guard = refuse_if-eq_ok _ _ e3 in
                    let rank : at_least claims.role before.role ≡ true =
                      ground (arith, outranks-of claims Role.super_admin e1, rank_le before.role) in
                    subst (λ d. has_admin d ≡ true) (ok_db _ _ h6)
                      (admin-rewrite db.users claims id before (with_role role) t.keys found rank
                        current (λ u hit v a. absurd (ground (arith, guard))) admin)
            ]

created-admin :
    (lower : Text → Text) (db : Db) (new row : User) (db' : Db)
    → create_user lower db new ≡ ok (row, db')
    → has_admin db ≡ true
    → has_admin db' ≡ true
unfolding create_user
created-admin lower db new row db' h admin =
    >>=-elim (refuse_if (not (text_eq new.email (lower new.email)) || not (is_valid new.role)) _) _
      h
      λ u1 e1 h1. >>=-elim (refuse_if (any (has_email new.email) db.users) _) _ h1 λ u2 e2 h2.
        >>=-elim (refuse_if (not (refers_to_rows db new)) _) _ h2 λ u3 e3 h3.
          subst (λ d. has_admin d ≡ true) (ok_db _ _ h3)
            (any-append is_admin db.users
              (record new { id = db.next_user_id; deleted_at = none } ∷ []) admin)

added-admin :
    (office : Office) (db : Db) (claims : Claims) (sent : NewUser) (row : User) (db' : Db)
    → add_user office db claims sent ≡ ok (row, db')
    → has_admin db ≡ true
    → has_admin db' ≡ true
unfolding add_user
added-admin office db claims sent row db' h admin =
    >>=-elim (role_only Role.hr_admin claims) _ h λ u1 e1 h1.
      >>=-elim (check_new_user office.to_lower sent.email sent.password) _ h1 λ email e2 h2.
        >>=-elim (check_full_name sent.full_name) _ h2 λ name e3 h3.
          >>=-elim (check_department db sent.department_id) _ h3 λ u4 e4 h4.
            >>=-elim (check_manager_for db 0 sent.manager_id) _ h4 λ u5 e5 h5.
              >>=-elim (check_default_schedule db sent.default_schedule_id) _ h5 λ u6 e6 h6.
                >>=-elim (or_error (office.hash sent.password) (invalid "password: %v")) _ h6
                  λ hash e7 h7. created-admin office.lower db _ row db' h7 admin

-- A step of the directory by a caller whose claims are still true leaves somebody who may grant
-- roles, a live and active super_admin, if there was one before, ids are unique, and each is below
-- the next one to be given.
pub Step-has_admin :
    (db db' : Db) (k : Step db db')
    → IsTable (λ (u : User). u.id) db.next_user_id db.users
    → is_current db (actor k) ≡ true
    → has_admin db ≡ true
    → has_admin db' ≡ true
unfolding add_department edit_department retire_department create_department rename_department
    delete_department actor
Step-has_admin db db' (Step.added office claims sent row h) t c a =
    added-admin office db claims sent row db' h a
Step-has_admin db db' (Step.edited claims id sent row h) t c a =
    edited-admin db claims id sent row db' t c h a
Step-has_admin db db' (Step.removed office claims id h) t c a =
    removed-admin office db claims id db' t c h a
Step-has_admin db db' (Step.granted claims id role row h) t c a =
    granted-admin db claims id role row db' t c h a
Step-has_admin db db' (Step.department_added office claims name row h) t c a =
    >>=-elim (role_only Role.hr_admin claims) _ h λ u1 e1 h1.
      >>=-elim (department_name name) _ h1 λ n e2 h2.
        >>=-elim (refuse_if (any (has_department_name office.lower n) db.departments) _) _ h2
          λ u3 e3 h3. subst (λ d. has_admin d ≡ true) (ok_db _ _ h3) a
Step-has_admin db db' (Step.department_renamed office claims id name row h) t c a =
    >>=-elim (role_only Role.hr_admin claims) _ h λ u1 e1 h1.
      >>=-elim (department_name name) _ h1 λ n e2 h2.
        >>=-elim (find_department db id) _ h2 λ held e3 h3.
          >>=-elim
            (refuse_if
              (any (λ d. not (d.id == id) && has_department_name office.lower n d) db.departments)
              _)
            _ h3 λ u4 e4 h4. subst (λ d. has_admin d ≡ true) (ok_db _ _ h4) a
Step-has_admin db db' (Step.department_retired claims id h) t c a =
    >>=-elim (role_only Role.hr_admin claims) _ h λ u1 e1 h1.
      >>=-elim (find_department db id) _ h1
        λ held e2 h2. subst (λ d. has_admin d ≡ true) (ok_is _ _ h2) a
