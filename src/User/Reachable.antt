-- ===== src/User/Reachable.antt =====
-- Whom a supervisor reaches after `Delete` of user/service.go.
use attendance_system.Prelude.{
  subst, ℕ, ◌≡◌, refl, sym, ap, ◌≢◌, ◌↔◌, Bool, true, false, some, arith, ◌==◌, find, ok, refuse_if,
  >>=-elim,
}
use attendance_system.Access.{Role, Claims}
use attendance_system.User.Hierarchy.{in_subtree}
use attendance_system.User.Below.{Below, in_subtree-Below}
use attendance_system.Db.{Db, ok_is}
use attendance_system.Schedule.Planning.{role_only}
use attendance_system.User.Store.{is_user, find_user, without_user, soft_delete}
use attendance_system.User.Directory.{Office, remove_user}
use attendance_system.User.Leaver.{Below-left, leaver-gone}
use attendance_system.User.Orderly.{Tree}

same_truth : (x y : Bool) → (x ≡ true) ↔ (y ≡ true) → x ≡ y
same_truth true y h = sym (h.0 refl)
same_truth false true h = h.1 refl
same_truth false false h = refl

never : (x : Bool) → ¬ (x ≡ true) → x ≡ false
never true h = absurd (h refl)
never false h = refl

-- Removing an employee takes exactly that employee out of the hierarchy: of any other two people,
-- one is below the other afterwards exactly when they were before, also where the way led through
-- the employee, and the employee is below nobody. The hierarchy must be a tree, and the call must
-- have succeeded.
pub remove_user-in_subtree :
    (office : Office) (db : Db) (claims : Claims) (id : ℕ) (db' : Db) (a b : ℕ)
    → Tree db
    → remove_user office db claims id ≡ ok db'
    → a ≢ id
    → b ≢ id
    → (in_subtree db' a b ≡ in_subtree db a b) × (in_subtree db' a id ≡ false)
unfolding remove_user soft_delete without_user
remove_user-in_subtree office db claims id db' a b t h n m =
    >>=-elim (role_only Role.hr_admin claims) _ h λ u1 e1 h1.
      >>=-elim (refuse_if (id == claims.user_id) _) _ h1 λ u2 e2 h2.
        >>=-elim (find_user db id) _ h2 λ target e3 h3.
          >>=-elim (role_only target.role claims) _ h3 λ u4 e4 h4.
            >>=-elim (find_user db id) _ h4 λ leaver e5 h5.
              let found : find (is_user id) db.users ≡ some leaver = ground arith in
              let same = ap (λ (d : Db). d.users) (ok_is _ _ h5) in
              let kept =
                Below-left office.now id db.users leaver found t.ids.keys t.no_loop a b n m in
              let here = in_subtree-Below db a b in
              let there = in_subtree-Below db' a b in
              (
                same_truth (in_subtree db' a b) (in_subtree db a b) (
                  λ x. here.1 (kept.1 (subst (λ us. Below us a b) (sym same) (there.0 x))),
                  λ x. there.1 (subst (λ us. Below us a b) same (kept.0 (here.0 x))),
                ),
                never (in_subtree db' a id) (λ x.
                    leaver-gone office.now id db.users leaver found a
                      (subst (λ us. Below us a id) (sym same) ((in_subtree-Below db' a id).0 x))),
              )
