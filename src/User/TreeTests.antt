-- ===== src/User/TreeTests.antt =====
-- Witnesses of the theorems on the directory, at the sample company with a super_admin.
use attendance_system.Prelude.{
  ℕ, ◌<◌, ◌≡◌, refl, true, false, none, some, List, [], ◌∷◌, arith, All, All-of_listed, ok,
}
use attendance_system.Access.{Role, Claims}
use attendance_system.User.Rows.{User}
use attendance_system.User.Hierarchy.{in_subtree}
use attendance_system.User.Below.{Below}
use attendance_system.Db.{Payload, Db}
use attendance_system.User.Store.{without_user, soft_delete}
use attendance_system.User.Directory.{Office, user_audit, remove_user}
use attendance_system.User.Steps.{Step, Reach}
use attendance_system.User.Orderly.{Tree, Reach-Tree}
use attendance_system.User.Reachable.{remove_user-in_subtree}
use attendance_system.User.Admins.{has_admin, actor}
use attendance_system.User.Succession.{Step-has_admin}
use attendance_system.Samples.{person, company, jakarta, half_past_nine}

abbrev root_company : Db
root_company = record company {
  users =
      person 1 Role.employee (some 2)
      ∷ person 2 Role.supervisor (some 3)
      ∷ person 3 Role.hr_admin none
      ∷ person 5 Role.super_admin none
      ∷ [];
  next_user_id = 6;
}

-- Where every manager has the larger id, ways down lead to smaller ids.
abbrev Upward : User → Type 0
Upward u = (m : ℕ) → u.manager_id ≡ some m → u.id < m

Below-lt : (users : List User) (a b : ℕ) → All Upward users → Below users a b → b < a
Below-lt users a b h (Below.directly r) =
    let l = All-of_listed Upward users r.index r.user h r.listed a r.manager_is in
    omega (arith, l, r.id_is)
Below-lt users a b h (Below.under {m = c} k r) =
    let l = All-of_listed Upward users r.index r.user h r.listed c r.manager_is in
    omega (arith, l, r.id_is, Below-lt users a c h k)

root_company-Upward : All Upward root_company.users
root_company-Upward = (
  λ m e. ground arith,
  (λ m e. ground arith, (λ m e. absurd (ground arith), (λ m e. absurd (ground arith), tt))),
)

root_company-Tree : Tree root_company
root_company-Tree = record {
  ids = record {
    keys = ((refl, (refl, (refl, tt))), ((refl, (refl, tt)), ((refl, tt), (tt, tt))));
    below = (omega arith, (omega arith, (omega arith, (omega arith, tt))));
  };
  managers = (
    λ m e. ground arith,
    (λ m e. ground arith, (λ m e. absurd (ground arith), (λ m e. absurd (ground arith), tt))),
  );
  no_loop = λ x k. omega (arith, Below-lt root_company.users x x root_company-Upward k);
}

abbrev hr_3 : Claims
hr_3 = record { user_id = 3; role = Role.hr_admin }

abbrev office : Office
office = record {
  now = half_past_nine;
  zone = jakarta;
  lower = λ t. t;
  to_lower = λ t. t;
  hash = λ t. some t;
}

-- The supervisor leaves, and the employee reports to hr_admin.
abbrev smaller_company : Db
smaller_company = record root_company {
  users =
      person 1 Role.employee (some 3)
      ∷ record (person 2 Role.supervisor (some 3)) { deleted_at = some half_past_nine }
      ∷ person 3 Role.hr_admin none
      ∷ person 5 Role.super_admin none
      ∷ [];
  audit_logs = user_audit hr_3 "user.deleted" 2 (Payload.deleted false) (Payload.deleted true) ∷ [];
}

remove_runs : remove_user office root_company hr_3 2 ≡ ok smaller_company
unfolding remove_user soft_delete without_user
remove_runs = refl

remove_user-in_subtree_example :
    (in_subtree smaller_company 3 1 ≡ in_subtree root_company 3 1)
    × (in_subtree smaller_company 3 2 ≡ false)
remove_user-in_subtree_example =
    remove_user-in_subtree office root_company hr_3 2 smaller_company 3 1 root_company-Tree
      remove_runs (λ e. absurd (ground arith)) (λ e. absurd (ground arith))

Reach-Tree_example : Tree smaller_company
Reach-Tree_example =
    Reach-Tree root_company smaller_company root_company-Tree
      (Reach.next Reach.here (Step.removed office hr_3 2 remove_runs))

Step-has_admin_example : has_admin smaller_company ≡ true
unfolding actor
Step-has_admin_example =
    Step-has_admin root_company smaller_company (Step.removed office hr_3 2 remove_runs)
      root_company-Tree.ids refl refl
