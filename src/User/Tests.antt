-- ===== src/User/Tests.antt =====
-- The hierarchy of the sample company, at which the theorem is used.
use attendance_system.Prelude.{◌≡◌, refl, ◌↔◌, true}
use attendance_system.User.Hierarchy.{in_subtree}
use attendance_system.User.Below.{Below, in_subtree-Below}
use attendance_system.Samples.{company}

-- The employee is below hr_admin, two levels down.
in_subtree-Below_example : (in_subtree company 3 1 ≡ true) ↔ Below company.users 3 1
in_subtree-Below_example = in_subtree-Below company 3 1

two_levels : in_subtree company 3 1 ≡ true
unfolding in_subtree
two_levels = refl
