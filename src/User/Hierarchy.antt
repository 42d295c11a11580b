-- ===== src/User/Hierarchy.antt =====
-- `SubtreeQuery` of user/repository.go, and the rule that every module asks it for: whom a caller
-- reaches.
use attendance_system.Prelude.{
  ℕ, zero, suc, Bool, true, false, not, ◌&&◌, ◌||◌, Option, none, some, List, [], ◌∷◌, map, ◌==◌,
  if◌then◌else◌, length, any, keep, forbidden, Result, ok, err,
}
use attendance_system.Access.{Role, Claims, at_least}
use attendance_system.User.Rows.{User}
use attendance_system.Db.{Db}

abbrev pub is_live : User → Bool
is_live u = elim u.deleted_at [ none ↦ true | some _ ↦ false ]

abbrev pub holds : List ℕ → ℕ → Bool
holds ids id = any (λ x. x == id) ids

-- A live user whose manager is among these.
abbrev pub reports_to : List ℕ → User → Bool
reports_to ids u = is_live u && elim u.manager_id [ none ↦ false | some m ↦ holds ids m ]

-- One round of the recursive query: those who report to the manager or to one found so far.
unfoldable pub next_level : List User → ℕ → List ℕ → List ℕ
next_level users manager found =
    map (λ (u : User). u.id) (keep (reports_to (manager ∷ found)) users)

-- The rounds of the query. CYCLE and UNION stop it once a round finds nobody new, which takes as
-- many rounds as there are users at most.
unfoldable pub rounds : ℕ → List User → ℕ → List ℕ
unfolding next_level
rounds zero users manager = []
rounds (suc n) users manager = next_level users manager (rounds n users manager)

unfoldable pub subtree : List User → ℕ → List ℕ
unfolding rounds
subtree users manager = rounds (length users) users manager

-- `InSubtree`: a live user of that id in the subtree. The subtree holds live users only.
unfoldable pub in_subtree : Db → ℕ → ℕ → Bool
unfolding subtree
in_subtree db manager user = holds (subtree db.users manager) user

-- `reach`, rule D for one person: the caller, anyone below a supervisor, anyone for hr_admin.
unfoldable pub reach : Db → Claims → ℕ → Result (Unit {0})
reach db claims user =
    if (claims.user_id == user) || at_least claims.role Role.hr_admin
    then ok tt
    else if not (at_least claims.role Role.supervisor)
    then err (forbidden "forbidden")
    else if in_subtree db claims.user_id user
    then ok tt
    else err (forbidden "forbidden")

-- `scope`: nobody in particular for hr_admin, else the caller, whose subtree it is.
abbrev pub scope : Claims → Option ℕ
scope claims = if at_least claims.role Role.hr_admin then none else some claims.user_id

-- The clause that a listing adds for a scope.
unfoldable pub in_scope : Db → Option ℕ → ℕ → Bool
in_scope db none user = true
in_scope db (some manager) user = in_subtree db manager user
