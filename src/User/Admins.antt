-- ===== src/User/Admins.antt =====
-- Somebody stays able to grant roles: the guards of user/service.go on who may change whom.
use attendance_system.Prelude.{
  subst, ℕ, ◌≤◌, ◌≡◌, refl, sym, ◌∙◌, inl, inr, Bool, true, ◌&&◌, Option, some, List, [], ◌∷◌, ◌++◌,
  arith, Bool-cases, get_elem?, any, find, rewrite, updated, find-holds, HasKey, any-Found,
  any-of_listed, find-of_listed, find-by_key, ok, refuse_if-eq_ok,
}
use attendance_system.Access.{Role, role_rank, at_least, Claims}
use attendance_system.User.Rows.{User}
use attendance_system.User.Hierarchy.{is_live}
use attendance_system.Db.{Db}
use attendance_system.Schedule.Planning.{role_only}
use attendance_system.User.Store.{is_user, is_report_of, under_manager}
use attendance_system.User.Directory.{same_role}
use attendance_system.User.Moves.{get_elem?-rewrite}
use attendance_system.User.Steps.{Step}

-- An account that may grant roles.
abbrev pub is_admin : User → Bool
is_admin u = is_live u && u.is_active && same_role u.role Role.super_admin

abbrev pub has_admin : Db → Bool
has_admin db = any is_admin db.users

-- A caller whose claims are still what the database says.
abbrev pub vouches : Claims → User → Bool
vouches claims u = is_user claims.user_id u && u.is_active && same_role u.role claims.role

abbrev pub is_current : Db → Claims → Bool
is_current db claims = any (vouches claims) db.users

-- Who makes a step.
unfoldable pub actor : {db db' : Db} → Step db db' → Claims
actor (Step.added office claims sent row h) = claims
actor (Step.edited claims id sent row h) = claims
actor (Step.removed office claims id h) = claims
actor (Step.granted claims id role row h) = claims
actor (Step.department_added office claims name row h) = claims
actor (Step.department_renamed office claims id name row h) = claims
actor (Step.department_retired claims id h) = claims

pub rank_le : (r : Role) → role_rank r ≤ 4
rank_le Role.employee = omega arith
rank_le Role.supervisor = omega arith
rank_le Role.hr_admin = omega arith
rank_le Role.super_admin = omega arith
rank_le Role.unknown = omega arith

-- The row of an id, however it is found.
same_user :
    (users : List User) (id n : ℕ) (target u : User)
    → HasKey (λ (u : User). u.id) users
    → find (is_user id) users ≡ some target
    → get_elem? users n ≡ some u
    → is_user id u ≡ true
    → target ≡ u
same_user users id n target u keys found listed hit =
    let held = find-holds (is_user id) users found in
    let same_id : u.id ≡ target.id = ground arith in
    let by_id = find-by_key (λ (u : User). u.id) (is_user id) users keys found in
    let by_row = find-of_listed (λ (u : User). u.id) users n u keys listed in
    ground (arith, sym by_id ∙ rw same_id at by_row)

stays {ℓ} :
    {A : Type ℓ} (p : A → Bool) (f : A → A) (q : A → Bool) (xs : List A) (n : ℕ) (x : A)
    → get_elem? xs n ≡ some x
    → q (updated p f x) ≡ true
    → any q (rewrite p f xs) ≡ true
stays p f q xs n x e h =
    any-of_listed q (rewrite p f xs) n (updated p f x) (get_elem?-rewrite p f xs n x e) h

pub any-append {ℓ} :
    {A : Type ℓ} (q : A → Bool) (xs ys : List A) → any q xs ≡ true → any q (xs ++ ys) ≡ true
any-append q [] ys h = absurd (cc)
any-append q (x ∷ xs) ys h = ground (arith, any-append q xs ys)

-- An UPDATE of one row by a caller who outranks it and leaves themselves an admin.
module _ (users : List User) (claims : Claims) (id : ℕ) (target : User) (f : User → User)
    (keys : HasKey (λ (u : User). u.id) users) (found : find (is_user id) users ≡ some target)
    (outranks : at_least claims.role target.role ≡ true)
    (current : any (vouches claims) users ≡ true)
    (not_self : (u : User)
      → is_user id u ≡ true
      → vouches claims u ≡ true
      → is_admin u ≡ true
      → is_admin (f u) ≡ true) where
  pub admin-rewrite : any is_admin users ≡ true → any is_admin (rewrite (is_user id) f users) ≡ true
  admin-rewrite h =
      let a = any-Found is_admin users h in
      let c = any-Found (vouches claims) users current in
      elim (Bool-cases (is_user id a.item)) [
        | inr o ↦ stays (is_user id) f is_admin users a.index a.item a.listed (rw o a.accepted)
        | inl t ↦
            let same = same_user users id a.index target a.item keys found a.listed t in
            let high : at_least claims.role a.item.role ≡ true =
              subst (λ (u : User). at_least claims.role u.role ≡ true) same outranks in
            let admin : is_admin c.item ≡ true =
              ground (arith, high, a.accepted, c.accepted, rank_le claims.role) in
            stays (is_user id) f is_admin users c.index c.item c.listed
              (elim (Bool-cases (is_user id c.item)) [
                | inl s ↦ rw s (not_self c.item s c.accepted admin)
                | inr o ↦ rw o admin
              ])
      ]

pub moved-admins :
    (id : ℕ) (manager : Option ℕ) (q : User → Bool) (users : List User)
    → ((u : User) → q (under_manager manager u) ≡ q u)
    → any q (rewrite (is_report_of id) (under_manager manager) users) ≡ any q users
moved-admins id manager q [] g = refl
moved-admins id manager q (u ∷ users) g = ground (arith, g u, moved-admins id manager q users g)

pub outranks-of :
    (claims : Claims) (r : Role) {u : Unit {0}}
    → role_only r claims ≡ ok u
    → at_least claims.role r ≡ true
outranks-of claims r h = ground (arith, refuse_if-eq_ok _ _ h)
