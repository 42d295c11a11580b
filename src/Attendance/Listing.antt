-- ===== src/Attendance/Listing.antt =====
-- Whom the daily list names (attendance/repository.go `Staff`).
use mathlib.Core.List.{Permᴰ}
use attendance_system.Prelude.{
  subst, ℕ, suc, ◌-◌, ◌≤◌, ◌≡◌, refl, ◌↔◌, ◌⊎◌, inl, inr, Bool, true, false, Option, none, some,
  List, [], ◌∷◌, arith, leb, ◌==◌, Bool-cases, get_elem?, keep, All, All-map,
}
use attendance_system.Access.{Role, at_least, Claims}
use attendance_system.Time.{Instant, Date, midnight}
use attendance_system.User.Rows.{User}
use attendance_system.User.Hierarchy.{scope, in_scope}
use attendance_system.User.Below.{Below, in_subtree-Below}
use attendance_system.Schedule.Validation.{Range}
use attendance_system.Attendance.Standing.{
  Filter, narrows_user, narrows_department, not_gone_before, staff,
}
use attendance_system.Db.{Db}

-- The rows that have the property, in the order of the table.
pub data Selected {A : Type 0} (P : A → Type 0) : List A → List A → Type 0 where
  at_end : Selected P [] []
  taken : {x : A} {xs ys : List A} → P x → Selected P xs ys → Selected P (x ∷ xs) (x ∷ ys)
  left_out : {x : A} {xs ys : List A} → ¬ P x → Selected P xs ys → Selected P (x ∷ xs) ys

keep-Selected :
    {A : Type 0} (P : A → Type 0) (p : A → Bool)
    → ((x : A) → (p x ≡ true) ↔ P x)
    → (xs : List A) → Selected P xs (keep p xs)
keep-Selected P p same [] = Selected.at_end
keep-Selected P p same (x ∷ xs) =
    let rest = keep-Selected P p same xs in
    elim (Bool-cases (p x)) [
      | inl y ↦ rw y (Selected.taken ((same x).0 y) rest)
      | inr n ↦
          let not_so : ¬ P x = λ h. let k = (same x).1 h in ground arith in
          rw n (Selected.left_out not_so rest)
    ]

-- What holds of every row of the table holds of those selected.
pub All-Selected :
    {A : Type 0} (P Q : A → Type 0) {xs ys : List A} → Selected P xs ys → All Q xs → All Q ys
All-Selected P Q Selected.at_end h = tt
All-Selected P Q (Selected.taken p s) h = (h.0, All-Selected P Q s (h.1))
All-Selected P Q (Selected.left_out n s) h = All-Selected P Q s (h.1)

pub All-Permᴰ : {A : Type 0} (Q : A → Type 0) {xs ys : List A} → Permᴰ xs ys → All Q xs → All Q ys
All-Permᴰ Q Permᴰ.nil h = tt
All-Permᴰ Q (Permᴰ.cons e p) h = (subst Q e (h.0), All-Permᴰ Q p (h.1))
All-Permᴰ Q (Permᴰ.swap e f) h = (subst Q f (h.1.0), (subst Q e (h.0), h.1.1))
All-Permᴰ Q (Permᴰ.trans p q) h = All-Permᴰ Q q (All-Permᴰ Q p h)

-- A row of the table of users.
abbrev pub IsRow : Db → User → Type 0
IsRow db u = (index : ℕ) × (get_elem? db.users index ≡ some u)

rows_listed : {A : Type 0} (xs : List A) → All (λ x. (i : ℕ) × (get_elem? xs i ≡ some x)) xs
rows_listed [] = tt
rows_listed {A} (x ∷ xs) = (
  (0, refl),
  All-map (λ (y : A). (i : ℕ) × (get_elem? xs i ≡ some y))
      (λ (y : A). (i : ℕ) × (get_elem? (x ∷ xs) i ≡ some y)) (λ y (i, e). (suc i, e)) xs
      (rows_listed xs),
)

pub users-IsRow : (db : Db) → All (IsRow db) db.users
users-IsRow db = rows_listed db.users

-- Who is left once a filter has narrowed; one that is not given does not narrow.
pub data Passes : Option ℕ → Option ℕ → Type 0 where
  no_filter : {held : Option ℕ} → Passes none held
  same_one : {id : ℕ} → Passes (some id) (some id)

-- Who is not gone: nobody removed before that moment.
pub data NotGone (since : Instant) : Option Instant → Type 0 where
  here : NotGone since none
  left_later : {at : Instant} → since ≤ at → NotGone since (some at)

-- Whom the caller sees: everybody for hr_admin and above, else those below the caller.
abbrev pub Sees : Db → Claims → ℕ → Type 0
Sees db claims id = (at_least claims.role Role.hr_admin ≡ true) ⊎ Below db.users claims.user_id id

-- Whom a daily list is about: who joined by the end of the span, was not gone a day before its
-- start, is seen by the caller and passes the filter.
pub record InReach (db : Db) (claims : Claims) (span : Range) (filter : Filter) (u : User)
    : Type 0 where
  pub joined : u.join_date ≤ span.to
  pub not_gone : NotGone (midnight (span.from - 1)) u.deleted_at
  pub seen : Sees db claims u.id
  pub user_passes : Passes filter.user_id (some u.id)
  pub department_passes : Passes filter.department_id u.department_id

in_scope-Sees :
    (db : Db) (claims : Claims) (id : ℕ)
    → (in_scope db (scope claims) id ≡ true) ↔ Sees db claims id
unfolding in_scope
in_scope-Sees db claims id = elim (Bool-cases (at_least claims.role Role.hr_admin)) [
  | inl y ↦ (λ h. inl y, λ h. rw y refl)
  | inr n ↦ (
    λ h. inr ((in_subtree-Below db claims.user_id id).0 (rw n at h)),
    λ h. elim h [
      | inl y ↦ absurd (ground arith)
      | inr below ↦ rw n ((in_subtree-Below db claims.user_id id).1 below)
    ],
  )
]

narrows_user-Passes : (f : Option ℕ) (u : User) → (narrows_user f u ≡ true) ↔ Passes f (some u.id)
narrows_user-Passes none u = (λ h. Passes.no_filter, λ h. refl)
narrows_user-Passes (some id) u = (
  λ h.
      let same : u.id ≡ id = ground arith in
      subst (λ k. Passes (some k) (some u.id)) same Passes.same_one,
  λ h. go h,
)
  where
    go : {id held : ℕ} → Passes (some id) (some held) → (held == id) ≡ true
    go Passes.same_one = ground arith

narrows_department-Passes : (f held : Option ℕ) → (narrows_department f held ≡ true) ↔ Passes f held
narrows_department-Passes none held = (λ h. Passes.no_filter, λ h. refl)
narrows_department-Passes (some id) none = (λ h. absurd (ground arith), λ h. go h)
  where
    go : {id : ℕ} → Passes (some id) none → false ≡ true
    go h = absurd (nobody h refl refl)
      where
        nobody : {f d : Option ℕ} {id : ℕ} → Passes f d → f ≡ some id → d ≡ none → ⊥
        nobody Passes.no_filter e k = absurd (ground arith)
        nobody Passes.same_one e k = absurd (ground arith)
narrows_department-Passes (some id) (some d) = (
  λ h.
      let same : d ≡ id = ground arith in
      subst (λ k. Passes (some k) (some d)) same Passes.same_one,
  λ h. go h,
)
  where
    go : {id held : ℕ} → Passes (some id) (some held) → (held == id) ≡ true
    go Passes.same_one = ground arith

not_gone_before-NotGone :
    (from : Date) (u : User)
    → (not_gone_before from u ≡ true) ↔ NotGone (midnight (from - 1)) u.deleted_at
not_gone_before-NotGone from u = go u.deleted_at
  where
    go :
        (d : Option Instant)
        → (elim d [ none ↦ true | some at ↦ leb (midnight (from - 1)) at ] ≡ true)
          ↔ NotGone (midnight (from - 1)) d
    go none = (λ h. NotGone.here, λ h. refl)
    go (some at) = (λ h. NotGone.left_later (ground arith), λ h. later h)
      where
        later : {since at : Instant} → NotGone since (some at) → leb since at ≡ true
        later (NotGone.left_later h) = ground arith

pub staff-Selected :
    (db : Db) (claims : Claims) (span : Range) (filter : Filter)
    → Selected (InReach db claims span filter) db.users (staff db (scope claims) span filter)
unfolding staff
staff-Selected db claims span filter =
    keep-Selected (InReach db claims span filter) _
      (λ u.
        let gone = not_gone_before-NotGone span.from u in
        let seen = in_scope-Sees db claims u.id in
        let user = narrows_user-Passes filter.user_id u in
        let department = narrows_department-Passes filter.department_id u.department_id in
        (
          λ h. record {
            joined = ground arith;
            not_gone = gone.0 (ground arith);
            seen = seen.0 (ground arith);
            user_passes = user.0 (ground arith);
            department_passes = department.0 (ground arith);
          },
          λ r.
              let a : leb u.join_date span.to ≡ true = ground (arith, r.joined) in
              rw
                (
                  a,
                  gone.1 r.not_gone,
                  seen.1 r.seen,
                  user.1 r.user_passes,
                  department.1 r.department_passes,
                )
                refl,
        ))
      db.users
