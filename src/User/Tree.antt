-- ===== src/User/Tree.antt =====
-- The hierarchy under the calls of user/service.go.
use attendance_system.Prelude.{
  subst, ℕ, ◌+◌, ◌<◌, ◌≡◌, refl, sym, ◌∙◌, inl, inr, Bool, true, Option, none, some, List, [], ◌∷◌,
  ◌++◌, arith, ◌==◌, Bool-cases, any, find, rewrite, All, find-All, All-append, All-map,
  All-rewrite, any-Found, All-of_listed, IsTable, IsTable-snoc, IsTable-rewrite,
}
use attendance_system.Time.{Instant}
use attendance_system.User.Rows.{User}
use attendance_system.User.Store.{
  is_user, refers_to, with_details, with_role, is_report_of, under_manager, deleted_now,
  without_user,
}
use attendance_system.User.Moves.{NoLoop, AtOrBelow}
use attendance_system.User.Loops.{ManagerBelow, NoLoop-replaced, NoLoop-added, NoLoop-role}
use attendance_system.User.Leaver.{NoLoop-left}
use attendance_system.Access.{Role}

-- A manager, where there is one, has a row.
abbrev pub HasManager : List User → User → Type 0
HasManager users u = (m : ℕ) → u.manager_id ≡ some m → any (λ v. v.id == m) users ≡ true

-- Different ids, managers that have a row, and no loop.
pub record IsTree (next : ℕ) (users : List User) : Type 0 where
  pub ids : IsTable (λ (u : User). u.id) next users
  pub managers : All (HasManager users) users
  pub no_loop : NoLoop users

-- A manager that the foreign key finds.
known_manager :
    (next : ℕ) (users : List User) (manager : Option ℕ)
    → IsTable (λ (u : User). u.id) next users
    → refers_to (λ (m : User). m.id) users manager ≡ true
    → (p : ℕ) → manager ≡ some p
    → p < next
known_manager next users none t h p e = absurd (ground arith)
known_manager next users (some m) t h p e =
    let f = any-Found (λ u. u.id == m) users h in
    let below = All-of_listed (λ (u : User). u.id < next) users f.index f.item t.below f.listed in
    ground (arith, below, f.accepted)

below_next :
    (next : ℕ) (users : List User)
    → IsTable (λ (u : User). u.id) next users
    → All (HasManager users) users
    → All (ManagerBelow next) users
below_next next users t h =
    All-map (HasManager users) (ManagerBelow next)
      (λ u k p e. known_manager next users u.manager_id t (rw e (k p e)) p e) users h

-- A reference that the foreign key finds has a row.
referred :
    (users : List User) (manager : Option ℕ)
    → refers_to (λ (m : User). m.id) users manager ≡ true
    → (p : ℕ) → manager ≡ some p
    → any (λ v. v.id == p) users ≡ true
referred users none h p e = absurd (ground arith)
referred users (some m) h p e =
    let same : m ≡ p = ground arith in
    subst (λ k. any (λ (v : User). v.id == k) users ≡ true) same h

any-snoc_id :
    (users : List User) (row : User) (p : ℕ)
    → any (λ (v : User). v.id == p) users ≡ true
    → any (λ (v : User). v.id == p) (users ++ row ∷ []) ≡ true
any-snoc_id [] row p h = absurd (ground arith)
any-snoc_id (u ∷ users) row p h = ground (arith, any-snoc_id users row p)

any-rewrite_id :
    (q : User → Bool) (f : User → User)
    → ((u : User) → (f u).id ≡ u.id)
    → (users : List User) (p : ℕ)
    → any (λ (v : User). v.id == p) (rewrite q f users) ≡ any (λ (v : User). v.id == p) users
any-rewrite_id q f k [] p = refl
any-rewrite_id q f k (u ∷ users) p = ground (arith, k u, any-rewrite_id q f k users p)

-- A change of rows that keeps their ids keeps the managers that they have.
rewritten-HasManager :
    (q : User → Bool) (f : User → User) (users : List User)
    → ((u : User) → (f u).id ≡ u.id)
    → ((u : User) → HasManager users u → HasManager users (f u))
    → All (HasManager users) users
    → All (HasManager (rewrite q f users)) (rewrite q f users)
rewritten-HasManager q f users k g h =
    All-map (HasManager users) (HasManager (rewrite q f users))
      (λ u has p e. any-rewrite_id q f k users p ∙ has p e) (rewrite q f users)
      (All-rewrite q f (HasManager users) (HasManager users)
        (λ u has. elim (Bool-cases (q u)) [ inl y ↦ rw y (g u has) | inr o ↦ rw o has ]) users h)

pub added-IsTree :
    (next : ℕ) (users : List User) (row : User)
    → row.id ≡ next
    → refers_to (λ (m : User). m.id) users row.manager_id ≡ true
    → IsTree next users
    → IsTree (next + 1) (users ++ row ∷ [])
added-IsTree next users row e known t =
    let manager = known_manager next users row.manager_id t.ids known in
    record {
      ids = IsTable-snoc (λ (u : User). u.id) next users row e t.ids;
      managers =
          All-append (HasManager (users ++ row ∷ [])) users (row ∷ [])
            (All-map (HasManager users) (HasManager (users ++ row ∷ []))
              (λ u h m k. any-snoc_id users row m (h m k)) users t.managers)
            (λ m k. any-snoc_id users row m (referred users row.manager_id known m k), tt);
      no_loop =
          NoLoop-added users row
            (subst (λ n. All (ManagerBelow n) users) (sym e)
              (below_next next users t.ids t.managers))
            (λ p k. rw e (manager p k)) t.no_loop;
    }

pub edited-IsTree :
    (next : ℕ) (users : List User) (row : User)
    → refers_to (λ (m : User). m.id) users row.manager_id ≡ true
    → ((p : ℕ) → row.manager_id ≡ some p → ¬ AtOrBelow users row.id p)
    → IsTree next users
    → IsTree next (rewrite (is_user row.id) (with_details row) users)
edited-IsTree next users row known above t = record {
  ids =
      IsTable-rewrite (λ (u : User). u.id) next (is_user row.id) (with_details row) users
        (λ a. ground arith) t.ids;
  managers =
      rewritten-HasManager (is_user row.id) (with_details row) users (λ u. refl)
        (λ u h. referred users row.manager_id known) t.managers;
  no_loop = NoLoop-replaced users row above t.no_loop;
}

pub left-IsTree :
    (now : Instant) (id next : ℕ) (users : List User) (leaver : User)
    → find (is_user id) users ≡ some leaver
    → IsTree next users
    → IsTree next (without_user now id leaver.manager_id users)
unfolding without_user
left-IsTree now id next users leaver found t =
    let moved = under_manager leaver.manager_id in
    let boss : HasManager users leaver =
      find-All (is_user id) (HasManager users) users t.managers found in
    record {
      ids =
          IsTable-rewrite (λ (u : User). u.id) next (is_user id) (deleted_now now) _
            (λ a. ground arith)
            (IsTable-rewrite (λ (u : User). u.id) next (is_report_of id) moved users
              (λ a. ground arith) t.ids);
      managers =
          rewritten-HasManager (is_user id) (deleted_now now) _ (λ u. refl) (λ u h. h)
            (rewritten-HasManager (is_report_of id) moved users (λ u. refl) (λ u h. boss)
              t.managers);
      no_loop = NoLoop-left now id users leaver found t.no_loop;
    }

pub role-IsTree :
    (id : ℕ) (role : Role) (next : ℕ) (users : List User)
    → IsTree next users
    → IsTree next (rewrite (is_user id) (with_role role) users)
role-IsTree id role next users t = record {
  ids =
      IsTable-rewrite (λ (u : User). u.id) next (is_user id) (with_role role) users
        (λ a. ground arith) t.ids;
  managers =
      rewritten-HasManager (is_user id) (with_role role) users (λ u. refl) (λ u h. h) t.managers;
  no_loop = NoLoop-role users id role t.no_loop;
}
