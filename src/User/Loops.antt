-- ===== src/User/Loops.antt =====
-- Why no write of user/service.go makes the hierarchy a loop.
use attendance_system.Prelude.{
  ℕ, zero, suc, ◌<◌, ◌≡◌, refl, sym, ap, ◌∙◌, ◌⊎◌, inl, inr, Option, none, some, List, [], ◌∷◌,
  ◌++◌, arith, Bool-cases, get_elem?, rewrite, All, updated, All-of_listed,
}
use attendance_system.User.Rows.{User}
use attendance_system.User.Below.{ReportsTo, Below}
use attendance_system.User.Store.{is_user, with_details, with_role}
use attendance_system.User.Moves.{rewrite-get_elem?, NoLoop, AtOrBelow, down, at_or_chain}
use attendance_system.Access.{Role}
use attendance_system.User.Hierarchy.{is_live}

-- The change of one person's manager: every step down is an old one or the new one, and the new
-- manager is not at or below that person.
module _ (users users' : List User) (id : ℕ) (manager : Option ℕ)
    (old_or_new : (p c : ℕ)
      → ReportsTo users' p c
      → ReportsTo users p c ⊎ ((c ≡ id) × (manager ≡ some p)))
    (above : (p : ℕ) → manager ≡ some p → ¬ AtOrBelow users id p) where
  abbrev Through : ℕ → ℕ → Type 0
  Through a b = (p : ℕ) × (manager ≡ some p) × AtOrBelow users a p × AtOrBelow users id b

  -- A way down uses the new step once at most.
  once : (a b : ℕ) → Below users' a b → Below users a b ⊎ Through a b
  once a b (Below.directly r) = elim (old_or_new a b r) [
    | inl o ↦ inl (Below.directly o)
    | inr (e, h) ↦ inr (a, h, inl refl, inl (sym e))
  ]
  once a b (Below.under {m = c} k r) = elim (once a c k) [
    | inl below ↦ elim (old_or_new c b r) [
      | inl o ↦ inl (Below.under below o)
      | inr (e, h) ↦ inr (c, h, inr below, inl (sym e))
    ]
    | inr (p, h, up, dn) ↦ elim (old_or_new c b r) [
      | inl o ↦ inr (p, h, up, inr (down dn o))
      | inr (e, h') ↦ absurd (above c h' dn)
    ]
  ]

  pub NoLoop-changed : NoLoop users → NoLoop users'
  NoLoop-changed none_yet x loop = elim (once x x loop) [
    | inl k ↦ none_yet x k
    | inr (p, h, up, dn) ↦ above p h (at_or_chain dn up)
  ]

ReportsTo-replaced :
    (users : List User) (next : User) (p c : ℕ)
    → ReportsTo (rewrite (is_user next.id) (with_details next) users) p c
    → ReportsTo users p c ⊎ ((c ≡ next.id) × (next.manager_id ≡ some p))
ReportsTo-replaced users next p c r =
    let (x, listed, same) =
      rewrite-get_elem? (is_user next.id) (with_details next) users r.index r.user r.listed in
    elim (Bool-cases (is_user next.id x)) [
      | inl t ↦
          let y_is : with_details next x ≡ r.user = rw (t) at same in
          inr (
            sym r.id_is ∙ ap (λ (u : User). u.id) (sym y_is) ∙ ground arith,
            ap (λ (u : User). u.manager_id) y_is ∙ r.manager_is,
          )
      | inr o ↦
          let y_is : x ≡ r.user = rw (o) at same in
          inl (record {
            index = r.index;
            user = r.user;
            listed = listed ∙ ap some y_is;
            live = r.live;
            manager_is = r.manager_is;
            id_is = r.id_is;
          })
    ]

-- Nobody's manager has an id that is still to come.
abbrev pub ManagerBelow : ℕ → User → Type 0
ManagerBelow next u = (m : ℕ) → u.manager_id ≡ some m → m < next

get_elem?-snoc {ℓ} :
    {A : Type ℓ} (xs : List A) (y : A) (n : ℕ) (r : A)
    → get_elem? (xs ++ y ∷ []) n ≡ some r
    → (get_elem? xs n ≡ some r) ⊎ (y ≡ r)
get_elem?-snoc [] y zero r e = inr (ground arith)
get_elem?-snoc [] y (suc n) r e = absurd (cc)
get_elem?-snoc (x ∷ xs) y zero r e = inl e
get_elem?-snoc (x ∷ xs) y (suc n) r e = get_elem?-snoc xs y n r e

ReportsTo-added :
    (users : List User) (row : User) (p c : ℕ)
    → ReportsTo (users ++ row ∷ []) p c
    → ReportsTo users p c ⊎ ((c ≡ row.id) × (row.manager_id ≡ some p))
ReportsTo-added users row p c r = elim (get_elem?-snoc users row r.index r.user r.listed) [
  | inl e ↦ inl (record {
    index = r.index;
    user = r.user;
    listed = e;
    live = r.live;
    manager_is = r.manager_is;
    id_is = r.id_is;
  })
  | inr e ↦ inr (
    sym r.id_is ∙ ap (λ (u : User). u.id) (sym e),
    ap (λ (u : User). u.manager_id) e ∙ r.manager_is,
  )
]

no_report :
    (users : List User) (next : ℕ) → All (ManagerBelow next) users → (p : ℕ) → ¬ Below users next p
no_report users next h p (Below.directly r) =
    omega
      (arith, All-of_listed (ManagerBelow next) users r.index r.user h r.listed next r.manager_is)
no_report users next h p (Below.under {m = m} k r) = no_report users next h m k

-- An id that is still to come is not above anybody.
pub fresh-above :
    (users : List User) (next : ℕ)
    → All (ManagerBelow next) users
    → (p : ℕ) → p < next
    → ¬ AtOrBelow users next p
fresh-above users next h p l (inl e) = omega (arith, e)
fresh-above users next h p l (inr k) = no_report users next h p k

pub NoLoop-replaced :
    (users : List User) (next : User)
    → ((p : ℕ) → next.manager_id ≡ some p → ¬ AtOrBelow users next.id p)
    → NoLoop users
    → NoLoop (rewrite (is_user next.id) (with_details next) users)
NoLoop-replaced users next above n =
    NoLoop-changed users _ next.id next.manager_id (ReportsTo-replaced users next) above n

pub NoLoop-added :
    (users : List User) (row : User)
    → All (ManagerBelow row.id) users
    → ((p : ℕ) → row.manager_id ≡ some p → p < row.id)
    → NoLoop users
    → NoLoop (users ++ row ∷ [])
NoLoop-added users row h l n =
    NoLoop-changed users _ row.id row.manager_id (ReportsTo-added users row)
      (λ p e. fresh-above users row.id h p (l p e)) n

ReportsTo-role :
    (users : List User) (id : ℕ) (role : Role) (p c : ℕ)
    → ReportsTo (rewrite (is_user id) (with_role role) users) p c
    → ReportsTo users p c
ReportsTo-role users id role p c r =
    let (x, listed, same) =
      rewrite-get_elem? (is_user id) (with_role role) users r.index r.user r.listed in
    record {
      index = r.index;
      user = x;
      listed = listed;
      live = kept is_live x (ground arith) ∙ ap is_live same ∙ r.live;
      manager_is =
          kept (λ u. u.manager_id) x (ground arith)
          ∙ ap (λ (u : User). u.manager_id) same
          ∙ r.manager_is;
      id_is = kept (λ u. u.id) x (ground arith) ∙ ap (λ (u : User). u.id) same ∙ r.id_is;
    }
  where
    kept :
        {A : Type 0} (g : User → A) (x : User)
        → g (with_role role x) ≡ g x
        → g x ≡ g (updated (is_user id) (with_role role) x)
    kept g x e = elim (Bool-cases (is_user id x)) [ inl t ↦ rw t (sym e) | inr o ↦ rw o refl ]

-- A role changes no way down.
pub NoLoop-role :
    (users : List User) (id : ℕ) (role : Role)
    → NoLoop users
    → NoLoop (rewrite (is_user id) (with_role role) users)
NoLoop-role users id role n =
    NoLoop-changed users _ id none (λ p c r. inl (ReportsTo-role users id role p c r))
      (λ p e. absurd (ground arith)) n
