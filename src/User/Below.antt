-- ===== src/User/Below.antt =====
-- The recursive query `SubtreeQuery` (user/repository.go) against the relation that it computes.
use attendance_system.Prelude.{
  subst, ℕ, zero, suc, ◌+◌, ◌-◌, ◌≤◌, ◌<◌, ◌≡◌, refl, sym, ◌∙◌, ◌↔◌, ◌⊎◌, inl, inr, Bool, true, not,
  ◌&&◌, ◌||◌, Option, none, some, List, [], ◌∷◌, map, arith, ◌==◌, Bool-cases, length, get_elem?,
  any, all, keep, total, Found, any-Found, any-of_listed, any_mono, all-of_listed, total-le_length,
  total-grows,
}
use attendance_system.User.Rows.{User}
use attendance_system.User.Hierarchy.{
  is_live, holds, reports_to, next_level, rounds, subtree, in_subtree,
}
use attendance_system.Db.{Db}

-- A live user of the table whose manager is that one.
pub record ReportsTo (users : List User) (manager id : ℕ) : Type 0 where
  pub index : ℕ
  pub user : User
  pub listed : get_elem? users index ≡ some user
  pub live : is_live user ≡ true
  pub manager_is : user.manager_id ≡ some manager
  pub id_is : user.id ≡ id

-- Below a manager: a chain of live users, each of whom reports to the one before.
pub data Below (users : List User) (manager : ℕ) : ℕ → Type 0 where
  directly : {id : ℕ} → ReportsTo users manager id → Below users manager id
  under : {m id : ℕ} → Below users manager m → ReportsTo users m id → Below users manager id

-- Membership in one round, as a test of the users.
holds-map-keep :
    (p : User → Bool) (users : List User) (id : ℕ)
    → holds (map (λ (u : User). u.id) (keep p users)) id ≡ any (λ u. p u && (u.id == id)) users
holds-map-keep p [] id = refl
holds-map-keep p (u ∷ users) id = ground (arith, holds-map-keep p users id)

holds-next_level :
    (users : List User) (manager : ℕ) (found : List ℕ) (id : ℕ)
    → holds (next_level users manager found) id
      ≡ any (λ u. reports_to (manager ∷ found) u && (u.id == id)) users
unfolding next_level
holds-next_level users manager found id = holds-map-keep (reports_to (manager ∷ found)) users id

abbrev Includes : List ℕ → List ℕ → Type 0
Includes f g = (x : ℕ) → holds f x ≡ true → holds g x ≡ true

reports_to_mono :
    (f g : List ℕ) (u : User) → Includes f g → reports_to f u ≡ true → reports_to g u ≡ true
reports_to_mono f g u i h = go u.manager_id refl
  where
    go : (m : Option ℕ) → u.manager_id ≡ m → reports_to g u ≡ true
    go none e = absurd (ground arith)
    go (some m) e =
        let live : is_live u ≡ true = ground arith in
        let held : holds f m ≡ true = ground arith in rw (live, e, i m held) refl

next_level_mono :
    (users : List User) (manager : ℕ) (f g : List ℕ)
    → Includes f g
    → Includes (next_level users manager f) (next_level users manager g)
next_level_mono users manager f g i x h =
    let both : Includes (manager ∷ f) (manager ∷ g) = λ y k. ground (arith, i y) in
    holds-next_level users manager g x
    ∙ any_mono (λ u. reports_to (manager ∷ f) u && (u.id == x))
        (λ u. reports_to (manager ∷ g) u && (u.id == x)) users
        (λ u k. ground (arith, reports_to_mono (manager ∷ f) (manager ∷ g) u both))
        (sym (holds-next_level users manager f x) ∙ h)

rounds_mono :
    (n : ℕ) (users : List User) (manager : ℕ)
    → Includes (rounds n users manager) (rounds (suc n) users manager)
unfolding rounds
rounds_mono zero users manager x h = absurd (cc)
rounds_mono (suc n) users manager x h =
    next_level_mono users manager (rounds n users manager) (rounds (suc n) users manager)
      (rounds_mono n users manager) x h

-- Who is in a round reports to the manager or to one of the round before.
next_level-ReportsTo :
    (users : List User) (manager : ℕ) (found : List ℕ) (id : ℕ)
    → holds (next_level users manager found) id ≡ true
    → (m : ℕ) × (holds (manager ∷ found) m ≡ true) × ReportsTo users m id
next_level-ReportsTo users manager found id h =
    let f =
      any-Found (λ u. reports_to (manager ∷ found) u && (u.id == id)) users
        (sym (holds-next_level users manager found id) ∙ h) in
    go f f.item.manager_id refl
  where
    go :
        (f : Found (λ u. reports_to (manager ∷ found) u && (u.id == id)) users) (m : Option ℕ)
        → f.item.manager_id ≡ m
        → (m : ℕ) × (holds (manager ∷ found) m ≡ true) × ReportsTo users m id
    go f none e = absurd (ground (arith, f.accepted))
    go f (some m) e = (
      m,
      ground (arith, f.accepted),
      record {
        index = f.index;
        user = f.item;
        listed = f.listed;
        live = ground (arith, f.accepted);
        manager_is = e;
        id_is = ground (arith, f.accepted);
      },
    )

ReportsTo-next_level :
    (users : List User) (manager : ℕ) (found : List ℕ) (m id : ℕ)
    → holds (manager ∷ found) m ≡ true
    → ReportsTo users m id
    → holds (next_level users manager found) id ≡ true
ReportsTo-next_level users manager found m id h r =
    let reported : reports_to (manager ∷ found) r.user ≡ true = rw (r.live, r.manager_is, h) refl in
    holds-next_level users manager found id
    ∙ any-of_listed (λ u. reports_to (manager ∷ found) u && (u.id == id)) users r.index r.user
        r.listed (ground (arith, reported, r.id_is))

rounds-Below :
    (n : ℕ) (users : List User) (manager id : ℕ)
    → holds (rounds n users manager) id ≡ true
    → Below users manager id
unfolding rounds
rounds-Below zero users manager id h = absurd (cc)
rounds-Below (suc n) users manager id h =
    let (m, held, r) = next_level-ReportsTo users manager (rounds n users manager) id h in
    elim (Bool-cases (manager == m)) [
      | inl y ↦
          let same : m ≡ manager = ground arith in
          Below.directly (subst (λ k. ReportsTo users k id) same r)
      | inr o ↦ Below.under (rounds-Below n users manager m (ground arith)) r
    ]

-- A round after which the query finds nobody new.
abbrev Stable : List User → ℕ → ℕ → Type 0
Stable users manager n = Includes (rounds (suc n) users manager) (rounds n users manager)

Below-rounds :
    (n : ℕ) (users : List User) (manager id : ℕ)
    → Stable users manager n
    → Below users manager id
    → holds (rounds n users manager) id ≡ true
unfolding rounds
Below-rounds n users manager id s (Below.directly r) =
    s id (ReportsTo-next_level users manager (rounds n users manager) manager id (ground arith) r)
Below-rounds n users manager id s (Below.under {m = m} b r) =
    let held = Below-rounds n users manager m s b in
    s id (ReportsTo-next_level users manager (rounds n users manager) m id (ground arith) r)

-- The users that a round has found.
abbrev count : List User → ℕ → ℕ → ℕ
count users manager n = total (λ (u : User). holds (rounds n users manager) u.id) (λ _. 1) users

abbrev keeps_up : List User → ℕ → ℕ → User → Bool
keeps_up users manager n u =
    not (holds (rounds (suc n) users manager) u.id) || holds (rounds n users manager) u.id

keeps_up-Stable :
    (users : List User) (manager n : ℕ)
    → all (keeps_up users manager n) users ≡ true
    → Stable users manager n
unfolding rounds
keeps_up-Stable users manager n h x k =
    let (m, held, r) = next_level-ReportsTo users manager (rounds n users manager) x k in
    let kept = all-of_listed (keeps_up users manager n) users r.index r.user h r.listed in
    let found : holds (rounds (suc n) users manager) r.user.id ≡ true =
      subst (λ y. holds (rounds (suc n) users manager) y ≡ true) (sym r.id_is) k in
    subst (λ y. holds (rounds n users manager) y ≡ true) r.id_is (ground arith)

-- Each round is stable or finds somebody new, so one of n rounds is stable or n users are found.
Stable-or_found :
    (users : List User) (manager n : ℕ)
    → ((m : ℕ) × (m < n) × Stable users manager m) ⊎ (n ≤ count users manager n)
Stable-or_found users manager zero = inr (omega arith)
Stable-or_found users manager (suc n) = elim (Stable-or_found users manager n) [
  | inl (m, b, s) ↦ inl (m, omega arith, s)
  | inr c ↦ elim (Bool-cases (all (keeps_up users manager n) users)) [
    | inl y ↦ inl (n, omega arith, keeps_up-Stable users manager n y)
    | inr o ↦
        let more =
          total-grows (λ (u : User). holds (rounds n users manager) u.id)
            (λ (u : User). holds (rounds (suc n) users manager) u.id)
            (λ u. rounds_mono n users manager u.id) users o in
        inr (omega (arith, more, c))
  ]
]

rounds-le :
    (m k : ℕ) (users : List User) (manager : ℕ)
    → Includes (rounds m users manager) (rounds (k + m) users manager)
rounds-le m zero users manager x h =
    let same : m ≡ 0 + m = omega arith in
    subst (λ n. holds (rounds n users manager) x ≡ true) same h
rounds-le m (suc k) users manager x h =
    let same : suc (k + m) ≡ suc k + m = omega arith in
    subst (λ n. holds (rounds n users manager) x ≡ true) same
      (rounds_mono (k + m) users manager x (rounds-le m k users manager x h))

Below-subtree :
    (users : List User) (manager id : ℕ)
    → Below users manager id
    → holds (subtree users manager) id ≡ true
unfolding subtree
Below-subtree users manager id b = elim (Stable-or_found users manager (suc (length users))) [
  | inl (m, le, s) ↦
      let there : (length users - m) + m ≡ length users = omega (arith, le) in
      subst (λ n. holds (rounds n users manager) id ≡ true) there
        (rounds-le m (length users - m) users manager id (Below-rounds m users manager id s b))
  | inr c ↦
      let bound =
        total-le_length (λ (u : User). holds (rounds (suc (length users)) users manager) u.id)
          users in
      absurd (omega (arith, c, bound))
]

-- The query holds a person exactly when a chain of live users leads from the manager down to them,
-- each reporting to the one before, however long it is and also where managers go in a circle: as
-- many rounds as there are users are enough.
pub in_subtree-Below :
    (db : Db) (manager user : ℕ) → (in_subtree db manager user ≡ true) ↔ Below db.users manager user
unfolding in_subtree subtree
in_subtree-Below db manager user =
    (rounds-Below (length db.users) db.users manager user, Below-subtree db.users manager user)
