-- ===== src/User/Leaver.antt =====
-- The hierarchy after `SoftDelete` of user/repository.go.
use attendance_system.Prelude.{
  subst, ℕ, suc, ◌≡◌, refl, sym, ap, ◌∙◌, ◌≢◌, ◌↔◌, ◌⊎◌, inl, inr, Bool, true, false, Option, none,
  some, List, [], ◌∷◌, arith, ◌==◌, Bool-cases, get_elem?, find, rewrite, updated, find-holds,
  HasKey, find-of_listed, find-by_key,
}
use attendance_system.Time.{Instant}
use attendance_system.User.Rows.{User}
use attendance_system.User.Hierarchy.{is_live}
use attendance_system.User.Below.{ReportsTo, Below}
use attendance_system.User.Store.{is_user, is_report_of, under_manager, deleted_now}
use attendance_system.User.Moves.{
  get_elem?-rewrite, rewrite-get_elem?, chain, NoLoop, AtOrBelow, down,
}

pub find-listed {ℓ} :
    {A : Type ℓ} (p : A → Bool) (xs : List A) (x : A)
    → find p xs ≡ some x
    → (n : ℕ) × (get_elem? xs n ≡ some x)
find-listed p [] x e = absurd (cc)
find-listed p (y ∷ xs) x e = elim (Bool-cases (p y)) [
  | inl t ↦ (0, ground arith)
  | inr o ↦ let (n, l) = find-listed p xs x (ground arith) in (suc n, l)
]

reports_of :
    (id : ℕ) (u : User) → is_report_of id u ≡ true → (is_live u ≡ true) × (u.manager_id ≡ some id)
reports_of id u h = go u.manager_id refl
  where
    go : (m : Option ℕ) → u.manager_id ≡ m → (is_live u ≡ true) × (u.manager_id ≡ some id)
    go none e = absurd (ground arith)
    go (some m) e = (ground arith, e ∙ ap some (ground arith))

not_report :
    (id : ℕ) (u : User) (p : ℕ) → u.manager_id ≡ some p → p ≢ id → is_report_of id u ≡ false
not_report id u p e n = rw e (ground arith)

module _ (now : Instant) (id : ℕ) (users : List User) (leaver : User)
    (found : find (is_user id) users ≡ some leaver) where
  abbrev left_users : List User
  left_users =
      rewrite (is_user id) (deleted_now now)
        (rewrite (is_report_of id) (under_manager leaver.manager_id) users)

  leaver_row : (p : ℕ) → leaver.manager_id ≡ some p → ReportsTo users p id
  leaver_row p e =
      let (n, l) = find-listed (is_user id) users leaver found in
      let hit = find-holds (is_user id) users found in
      record {
        index = n;
        user = leaver;
        listed = l;
        live = ground arith;
        manager_is = e;
        id_is = ground arith;
      }

  -- A step down afterwards was a way down before.
  ReportsTo-before : (p c : ℕ) → ReportsTo left_users p c → Below users p c × (c ≢ id)
  ReportsTo-before p c r =
      let (y, ly, sy) =
        rewrite-get_elem? (is_user id) (deleted_now now)
          (rewrite (is_report_of id) (under_manager leaver.manager_id) users) r.index r.user
          r.listed in
      let (x, lx, sx) =
        rewrite-get_elem? (is_report_of id) (under_manager leaver.manager_id) users r.index y ly in
      elim (Bool-cases (is_user id y)) [
        | inl t ↦
            let y_is : deleted_now now y ≡ r.user = rw (t) at sy in
            absurd (ground (arith, r.live, ap is_live y_is))
        | inr o ↦
            let y_is : y ≡ r.user = rw (o) at sy in
            let live : is_live y ≡ true = ap is_live y_is ∙ r.live in
            let its_id : y.id ≡ c = ap (λ (u : User). u.id) y_is ∙ r.id_is in
            let boss : y.manager_id ≡ some p =
              ap (λ (u : User). u.manager_id) y_is ∙ r.manager_is in
            let other : c ≢ id = λ e. ground (arith, its_id) in
            elim (Bool-cases (is_report_of id x)) [
              | inl t ↦
                  let x_is : under_manager leaver.manager_id x ≡ y = rw (t) at sx in
                  let (x_live, x_boss) = reports_of id x t in
                  (
                    Below.under
                        (Below.directly
                          (leaver_row p (ap (λ (u : User). u.manager_id) x_is ∙ boss)))
                        (record {
                          index = r.index;
                          user = x;
                          listed = lx;
                          live = x_live;
                          manager_is = x_boss;
                          id_is = ap (λ (u : User). u.id) x_is ∙ its_id;
                        }),
                    other,
                  )
              | inr n ↦
                  let x_is : x ≡ y = rw (n) at sx in
                  (
                    Below.directly (record {
                      index = r.index;
                      user = y;
                      listed = lx ∙ ap some x_is;
                      live = live;
                      manager_is = boss;
                      id_is = its_id;
                    }),
                    other,
                  )
            ]
      ]

  Below-before : (a b : ℕ) → Below left_users a b → Below users a b × (b ≢ id)
  Below-before a b (Below.directly r) = ReportsTo-before a b r
  Below-before a b (Below.under {m = c} k r) =
      let (one, other) = ReportsTo-before c b r in (chain (Below-before a c k).0 one, other)

  -- A row that stays, with the manager that it has afterwards.
  ReportsTo-after :
      (p q c : ℕ)
      → ReportsTo users p c
      → c ≢ id
      → ((p ≢ id) × (q ≡ p)) ⊎ ((p ≡ id) × (leaver.manager_id ≡ some q))
      → ReportsTo left_users q c
  ReportsTo-after p q c r other way =
      let step = under_manager leaver.manager_id in
      let listed1 = get_elem?-rewrite (is_report_of id) step users r.index r.user r.listed in
      let listed2 =
        get_elem?-rewrite (is_user id) (deleted_now now) (rewrite (is_report_of id) step users)
          r.index (updated (is_report_of id) step r.user) listed1 in
      elim way [
        | inl (n, e) ↦
            let stays = not_report id r.user p r.manager_is n in
            let here : is_user id r.user ≡ false = ground (arith, r.id_is) in
            record {
              index = r.index;
              user = r.user;
              listed = rw (stays, here) at listed2;
              live = r.live;
              manager_is = r.manager_is ∙ ap some (sym e);
              id_is = r.id_is;
            }
        | inr (e, l) ↦
            let moves : is_report_of id r.user ≡ true = rw (r.live, r.manager_is) (ground arith) in
            let here : is_user id (step r.user) ≡ false = ground (arith, r.id_is) in
            record {
              index = r.index;
              user = step r.user;
              listed = rw (moves, here) at listed2;
              live = r.live;
              manager_is = l;
              id_is = r.id_is;
            }
      ]

  module _ (keys : HasKey (λ (u : User). u.id) users) (tree : NoLoop users) where
    leaver_boss : (p : ℕ) → ReportsTo users p id → leaver.manager_id ≡ some p
    leaver_boss p r =
        let hit = find-holds (is_user id) users found in
        let same_id : r.user.id ≡ leaver.id = ground (arith, r.id_is) in
        let by_id = find-by_key (λ (u : User). u.id) (is_user id) users keys found in
        let by_row = find-of_listed (λ (u : User). u.id) users r.index r.user keys r.listed in
        let same : leaver ≡ r.user = ground (arith, sym by_id ∙ rw same_id at by_row) in
        ap (λ (u : User). u.manager_id) same ∙ r.manager_is

    -- Where a way down leads once the leaver is gone: on to the same person, or for the leaver to
    -- the leaver's manager.
    Led : ℕ → ℕ → Type 0
    Led a b =
        (b ≢ id → Below left_users a b)
        × (b ≡ id → (q : ℕ) × (leaver.manager_id ≡ some q) × AtOrBelow left_users a q)

    Below-after : (a b : ℕ) → a ≢ id → Below users a b → Led a b
    unfolding Led
    Below-after a b n (Below.directly r) = (
      λ m. Below.directly (ReportsTo-after a a b r m (inl (n, refl))),
      λ e. (a, leaver_boss a (subst (λ x. ReportsTo users a x) e r), inl refl),
    )
    Below-after a b n (Below.under {m = c} k r) =
        let led = Below-after a c n k in
        (
          λ m. elim (Bool-cases (c == id)) [
            | inl t ↦
                let (q, l, to) = led.1 (ground arith) in
                down to (ReportsTo-after c q b r m (inr (ground arith, l)))
            | inr o ↦
                Below.under (led.0 (ground arith))
                  (ReportsTo-after c c b r m (inl (ground arith, refl)))
          ],
          λ e.
              let r' : ReportsTo users c id = subst (λ x. ReportsTo users c x) e r in
              let other : c ≢ id =
                λ f. tree id (Below.directly (subst (λ x. ReportsTo users x id) f r')) in
              (c, leaver_boss c r', inr (led.0 other)),
        )

  pub NoLoop-left : NoLoop users → NoLoop left_users
  NoLoop-left tree x loop = tree x ((Below-before x x loop).0)

  -- Everybody but the leaver keeps whoever was below them.
  pub Below-left :
      HasKey (λ (u : User). u.id) users
      → NoLoop users
      → (a b : ℕ) → a ≢ id
      → b ≢ id
      → Below users a b ↔ Below left_users a b
  unfolding Led
  Below-left keys tree a b n m =
      (λ k. (Below-after keys tree a b n k).0 m, λ k. (Below-before a b k).0)

  pub leaver-gone : (a : ℕ) → ¬ Below left_users a id
  leaver-gone a k = (Below-before a id k).1 refl
