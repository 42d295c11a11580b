-- ===== src/Schedule/Weekdays.antt =====
-- The weekdays of a schedule (schedule/validation.go `checkWorkdays`).
use attendance_system.Prelude.{
  subst, ℕ, ◌≤◌, ◌<◌, ◌≡◌, refl, ◌∙◌, inl, inr, Bool, ◌&&◌, ◌||◌, List, [], ◌∷◌, map, arith,
  Bool-cases, any, All, ok, ◌>>=◌, >>=-elim, ℤ, pos, pos_part, neg_part, ◌<ℤ◌, ltb_ℤ, leb_ℤ,
  eq_of_parts,
}
use attendance_system.Schedule.Validation.{days, insert_day, sort_compact, narrow, check_workdays}

-- Each before all that follow, so in order and without repeats.
abbrev pub Ascending : List ℤ → Type 0
Ascending [] = Unit
Ascending (x ∷ xs) = All (λ y. x <ℤ y) xs × Ascending xs

abbrev pub Increasing : List ℕ → Type 0
Increasing [] = Unit
Increasing (x ∷ xs) = All (λ y. x < y) xs × Increasing xs

abbrev pub is_in : ℤ → List ℤ → Bool
is_in x ys = any (λ y. leb_ℤ x y && leb_ℤ y x) ys

All-insert_day :
    (low x : ℤ) (xs : List ℤ)
    → low <ℤ x
    → All (λ y. low <ℤ y) xs
    → All (λ y. low <ℤ y) (insert_day x xs)
unfolding insert_day
All-insert_day low x [] h a = (h, tt)
All-insert_day low x (y ∷ ys) h a =
    let ih = All-insert_day low x ys h (a.1) in
    elim (Bool-cases (ltb_ℤ x y)) [
      | inl p ↦ rw (p) (h, a)
      | inr p ↦ elim (Bool-cases (leb_ℤ x y)) [ inl q ↦ rw (p, q) a | inr q ↦ rw (p, q) (a.0, ih) ]
    ]

-- What is above x is above what is below x.
All-above : (x y : ℤ) (ys : List ℤ) → x <ℤ y → All (λ z. y <ℤ z) ys → All (λ z. x <ℤ z) ys
All-above x y [] h a = tt
All-above x y (z ∷ zs) h a = (omega (arith, a.0), All-above x y zs h (a.1))

insert_day-Ascending : (x : ℤ) (xs : List ℤ) → Ascending xs → Ascending (insert_day x xs)
unfolding insert_day
insert_day-Ascending x [] a = (tt, tt)
insert_day-Ascending x (y ∷ ys) a =
    let ih = insert_day-Ascending x ys (a.1) in
    elim (Bool-cases (ltb_ℤ x y)) [
      | inl p ↦ rw (p) ((ground arith, All-above x y ys (ground arith) (a.0)), a)
      | inr p ↦ elim (Bool-cases (leb_ℤ x y)) [
        | inl q ↦ rw (p, q) a
        | inr q ↦ rw (p, q) (All-insert_day y x ys (ground arith) (a.0), ih)
      ]
    ]

sort_compact-Ascending : (xs : List ℤ) → Ascending (sort_compact xs)
unfolding sort_compact
sort_compact-Ascending [] = tt
sort_compact-Ascending (x ∷ xs) =
    insert_day-Ascending x (sort_compact xs) (sort_compact-Ascending xs)

is_in-insert_day : (z x : ℤ) (xs : List ℤ) → is_in z (insert_day x xs) ≡ is_in z (x ∷ xs)
unfolding insert_day
is_in-insert_day z x [] = refl
is_in-insert_day z x (y ∷ ys) =
    let ih = is_in-insert_day z x ys in
    elim (Bool-cases (ltb_ℤ x y)) [
      | inl p ↦ rw (p) refl
      | inr p ↦ elim (Bool-cases (leb_ℤ x y)) [
        | inl q ↦ rw (p, q) (ground arith)
        | inr q ↦ rw (p, q, ih) (ground arith)
      ]
    ]

is_in-sort_compact : (z : ℤ) (xs : List ℤ) → is_in z (sort_compact xs) ≡ is_in z xs
unfolding sort_compact
is_in-sort_compact z [] = refl
is_in-sort_compact z (x ∷ xs) =
    is_in-insert_day z x (sort_compact xs) ∙ rw (is_in-sort_compact z xs) refl

record Narrowed (xs : List ℤ) (days : List ℕ) : Type 0 where
  same : (z : ℤ) → is_in z (map pos days) ≡ is_in z xs
  above : (low : ℕ) → All (λ y. pos low <ℤ y) xs → All (λ y. low < y) days
  order : Ascending xs → Increasing days
  bounds : All (λ n. (1 ≤ n) × (n ≤ 7)) days

narrow-Narrowed : (xs : List ℤ) (days : List ℕ) → narrow xs ≡ ok days → Narrowed xs days
unfolding narrow
narrow-Narrowed [] days h =
    let e : [] ≡ days = ground arith in
    subst (Narrowed []) e
      (record { same = λ z. refl; above = λ low a. tt; order = λ a. tt; bounds = tt })
narrow-Narrowed (x ∷ xs) days h = elim (Bool-cases (ltb_ℤ x (pos 1) || ltb_ℤ (pos 7) x)) [
  | inl p ↦ absurd (ground arith)
  | inr p ↦
      let h0 : (narrow xs >>= λ ds. ok (pos_part x ∷ ds)) ≡ ok days = ground arith in
      >>=-elim (narrow xs) (λ ds. ok (pos_part x ∷ ds)) h0
        λ ds e h1.
          let ih = narrow-Narrowed xs ds e in
          let xe : neg_part x ≡ 0 = ground arith in
          let de : pos_part x ∷ ds ≡ days = ground arith in
          subst (Narrowed (x ∷ xs)) de (record {
            same = λ z. rw (xe, ih.same z) refl;
            above = λ low a. (ground (arith, a.0), ih.above low (a.1));
            order = λ a. (
              ih.above (pos_part x) (
                  subst (λ w. All (λ y. w <ℤ y) xs)
                    (eq_of_parts x (pos (pos_part x)) (ground (arith, xe))) (a.0)),
              ih.order (a.1),
            );
            bounds = ((ground arith, ground arith), ih.bounds);
          })
]

-- What is asked of the weekdays of a schedule.
pub record GoodWeekdays (sent : List ℤ) (days : List ℕ) : Type 0 where
  pub order : Increasing days
  pub bounds : All (λ n. (1 ≤ n) × (n ≤ 7)) days
  pub same : (z : ℤ) → is_in z (map pos days) ≡ is_in z sent

-- The weekdays that are kept are in order, without repeats and from 1 to 7, and they are the
-- weekdays that were sent.
pub check_workdays-GoodWeekdays :
    (sent : List ℤ) (days : List ℕ) → check_workdays sent ≡ ok days → GoodWeekdays sent days
unfolding check_workdays
check_workdays-GoodWeekdays [] days h = absurd (ground arith)
check_workdays-GoodWeekdays (x ∷ xs) days h =
    let n = narrow-Narrowed (sort_compact (x ∷ xs)) days h in
    record {
      order = n.order (sort_compact-Ascending (x ∷ xs));
      bounds = n.bounds;
      same = λ z. n.same z ∙ is_in-sort_compact z (x ∷ xs);
    }
