-- ===== src/Attendance/Picking.antt =====
-- The shift that a check-in belongs to (attendance/shift.go `pickShift`).
use attendance_system.Prelude.{
  subst, ℕ, suc, ◌+◌, ◌*◌, ◌≤◌, ◌≡◌, refl, sym, ap, ◌∙◌, ◌⊎◌, inl, inr, Bool, true, false, Option,
  none, some, List, [], ◌∷◌, arith, ltb, if◌then◌else◌, Bool-cases, get_elem?, All, invalid,
  panicked, ok, err,
}
use attendance_system.Time.{Instant, hour, Zone}
use attendance_system.Schedule.Rows.{WorkSchedule}
use attendance_system.Schedule.Resolve.{Day}
use attendance_system.Attendance.Shift.{
  Shift, check_in_opens_before, place, gap, is_open, better, nearest, todays, pick_shift,
}

-- The day's shift on the clock.
abbrev pub placed : Zone → Day → Shift
placed zone d = place d.date d.schedule zone

-- The best so far is at least as near as this shift; no shift at all is not.
abbrev pub Beats : Instant → Option Shift → Shift → Type 0
Beats now none c = ⊥
Beats now (some b) c = gap now b.start ≤ gap now c.start

abbrev best_gap : Instant → Option Shift → ℕ
best_gap now none = 0
best_gap now (some b) = gap now b.start

Beats-trans :
    (now : Instant) (r : Option Shift) (b c : Shift)
    → Beats now r b
    → gap now b.start ≤ gap now c.start
    → Beats now r c
Beats-trans now none b c h k = h
Beats-trans now (some r) b c h k = omega (arith, h, k)

-- What one turn of the loop leaves, by the candidate's working flag.
data Turn (now : Instant) (best : Option Shift) (w : Bool) (c : Shift) (rest : Option Shift)
    : Type 0 where
  kept : best ≡ rest → (w ≡ true → is_open now c ≡ true → Beats now best c) → Turn now best w c rest
  taken :
      some c ≡ rest
      → w ≡ true
      → is_open now c ≡ true
      → ((b : Shift) → best ≡ some b → gap now c.start ≤ gap now b.start)
      → Turn now best w c rest

better-Turn :
    (now : Instant) (best : Option Shift) (c : Shift) → Turn now best true c (better now best c)
unfolding better
better-Turn now none c = elim (Bool-cases (is_open now c)) [
  | inl o ↦ Turn.taken (rw (o) refl) refl o (λ b e. absurd (ground arith))
  | inr o ↦ Turn.kept (rw (o) refl) (λ _ p. absurd (ground arith))
]
better-Turn now (some b) c = elim (Bool-cases (is_open now c)) [
  | inl o ↦ elim (Bool-cases (ltb (gap now c.start) (gap now b.start))) [
    | inl l ↦ Turn.taken (rw (o, l) refl) refl o (λ x e. ground (arith, l, ap (best_gap now) e))
    | inr l ↦ Turn.kept (rw (o, l) refl) (λ _ _. ground (arith, l))
  ]
  | inr o ↦ Turn.kept (rw (o) refl) (λ _ p. absurd (ground arith))
]

turn :
    (now : Instant) (best : Option Shift) (w : Bool) (c : Shift)
    → Turn now best w c (if w then better now best c else best)
turn now best true c = better-Turn now best c
turn now best false c = Turn.kept refl (λ p. absurd (ground arith))

-- A working day of the list whose window is open, as a shift on the clock.
pub record OpenDay (now : Instant) (zone : Zone) (plan : List Day) (s : Shift) : Type 0 where
  pub index : ℕ
  pub day : Day
  pub listed : get_elem? plan index ≡ some day
  pub works : day.working ≡ true
  pub shift_is : s ≡ placed zone day
  pub window : is_open now s ≡ true

abbrev pub EachOpen : Instant → Zone → (Shift → Type 0) → List Day → Type 0
EachOpen now zone P plan =
    All (λ (d : Day). d.working ≡ true → is_open now (placed zone d) ≡ true → P (placed zone d))
      plan

record Nearest (now : Instant) (zone : Zone) (best : Option Shift) (plan : List Day)
    (r : Option Shift) : Type 0 where
  source : (best ≡ r) ⊎ ((s : Shift) × (r ≡ some s) × OpenDay now zone plan s)
  over_plan : EachOpen now zone (Beats now r) plan
  over_best : (b : Shift) → best ≡ some b → Beats now r b

later_day :
    (now : Instant) (zone : Zone) (d : Day) (plan : List Day) (s : Shift)
    → OpenDay now zone plan s
    → OpenDay now zone (d ∷ plan) s
later_day now zone d plan s o = record {
  index = suc o.index;
  day = o.day;
  listed = o.listed;
  works = o.works;
  shift_is = o.shift_is;
  window = o.window;
}

Beats-self : (now : Instant) (best : Option Shift) (b : Shift) → best ≡ some b → Beats now best b
Beats-self now none b e = ground arith
Beats-self now (some c) b e = ground (arith, ap (best_gap now) e)

Beats-through :
    (now : Instant) (best r : Option Shift) (c : Shift)
    → ((b : Shift) → best ≡ some b → Beats now r b)
    → Beats now best c
    → Beats now r c
Beats-through now none r c h k = absurd k
Beats-through now (some b) r c h k = Beats-trans now r b c (h b refl) k

step-Nearest :
    (now : Instant) (zone : Zone) (best rest : Option Shift) (d : Day) (plan : List Day)
    (r : Option Shift)
    → Turn now best d.working (placed zone d) rest
    → Nearest now zone rest plan r
    → Nearest now zone best (d ∷ plan) r
step-Nearest now zone best rest d plan r (Turn.kept e k) n =
    let over : (b : Shift) → best ≡ some b → Beats now r b = λ b eb. n.over_best b (sym e ∙ eb) in
    record {
      source = elim n.source [
        | inl h ↦ inl (e ∙ h)
        | inr (s, h, o) ↦ inr (s, h, later_day now zone d plan s o)
      ];
      over_plan = (λ w o. Beats-through now best r (placed zone d) over (k w o), n.over_plan);
      over_best = over;
    }
step-Nearest now zone best rest d plan r (Turn.taken e w o k) n =
    let won : Beats now r (placed zone d) = n.over_best (placed zone d) (sym e) in
    record {
      source = elim n.source [
        | inl h ↦ inr (
          placed zone d,
          sym h ∙ sym e,
          record { index = 0; day = d; listed = refl; works = w; shift_is = refl; window = o },
        )
        | inr (s, h, p) ↦ inr (s, h, later_day now zone d plan s p)
      ];
      over_plan = (λ _ _. won, n.over_plan);
      over_best = λ b eb. Beats-trans now r (placed zone d) b won (k b eb);
    }

nearest-Nearest :
    (now : Instant) (zone : Zone) (best : Option Shift) (plan : List Day)
    → Nearest now zone best plan (nearest now zone best plan)
unfolding nearest
nearest-Nearest now zone best [] = record {
  source = inl refl;
  over_plan = tt;
  over_best = Beats-self now best;
}
nearest-Nearest now zone best (d ∷ plan) =
    let rest = if d.working then better now best (placed zone d) else best in
    step-Nearest now zone best rest d plan (nearest now zone rest plan)
      (turn now best d.working (placed zone d)) (nearest-Nearest now zone rest plan)

-- A shift that a check-in may belong to: the nearest of the working days whose window is open, or
-- today's where there is none, unless today's has hours and its window has yet to open.
pub data PickedFrom (now : Instant) (zone : Zone) (plan : List Day) (s : Shift) : Type 0 where
  in_window :
      OpenDay now zone plan s
      → EachOpen now zone (λ c. gap now s.start ≤ gap now c.start) plan
      → PickedFrom now zone plan s
  on_today :
      (day : Day)
      → EachOpen now zone (λ _. ⊥) plan
      → get_elem? plan 1 ≡ some day
      → s ≡ placed zone day
      → (s.hours ≡ none) ⊎ (s.start ≤ now + 4 * hour)
      → PickedFrom now zone plan s

todays-eq_ok :
    (now : Instant) (t s : Shift)
    → todays now t ≡ ok s
    → (s ≡ t) × ((s.hours ≡ none) ⊎ (s.start ≤ now + 4 * hour))
unfolding todays
todays-eq_ok now t s h = go t.hours refl h
  where
    go :
        (hours : Option WorkSchedule)
        → t.hours ≡ hours
        → elim hours [
          | none ↦ ok t
          | some _ ↦
              if ltb (now + check_in_opens_before) t.start
              then err (invalid "check-in for today's %s shift opens at %s")
              else ok t
        ]
          ≡ ok s
        → (s ≡ t) × ((s.hours ≡ none) ⊎ (s.start ≤ now + 4 * hour))
    go none e k =
        let se : t ≡ s = ground arith in (sym se, inl (subst (λ (u : Shift). u.hours ≡ none) se e))
    go (some w) e k =
        let early : ltb (now + check_in_opens_before) t.start ≡ false = ground arith in
        let se : t ≡ s = ground arith in
        let bound : t.start ≤ now + 4 * hour = ground arith in
        (sym se, inr (subst (λ (u : Shift). u.start ≤ now + 4 * hour) se bound))

no_open_day :
    (now : Instant) (zone : Zone) (plan : List Day)
    → Nearest now zone none plan none
    → EachOpen now zone (λ _. ⊥) plan
no_open_day now zone plan n = n.over_plan

picked_best :
    (now : Instant) (zone : Zone) (plan : List Day) (s : Shift)
    → Nearest now zone none plan (some s)
    → PickedFrom now zone plan s
picked_best now zone plan s n = elim n.source [
  | inl e ↦ absurd (ground arith)
  | inr (t, e, o) ↦
      let te : t ≡ s = ground arith in
      PickedFrom.in_window (subst (OpenDay now zone plan) te o) n.over_plan
]

picked_today :
    (now : Instant) (zone : Zone) (plan : List Day) (s : Shift) (second : Option Day)
    → get_elem? plan 1 ≡ second
    → EachOpen now zone (λ _. ⊥) plan
    → elim second [ none ↦ err panicked | some d ↦ todays now (placed zone d) ] ≡ ok s
    → PickedFrom now zone plan s
picked_today now zone plan s none e n h = absurd (ground arith)
picked_today now zone plan s (some d) e n h =
    let t = todays-eq_ok now (placed zone d) s h in PickedFrom.on_today d n e (t.0) (t.1)

pick_from :
    (now : Instant) (zone : Zone) (plan : List Day) (s : Shift) (best : Option Shift)
    → Nearest now zone none plan best
    → elim best [
      | some b ↦ ok b
      | none ↦ elim (get_elem? plan 1) [ none ↦ err panicked | some d ↦ todays now (placed zone d) ]
    ]
      ≡ ok s
    → PickedFrom now zone plan s
pick_from now zone plan s (some b) n h =
    let e : b ≡ s = ground arith in
    picked_best now zone plan s (subst (λ c. Nearest now zone none plan (some c)) e n)
pick_from now zone plan s none n h =
    picked_today now zone plan s (get_elem? plan 1) refl (no_open_day now zone plan n) h

-- The shift that a check-in is given to is the nearest by its start among the working days whose
-- window is open; where no window is open it is today's, which then has no hours or opens no later
-- than now.
pub pick_shift-PickedFrom :
    (now : Instant) (zone : Zone) (plan : List Day) (s : Shift)
    → pick_shift now zone plan ≡ ok s
    → PickedFrom now zone plan s
unfolding pick_shift
pick_shift-PickedFrom now zone plan s h =
    pick_from now zone plan s (nearest now zone none plan) (nearest-Nearest now zone none plan) h
