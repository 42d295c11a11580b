-- ===== src/Report/Runs.antt =====
-- The people of the totals of a report: `totals` of report/service.go starts one for each run of days.
use attendance_system.Prelude.{
  ℕ, ◌≡◌, refl, sym, ap, ◌∙◌, inl, inr, List, [], ◌∷◌, ◌++◌, arith, ◌==◌, if◌then◌else◌, Bool-cases,
}
use attendance_system.Report.Totals.{Total, started, with_day, add_day, totals_from, totals}
use attendance_system.Attendance.Standing.{Presence}

-- The ids of the rows, each run of equal ones once.
abbrev pub runs : List ℕ → List ℕ
runs [] = []
runs (x ∷ []) = x ∷ []
runs (x ∷ y ∷ zs) = let rest = runs (y ∷ zs) in if x == y then rest else x ∷ rest

abbrev pub total_ids : List Total → List ℕ
total_ids [] = []
total_ids (t ∷ ts) = t.user_id ∷ total_ids ts

abbrev pub day_ids : List Presence → List ℕ
day_ids [] = []
day_ids (d ∷ ds) = d.user_id ∷ day_ids ds

++-assoc {ℓ} : {A : Type ℓ} (xs ys zs : List A) → (xs ++ ys) ++ zs ≡ xs ++ (ys ++ zs)
++-assoc [] ys zs = refl
++-assoc (x ∷ xs) ys zs = ap (λ r. x ∷ r) (++-assoc xs ys zs)

total_ids-++ : (ts us : List Total) → total_ids (ts ++ us) ≡ total_ids ts ++ total_ids us
total_ids-++ [] us = refl
total_ids-++ (t ∷ ts) us = ap (λ r. t.user_id ∷ r) (total_ids-++ ts us)

add_day-++ :
    (front : List Total) (t : Total) (day : Presence)
    → add_day (front ++ (t ∷ [])) day ≡ front ++ add_day (t ∷ []) day
unfolding add_day
add_day-++ [] t day = refl
add_day-++ (a ∷ []) t day = refl
add_day-++ (a ∷ b ∷ front) t day = ap (λ r. a ∷ r) (add_day-++ (b ∷ front) t day)

ids-totals_from :
    (front : List Total) (t : Total) (days : List Presence)
    → total_ids (totals_from (front ++ (t ∷ [])) days)
      ≡ total_ids front ++ runs (t.user_id ∷ day_ids days)
unfolding totals_from add_day
ids-totals_from front t [] = total_ids-++ front (t ∷ [])
ids-totals_from front t (day ∷ days) = elim (Bool-cases (t.user_id == day.user_id)) [
  | inl y ↦
      let same : t.user_id ≡ day.user_id = ground arith in
      let step : add_day (front ++ (t ∷ [])) day ≡ front ++ (with_day day t ∷ []) =
        add_day-++ front t day ∙ rw y refl in
      rw (step, ids-totals_from front (with_day day t) days, y) (rw same refl)
  | inr n ↦
      let new = with_day day (started day) in
      let step : add_day (front ++ (t ∷ [])) day ≡ (front ++ (t ∷ [])) ++ (new ∷ []) =
        add_day-++ front t day ∙ rw n (sym (++-assoc front (t ∷ []) (new ∷ []))) in
      rw (step, ids-totals_from (front ++ (t ∷ [])) new days, n, total_ids-++ front (t ∷ []))
        (++-assoc (total_ids front) (t.user_id ∷ []) (runs (day.user_id ∷ day_ids days)))
]

pub ids-totals : (days : List Presence) → total_ids (totals days) ≡ runs (day_ids days)
unfolding totals totals_from add_day
ids-totals [] = refl
ids-totals (day ∷ days) = ids-totals_from [] (with_day day (started day)) days
