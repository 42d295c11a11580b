-- ===== src/Report/Sums.antt =====
-- The totals of a report against the days that they are over.
use attendance_system.Prelude.{
  subst, ℕ, ◌+◌, ◌≡◌, refl, sym, ap, ◌∙◌, inl, inr, Bool, List, [], ◌∷◌, arith, ◌==◌, if◌then◌else◌,
  Bool-cases, keep, total, ok, >>=-elim, ℤ, pos, ◌+ℤ◌, int_laws,
}
use attendance_system.Access.{Claims}
use attendance_system.User.Rows.{User}
use attendance_system.Schedule.Validation.{days}
use attendance_system.Attendance.Standing.{Standing, Presence, people, daily}
use attendance_system.Db.{Db}
use attendance_system.Report.Totals.{
  Query, Total, Report, check_status, worked, started, one_if, with_day, add_day, totals_from,
  totals, has_status, attendance_report,
}
use attendance_system.Attendance.Service.{Host}
use attendance_system.Report.Runs.{runs, total_ids, day_ids, ids-totals}

-- The sum of a column of integers over the rows that a test accepts.
abbrev pub sum_ℤ {ℓ} : {A : Type ℓ} → (A → Bool) → (A → ℤ) → List A → ℤ
sum_ℤ p f [] = pos 0
sum_ℤ p f (x ∷ xs) = (if p x then f x else pos 0) +ℤ sum_ℤ p f xs

abbrev pub is_total_of : ℕ → Total → Bool
is_total_of user t = t.user_id == user

abbrev pub is_day_of : ℕ → Presence → Bool
is_day_of user day = day.user_id == user

-- A counter of a total that each day adds to.
module _ (user : ℕ) (f : Total → ℕ) (g : Presence → ℕ)
    (starts : (day : Presence) → f (with_day day (started day)) ≡ g day)
    (adds : (day : Presence) (t : Total) → f (with_day day t) ≡ f t + g day) where
  sum-add_day :
      (people : List Total) (day : Presence)
      → total (is_total_of user) f (add_day people day)
        ≡ total (is_total_of user) f people + (if is_day_of user day then g day else 0)
  unfolding add_day
  sum-add_day [] day = ground (arith, starts day)
  sum-add_day (t ∷ []) day = ground (arith, starts day, adds day t)
  sum-add_day (t ∷ u ∷ more) day = omega (arith, sum-add_day (u ∷ more) day)

  sum-totals_from :
      (people : List Total) (days : List Presence)
      → total (is_total_of user) f (totals_from people days)
        ≡ total (is_total_of user) f people + total (is_day_of user) g days
  unfolding totals_from
  sum-totals_from people [] = omega arith
  sum-totals_from people (day ∷ days) =
      omega (arith, sum-totals_from (add_day people day) days, sum-add_day people day)

  pub sum-totals :
      (days : List Presence)
      → total (is_total_of user) f (totals days) ≡ total (is_day_of user) g days
  unfolding totals
  sum-totals days = omega (arith, sum-totals_from [] days)

module _ (user : ℕ) where
  minutes-add_day :
      (people : List Total) (day : Presence)
      → sum_ℤ (is_total_of user) (λ t. t.worked_minutes) (add_day people day)
        ≡ sum_ℤ (is_total_of user) (λ t. t.worked_minutes) people
          +ℤ (if is_day_of user day then worked day else pos 0)
  unfolding add_day
  minutes-add_day [] day = elim (Bool-cases (is_day_of user day)) [
    | inl y ↦ rw y (omega int_laws)
    | inr o ↦ rw o (omega int_laws)
  ]
  minutes-add_day (t ∷ []) day = elim (Bool-cases (t.user_id == day.user_id)) [
    | inl y ↦
        let same : t.user_id ≡ day.user_id = ground arith in
        elim (Bool-cases (is_day_of user day)) [
          | inl k ↦ rw (y, same, k) (omega int_laws)
          | inr o ↦ rw (y, same, o) (omega int_laws)
        ]
    | inr n ↦ elim (Bool-cases (is_day_of user day)) [
      | inl k ↦ rw (n, k) (omega int_laws)
      | inr o ↦ rw (n, o) (omega int_laws)
    ]
  ]
  minutes-add_day (t ∷ u ∷ more) day = rw (minutes-add_day (u ∷ more) day) (omega int_laws)

  minutes-totals_from :
      (people : List Total) (days : List Presence)
      → sum_ℤ (is_total_of user) (λ t. t.worked_minutes) (totals_from people days)
        ≡ sum_ℤ (is_total_of user) (λ t. t.worked_minutes) people
          +ℤ sum_ℤ (is_day_of user) worked days
  unfolding totals_from
  minutes-totals_from people [] = omega int_laws
  minutes-totals_from people (day ∷ days) =
      minutes-totals_from (add_day people day) days
      ∙ rw (minutes-add_day people day) (omega int_laws)

  pub minutes-totals :
      (days : List Presence)
      → sum_ℤ (is_total_of user) (λ t. t.worked_minutes) (totals days)
        ≡ sum_ℤ (is_day_of user) worked days
  unfolding totals
  minutes-totals days = minutes-totals_from [] days ∙ omega int_laws

-- What is counted of a person over the days of a report.
abbrev pub days_of : ℕ → Standing → List Presence → ℕ
days_of user s days = total (is_day_of user) (one_if s) days

abbrev pub counted_for : ℕ → (Total → ℕ) → List Total → ℕ
counted_for user f people = total (is_total_of user) f people

-- What is asked of a report.
pub record Adds (user : ℕ) (days : List Presence) (people : List Total) : Type 0 where
  pub presents : counted_for user (λ t. t.present) people ≡ days_of user Standing.present days
  pub lates : counted_for user (λ t. t.late) people ≡ days_of user Standing.late days
  pub leaves : counted_for user (λ t. t.on_leave) people ≡ days_of user Standing.on_leave days
  pub absents : counted_for user (λ t. t.absent) people ≡ days_of user Standing.absent days
  pub minutes :
      sum_ℤ (is_total_of user) (λ t. t.worked_minutes) people ≡ sum_ℤ (is_day_of user) worked days

-- A report that is made lists the days that rule B gives for its span and filter, those with the
-- status that was asked for if one was, and of every person its totals count exactly those days by
-- status, and add up their worked minutes; there is one total for each run of days of a person.
pub attendance_report-Adds :
    (host : Host) (by_name : List User → List User) (db : Db) (claims : Claims) (query : Query)
    (report : Report) (user : ℕ)
    → attendance_report host by_name db claims query ≡ ok report
    → (days : List Presence) × (daily host by_name db claims query.span query.filter ≡ ok days)
      × (report.days ≡ keep (has_status query.status) days)
      × (total_ids report.people ≡ runs (day_ids report.days))
      × Adds user report.days report.people
unfolding attendance_report
attendance_report-Adds host by_name db claims query report user h =
    >>=-elim (check_status query.status) _ h λ u1 e1 h1.
      >>=-elim (daily host by_name db claims query.span query.filter) _ h1 λ days e2 h2.
        let kept = keep (has_status query.status) days in
        let made : Report = record { span = query.span; days = kept; people = totals kept } in
        let same : made ≡ report = ground arith in
        let adds : Adds user kept (totals kept) = record {
          presents =
              sum-totals user (λ t. t.present) (one_if Standing.present) (λ d. omega arith)
                (λ d t. refl) kept;
          lates =
              sum-totals user (λ t. t.late) (one_if Standing.late) (λ d. omega arith) (λ d t. refl)
                kept;
          leaves =
              sum-totals user (λ t. t.on_leave) (one_if Standing.on_leave) (λ d. omega arith)
                (λ d t. refl) kept;
          absents =
              sum-totals user (λ t. t.absent) (one_if Standing.absent) (λ d. omega arith)
                (λ d t. refl) kept;
          minutes = minutes-totals user kept;
        } in
        (
          days,
          e2,
          ap (λ (r : Report). r.days) (sym same),
          subst (λ (r : Report). total_ids r.people ≡ runs (day_ids r.days)) same (ids-totals kept),
          subst (λ (r : Report). Adds user r.days r.people) same adds,
        )
