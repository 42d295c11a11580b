-- ===== src/Schedule/Plan.antt =====
-- `Service.Days` (schedule/service.go): rule A over a span.
use attendance_system.Prelude.{
  ℕ, zero, suc, ◌+◌, ◌-◌, ◌≤◌, ◌<◌, ◌≡◌, refl, sym, ap, ◌∙◌, Option, some, List, arith, length,
  get_elem?, ok, >>=-elim,
}
use attendance_system.Time.{Date, date_only}
use attendance_system.Schedule.Resolve.{Day, resolve}
use attendance_system.Schedule.Validation.{Span, check_range}
use attendance_system.Schedule.Roster.{default_schedule_id, inputs_on, days_from, plan_days}
use attendance_system.Schedule.Checked.{check_range-eq_ok}
use attendance_system.Db.{Db}

days_from-length :
    (db : Db) (user : ℕ) (default : Option ℕ) (left : ℕ) (d : Date)
    → length (days_from db user default left d) ≡ left
unfolding days_from
days_from-length db user default zero d = refl
days_from-length db user default (suc left) d =
    ap suc (days_from-length db user default left (d + 1))

get_elem?-days_from :
    (db : Db) (user : ℕ) (default : Option ℕ) (left : ℕ) (d : Date) (n : ℕ)
    → n < left
    → get_elem? (days_from db user default left d) n
      ≡ some (resolve (d + n) (inputs_on db user default (d + n)))
unfolding days_from
get_elem?-days_from db user default zero d n h = absurd (omega arith)
get_elem?-days_from db user default (suc left) d zero h =
    ap (λ m. some (resolve m (inputs_on db user default m))) (omega arith)
get_elem?-days_from db user default (suc left) d (suc n) h =
    get_elem?-days_from db user default left (d + 1) n (omega arith)
    ∙ ap (λ m. some (resolve m (inputs_on db user default m))) (omega arith)

-- What is asked of a plan.
pub record Planned (db : Db) (user : ℕ) (span : Span) (plan : List Day) : Type 0 where
  pub default : Option ℕ
  pub default_is : default_schedule_id db user ≡ ok default
  pub covers : date_only span.from + length plan ≡ date_only span.to + 1
  pub at_most_a_year : length plan ≤ 366
  pub each :
      (d : Date)
      → date_only span.from ≤ d
      → d ≤ date_only span.to
      → get_elem? plan (d - date_only span.from) ≡ some (resolve d (inputs_on db user default d))

-- A plan that is made has one day for each date of the span, in order: rule A on what the roster,
-- the holidays and the person's own hours say of that date.
pub plan_days_lem :
    (db : Db) (user : ℕ) (span : Span) (plan : List Day)
    → plan_days db user span ≡ ok plan
    → Planned db user span plan
unfolding plan_days
plan_days_lem db user span plan h = >>=-elim (check_range span) _ h λ r er h1.
    >>=-elim (default_schedule_id db user) _ h1 λ default e h2.
      let g = (check_range-eq_ok span r).0 er in
      let plan_is : days_from db user default (r.to + 1 - r.from) r.from ≡ plan = ground arith in
      let n : length plan ≡ r.to + 1 - r.from =
        ap length (sym plan_is) ∙ days_from-length db user default (r.to + 1 - r.from) r.from in
      record {
        default = default;
        default_is = e;
        covers = ground (arith, n, g.from_is, g.to_is, g.ordered);
        at_most_a_year = ground (arith, n, g.ordered, g.in_bounds);
        each = λ d from to.
            rw (sym plan_is, sym (g.from_is))
              (get_elem?-days_from db user default (r.to + 1 - r.from) r.from (d - r.from)
                  (ground (arith, from, to, g.from_is, g.to_is))
                ∙ ap (λ m. some (resolve m (inputs_on db user default m)))
                    (ground (arith, from, g.from_is)));
      }
