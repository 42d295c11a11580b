-- ===== src/Schedule/Checked.antt =====
-- What the checks of schedule/validation.go let through.
use attendance_system.Prelude.{
  ℕ, ◌+◌, ◌-◌, ◌%◌, ◌≤◌, ◌<◌, ◌≡◌, ◌≢◌, ◌↔◌, arith, ok, ℤ, pos, ◌≤ℤ◌, ◌<ℤ◌,
}
use attendance_system.Time.{date_only}
use attendance_system.Schedule.Validation.{Span, Range, check_range, shift_length, check_schedule}

pub record GoodRange (s : Span) (r : Range) : Type 0 where
  pub has_from : s.from ≢ 0
  pub has_to : s.to ≢ 0
  pub from_is : r.from ≡ date_only s.from
  pub to_is : r.to ≡ date_only s.to
  pub ordered : r.from ≤ r.to
  pub in_bounds : r.to - r.from + 1 ≤ 366

pub check_range-eq_ok : (s : Span) (r : Range) → check_range s ≡ ok r ↔ GoodRange s r
unfolding check_range
check_range-eq_ok s r = (
  λ h. record {
    has_from = ground arith;
    has_to = ground arith;
    from_is = ground arith;
    to_is = ground arith;
    ordered = ground arith;
    in_bounds = ground arith;
  },
  λ g. ground (arith, g.has_from, g.has_to, g.from_is, g.to_is, g.ordered, g.in_bounds),
)

-- What is asked of hours.
pub record GoodHours (start end : ℕ) (grace pause : ℤ) : Type 0 where
  pub not_empty : start ≢ end
  pub some_minutes : 0 < shift_length start end
  pub end_is : (start + shift_length start end) % 1440 ≡ end % 1440
  pub at_most_a_day : shift_length start end < 1440
  pub grace_bounds : (pos 0 ≤ℤ grace) × (grace ≤ℤ pos 240)
  pub break_bounds : (pos 0 ≤ℤ pause) × (pause <ℤ pos (shift_length start end))

-- Accepted hours differ, are at most a day long, end before they start only over midnight, and leave
-- a break shorter than the shift; the grace is at most four hours. The start and the end are times
-- of day, below 1440 minutes.
pub check_schedule-GoodHours :
    (start end : ℕ) (grace pause : ℤ)
    → start < 1440
    → end < 1440
    → check_schedule start end grace pause ≡ ok tt
    → GoodHours start end grace pause
unfolding check_schedule shift_length
check_schedule-GoodHours start end grace pause hs he h = record {
  not_empty = ground arith;
  some_minutes = ground arith;
  end_is = ground arith;
  at_most_a_day = ground arith;
  grace_bounds = (ground arith, ground arith);
  break_bounds = (ground arith, ground arith);
}
