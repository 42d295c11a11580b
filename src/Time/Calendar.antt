-- ===== src/Time/Calendar.antt =====
-- The year and the weekday of a date, as Go's `time` counts them.
use attendance_system.Prelude.{ℕ, ◌+◌, ◌-◌, ◌*◌, ◌/◌, ◌%◌, ◌≤◌, ◌<◌, arith, min}

-- `t.Weekday()`: Sunday is 0, and 0001-01-01 was a Monday.
abbrev pub weekday : ℕ → ℕ
weekday d = (d + 1) % 7

-- The days before January 1 of a year.
unfoldable pub new_year : ℕ → ℕ
new_year y = let p = y - 1 in p * 365 + p / 4 - p / 100 + p / 400

-- The year of a day of a cycle of four years, of a century, of 400 years.
abbrev year_in_four : ℕ → ℕ
year_in_four d = min (d / 365) 3

abbrev year_in_century : ℕ → ℕ
year_in_century d = 4 * (d / 1461) + year_in_four (d % 1461)

abbrev year_in_cycle : ℕ → ℕ
year_in_cycle d = let c = min (d / 36524) 3 in 100 * c + year_in_century (d - 36524 * c)

-- `t.Year()`.
unfoldable pub year_of : ℕ → ℕ
year_of d = 1 + 400 * (d / 146097) + year_in_cycle (d % 146097)

pub new_year-le : (d : ℕ) → new_year (year_of d) ≤ d
unfolding new_year year_of
new_year-le d = omega arith

pub lt-new_year : (d : ℕ) → d < new_year (year_of d + 1)
unfolding new_year year_of
lt-new_year d = omega arith
