-- ===== src/Time.antt =====
-- Go's `time` as the services use it. An instant is the number of nanoseconds since
-- 0001-01-01T00:00:00Z, Go's zero time; a date is the number of days since 0001-01-01. What is
-- before year 1 is left out.
pub mod Calendar
use attendance_system.Prelude.{
  ℕ, suc, ◌+◌, ◌-◌, ◌*◌, ◌/◌, ◌≤◌, ◌<◌, min, Bool, ◌≡◌, arith, leb, ltb, ◌==◌, if◌then◌else◌, ℤ,
  pos, negsuc, quot_ℤ,
}

abbrev pub Instant : Type 0
Instant = ℕ

abbrev pub Date : Type 0
Date = ℕ

abbrev pub minute : ℕ
minute = 60000000000

abbrev pub hour : ℕ
hour = 3600000000000

abbrev pub day_length : ℕ
day_length = 86400000000000

-- `math.MaxInt64`, the longest Duration.
abbrev pub max_duration : ℕ
max_duration = 9223372036854775807

-- `t.Sub(u)`, which stops at the ends of int64.
unfoldable pub sub_time : Instant → Instant → ℤ
sub_time t u =
    if leb u t then pos (min (t - u) max_duration) else negsuc (min (u - t - 1) max_duration)

-- `d / time.Minute`.
unfoldable pub whole_minutes : ℤ → ℤ
unfolding quot_ℤ
whole_minutes d = quot_ℤ d minute

-- `dateOnly` of a time in UTC: year, month and day, without the time of day.
abbrev pub date_only : Instant → Date
date_only t = t / day_length

abbrev pub midnight : Date → Instant
midnight d = d * day_length

-- A `*time.Location`: the calendar day that it is there at an instant (`t.In(zone)` cut to its
-- date), and the instant of a date's wall clock (`time.Date` with that many minutes).
pub record Zone : Type 0 where
  pub date_in : Instant → Date
  pub at : Date → ℕ → Instant

-- A zone that keeps one offset east of UTC, such as Asia/Jakarta, from its number of minutes.
abbrev pub east_of_utc : ℕ → Zone
east_of_utc offset = record {
  date_in = λ t. (t + offset * minute) / day_length;
  at = λ d m. d * day_length + m * minute - offset * minute;
}
