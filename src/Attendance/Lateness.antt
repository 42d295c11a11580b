-- ===== src/Attendance/Lateness.antt =====
-- The minutes of attendance/shift.go against their plain formulas.
use attendance_system.Prelude.{
  ℕ, ◌-◌, ◌/◌, ◌≤◌, ◌<◌, min, ◌≡◌, refl, Option, none, some, arith, pos, ◌-ℤ◌, min_ℤ, max_ℤ, quot_ℤ,
}
use attendance_system.Time.{
  Instant, Date, minute, max_duration, sub_time, whole_minutes, east_of_utc,
}
use attendance_system.Schedule.Rows.{WorkSchedule}
use attendance_system.Schedule.Validation.{shift_length}
use attendance_system.Attendance.Shift.{Shift, place, minutes, late_minutes, early_leave_minutes}

whole_minutes-sub_time :
    (t u : Instant)
    → u ≤ t
    → t - u ≤ max_duration
    → whole_minutes (sub_time t u) ≡ pos ((t - u) / minute)
unfolding whole_minutes sub_time
whole_minutes-sub_time t u h b = ground arith

-- A time that is not after counts for nothing, however far before it is.
not_after : (t u : Instant) → t ≤ u → max_ℤ (pos 0) (whole_minutes (sub_time t u)) ≡ pos 0
unfolding whole_minutes sub_time max_ℤ quot_ℤ
not_after t u h = ground arith

-- Whole minutes from one instant to another, none when that is before.
abbrev pub minutes_between : Instant → Instant → ℕ
minutes_between from to = (to - from) / minute

-- The minutes past the start and the grace, up to the whole shift; none without hours.
abbrev pub lateness : Shift → Instant → ℕ
lateness s at = elim s.hours [
  | none ↦ 0
  | some h ↦ min (minutes_between s.start s.end) (minutes_between s.start at - h.grace_minutes)
]

-- The minutes left before the end, up to the whole shift.
abbrev pub earliness : Shift → Instant → ℕ
earliness s at = elim s.hours [
  | none ↦ 0
  | some h ↦ min (minutes_between s.start s.end) (minutes_between at s.end)
]

late_part :
    (s : Shift) (at : Instant) (grace : ℕ)
    → at - s.start ≤ max_duration
    → max_ℤ (pos 0) (whole_minutes (sub_time at s.start) -ℤ pos grace)
      ≡ pos (minutes_between s.start at - grace)
unfolding whole_minutes sub_time max_ℤ quot_ℤ ◌-ℤ◌
late_part s at grace b = ground arith

early_part :
    (s : Shift) (at : Instant)
    → s.end - at ≤ max_duration
    → max_ℤ (pos 0) (whole_minutes (sub_time s.end at)) ≡ pos (minutes_between at s.end)
unfolding whole_minutes sub_time max_ℤ quot_ℤ
early_part s at b = ground arith

minutes-minutes_between :
    (s : Shift)
    → s.start ≤ s.end
    → s.end - s.start ≤ max_duration
    → minutes s ≡ pos (minutes_between s.start s.end)
unfolding minutes
minutes-minutes_between s h b = whole_minutes-sub_time s.end s.start h b

min_ℤ-pos : (m n : ℕ) → min_ℤ (pos m) (pos n) ≡ pos (min m n)
unfolding min_ℤ
min_ℤ-pos m n = ground arith

-- On a shift that does not end before it starts, and within what a Duration holds, the lateness is
-- the whole minutes past the start less the grace, never below 0 and never above the whole shift,
-- and 0 on a day without hours.
pub late_minutes_lem :
    (s : Shift) (at : Instant)
    → s.start ≤ s.end
    → s.end - s.start ≤ max_duration
    → at - s.start ≤ max_duration
    → late_minutes s at ≡ pos (lateness s at)
unfolding late_minutes
late_minutes_lem s at h b c = go s.hours
  where
    go :
        (hours : Option WorkSchedule)
        → elim hours [
          | none ↦ pos 0
          | some k ↦
              min_ℤ
                (minutes s)
                (max_ℤ (pos 0) (whole_minutes (sub_time at s.start) -ℤ pos k.grace_minutes))
        ]
          ≡ pos (elim hours [
            | none ↦ 0
            | some k ↦
                min (minutes_between s.start s.end) (minutes_between s.start at - k.grace_minutes)
          ])
    go none = refl
    go (some k) =
        rw (minutes-minutes_between s h b, late_part s at k.grace_minutes c)
          (min_ℤ-pos (minutes_between s.start s.end) (minutes_between s.start at - k.grace_minutes))

-- On the same conditions the early leave is the whole minutes left before the end, never below 0
-- and never above the whole shift, and 0 on a day without hours.
pub early_leave_minutes_lem :
    (s : Shift) (at : Instant)
    → s.start ≤ s.end
    → s.end - s.start ≤ max_duration
    → s.end - at ≤ max_duration
    → early_leave_minutes s at ≡ pos (earliness s at)
unfolding early_leave_minutes
early_leave_minutes_lem s at h b c = go s.hours
  where
    go :
        (hours : Option WorkSchedule)
        → elim hours [
          | none ↦ pos 0
          | some k ↦ min_ℤ (minutes s) (max_ℤ (pos 0) (whole_minutes (sub_time s.end at)))
        ]
          ≡ pos (elim hours [
            | none ↦ 0
            | some k ↦ min (minutes_between s.start s.end) (minutes_between at s.end)
          ])
    go none = refl
    go (some k) =
        rw (minutes-minutes_between s h b, early_part s at c)
          (min_ℤ-pos (minutes_between s.start s.end) (minutes_between at s.end))

-- In a zone that keeps one offset, and from the second day of year 1 on, a placed shift runs as many
-- minutes as the check of a schedule says: also over midnight, where it ends on the next day. The
-- offset is at most a day, the times of day are below 1440 minutes.
pub minutes-place :
    (d : Date) (h : WorkSchedule) (offset : ℕ)
    → 0 < d
    → offset ≤ 1440
    → h.start_time < 1440
    → h.end_time < 1440
    → minutes (place d (some h) (east_of_utc offset)) ≡ pos (shift_length h.start_time h.end_time)
unfolding minutes place shift_length whole_minutes sub_time quot_ℤ
minutes-place d h offset hd ho hs he = ground arith
