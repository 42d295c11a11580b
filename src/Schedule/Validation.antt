-- ===== src/Schedule/Validation.antt =====
-- schedule/validation.go: what a request may carry.
use attendance_system.Prelude.{
  ℕ, ◌+◌, ◌-◌, ◌/◌, min, ◌||◌, List, [], ◌∷◌, ltb, ◌==◌, if◌then◌else◌, Result, ok, err, invalid,
  ◌>>=◌,
}
use attendance_system.Prelude.Int.{ℤ, pos, negsuc, pos_part, ltb_ℤ, leb_ℤ}
use attendance_system.Text.{Text, trim, is_empty, byte_len}
use attendance_system.Time.{Instant, Date, date_only, max_duration, day_length}

-- A span as a caller gives it, and the same as calendar days.
pub record Span : Type 0 where
  pub from : Instant
  pub to : Instant

pub record Range : Type 0 where
  pub from : Date
  pub to : Date

abbrev pub max_range_days : ℕ
max_range_days = 366

-- `Range.days` for a range whose `to` is not before its `from`: `Sub` stops at the longest
-- Duration.
abbrev pub days : Range → ℕ
days r = min (r.to - r.from) (max_duration / day_length) + 1

unfoldable pub check_range : Span → Result Range
check_range s =
    if (s.from == 0) || (s.to == 0)
    then err (invalid "from and to are both required")
    else let r : Range = record { from = date_only s.from; to = date_only s.to } in
      if ltb r.to r.from
      then err (invalid "to cannot be before from")
      else if ltb max_range_days (days r)
      then err (invalid "the range must be at most %d days")
      else ok r

unfoldable pub check_name : Text → Result Text
check_name name =
    let trimmed = trim name in
    if is_empty trimmed
    then err (invalid "name is required")
    else if ltb 100 (byte_len trimmed)
    then err (invalid "name must be at most 100 characters")
    else ok trimmed

-- `slices.Sort` and `slices.Compact`, by insertion: sorted and without repeats.
unfoldable pub insert_day : ℤ → List ℤ → List ℤ
insert_day x [] = x ∷ []
insert_day x (y ∷ ys) =
    if ltb_ℤ x y then x ∷ y ∷ ys else if leb_ℤ x y then y ∷ ys else y ∷ insert_day x ys

unfoldable pub sort_compact : List ℤ → List ℤ
unfolding insert_day
sort_compact [] = []
sort_compact (x ∷ xs) = insert_day x (sort_compact xs)

-- The loop of `checkWorkdays` over the sorted days.
unfoldable pub narrow : List ℤ → Result (List ℕ)
narrow [] = ok []
narrow (d ∷ ds) =
    let rest = narrow ds in
    if ltb_ℤ d (pos 1) || ltb_ℤ (pos 7) d
    then err (invalid "workdays must be between 1 (Monday) and 7 (Sunday), got %d")
    else rest >>= λ narrowed. ok (pos_part d ∷ narrowed)

unfoldable pub check_workdays : List ℤ → Result (List ℕ)
unfolding sort_compact narrow
check_workdays [] = err (invalid "workdays needs at least one day, 1 (Monday) to 7 (Sunday)")
check_workdays (d ∷ ds) = narrow (sort_compact (d ∷ ds))

abbrev pub minutes_per_day : ℕ
minutes_per_day = 1440

-- `length`: how long a shift runs, over midnight when it ends at or before its start.
unfoldable pub shift_length : ℕ → ℕ → ℕ
shift_length start end = if ltb start end then end - start else minutes_per_day - start + end

unfoldable pub check_schedule : ℕ → ℕ → ℤ → ℤ → Result (Unit {0})
unfolding shift_length
check_schedule start end grace pause =
    if start == end
    then err (invalid "start_time and end_time cannot be the same")
    else if ltb_ℤ grace (pos 0) || ltb_ℤ (pos 240) grace
    then err (invalid "grace_minutes must be between 0 and 240")
    else if ltb_ℤ pause (pos 0) || ltb_ℤ (pos 480) pause
    then err (invalid "break_minutes must be between 0 and 480")
    else if leb_ℤ (pos (shift_length start end)) pause
    then err (invalid "break_minutes must be shorter than the shift")
    else ok tt

-- Coordinates are millionths of a degree.
unfoldable pub check_location : ℤ → ℤ → ℤ → Result (Unit {0})
check_location lat lng radius_m =
    if ltb_ℤ lat (negsuc 89999999) || ltb_ℤ (pos 90000000) lat
    then err (invalid "lat must be between -90 and 90")
    else if ltb_ℤ lng (negsuc 179999999) || ltb_ℤ (pos 180000000) lng
    then err (invalid "lng must be between -180 and 180")
    else if ltb_ℤ radius_m (pos 10) || ltb_ℤ (pos 10000) radius_m
    then err (invalid "radius_m must be between 10 and 10000")
    else ok tt
