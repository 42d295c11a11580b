-- ===== src/Schedule/Clock.antt =====
-- schedule/clock.go: a time of day as minutes since midnight, read from and written as "HH:MM".
use attendance_system.Prelude.{
  ℕ, ◌+◌, ◌-◌, ◌*◌, ◌/◌, ◌%◌, Bool, ◌&&◌, ◌||◌, List, [], ◌∷◌, ◌++◌, Option, none, some, ltb, leb,
  ◌==◌, if◌then◌else◌, Result, ok, err, Error, invalid,
}
use attendance_system.Prelude.Int.{ℤ, pos, sub_ℕ}
use attendance_system.Text.{Text, trim}

-- `strings.Split(s, ":")`: at least one part.
unfoldable pub split_from : Text → Text → List Text
split_from part [] = part ∷ []
split_from part (c ∷ s) =
    if c == b':' then part ∷ split_from [] s else split_from (part ++ c ∷ []) s

abbrev pub is_digit : ℕ → Bool
is_digit c = leb b'0' c && leb c b'9'

-- The digits of `strconv.Atoi`, `none` at any other character.
unfoldable pub digits_from : ℕ → Text → Option ℕ
digits_from n [] = some n
digits_from n (c ∷ s) = if is_digit c then digits_from (n * 10 + (c - b'0')) s else none

-- At least one digit; a value past int64 is a range error.
unfoldable pub number : Text → Option ℕ
unfolding digits_from
number [] = none
number (c ∷ s) = elim (digits_from 0 (c ∷ s)) [
  | none ↦ none
  | some n ↦ if leb n 9223372036854775808 then some n else none
]

-- `strconv.Atoi`: a sign is allowed, and -(2^63) is the only number of that size.
unfoldable pub atoi : Text → Option ℤ
unfolding number
atoi [] = none
atoi (c ∷ s) =
    if c == b'-'
    then elim (number s) [ none ↦ none | some n ↦ some (sub_ℕ 0 n) ]
    else below_limit (if c == b'+' then number s else number (c ∷ s))
  where
    below_limit : Option ℕ → Option ℤ
    below_limit none = none
    below_limit (some n) = if ltb n 9223372036854775808 then some (pos n) else none

unfoldable pub bad_clock : Error
bad_clock = invalid "time %q must look like HH:MM"

-- Hours of 0 to 23 and minutes of 0 to 59.
unfoldable pub checked_clock : Option ℤ → Option ℤ → Result ℕ
unfolding bad_clock
checked_clock (some (pos h)) (some (pos m)) =
    if ltb 23 h || ltb 59 m then err bad_clock else ok (h * 60 + m)
checked_clock _ _ = err bad_clock

-- `hours` and `minutes` are the first two of two or three parts; seconds are not read.
unfoldable pub clock_of_parts : List Text → Result ℕ
unfolding bad_clock checked_clock atoi
clock_of_parts (h ∷ m ∷ []) = checked_clock (atoi h) (atoi m)
clock_of_parts (h ∷ m ∷ s ∷ []) = checked_clock (atoi h) (atoi m)
clock_of_parts _ = err bad_clock

unfoldable pub parse_clock : Text → Result ℕ
unfolding clock_of_parts split_from
parse_clock value = clock_of_parts (split_from [] (trim value))

-- `%02d` of a number below 100.
abbrev pub two_digits : ℕ → Text
two_digits n = (b'0' + n / 10) ∷ (b'0' + n % 10) ∷ []

-- `Clock.String`, for a clock of less than 6000 minutes.
unfoldable pub clock_text : ℕ → Text
clock_text c = two_digits (c / 60) ++ b':' ∷ two_digits (c % 60)
