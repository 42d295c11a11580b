-- ===== src/Schedule/ClockText.antt =====
-- Times of day written and read (schedule/clock.go).
use attendance_system.Prelude.{
  ℕ, ◌+◌, ◌*◌, ◌/◌, ◌%◌, ◌<◌, ◌≡◌, refl, ◌∙◌, false, Option, none, some, List, [], ◌∷◌, arith, ok,
  ℤ, pos, negsuc,
}
use attendance_system.Text.{trim, trim_left, is_space, Text}
use attendance_system.Schedule.Clock.{
  split_from, digits_from, number, atoi, bad_clock, checked_clock, clock_of_parts, parse_clock,
  clock_text,
}

checked_clock-eq_ok : (h m : Option ℤ) (c : ℕ) → checked_clock h m ≡ ok c → c < 1440
unfolding checked_clock bad_clock
checked_clock-eq_ok (some (pos h)) (some (pos m)) c e = ground arith
checked_clock-eq_ok (some (pos h)) (some (negsuc m)) c e = absurd (ground arith)
checked_clock-eq_ok (some (pos h)) none c e = absurd (ground arith)
checked_clock-eq_ok (some (negsuc h)) m c e = absurd (ground arith)
checked_clock-eq_ok none m c e = absurd (ground arith)

clock_of_parts-eq_ok : (parts : List Text) (c : ℕ) → clock_of_parts parts ≡ ok c → c < 1440
unfolding clock_of_parts bad_clock
clock_of_parts-eq_ok [] c e = absurd (ground arith)
clock_of_parts-eq_ok (h ∷ []) c e = absurd (ground arith)
clock_of_parts-eq_ok (h ∷ m ∷ []) c e = checked_clock-eq_ok (atoi h) (atoi m) c e
clock_of_parts-eq_ok (h ∷ m ∷ s ∷ []) c e = checked_clock-eq_ok (atoi h) (atoi m) c e
clock_of_parts-eq_ok (h ∷ m ∷ s ∷ t ∷ rest) c e = absurd (ground arith)

digit_not_space : (n : ℕ) → n < 10 → is_space (b'0' + n) ≡ false
unfolding is_space
digit_not_space n h = ground arith

trimmed :
    (a b c d : ℕ)
    → a < 10
    → d < 10
    → trim ((b'0' + a) ∷ b ∷ b':' ∷ c ∷ (b'0' + d) ∷ [])
      ≡ (b'0' + a) ∷ b ∷ b':' ∷ c ∷ (b'0' + d) ∷ []
unfolding trim trim_left
trimmed a b c d ha hd = rw (digit_not_space a ha, digit_not_space d hd) refl

split_two :
    (a b c d : ℕ)
    → a < 10
    → b < 10
    → c < 10
    → d < 10
    → split_from [] ((b'0' + a) ∷ (b'0' + b) ∷ b':' ∷ (b'0' + c) ∷ (b'0' + d) ∷ [])
      ≡ ((b'0' + a) ∷ (b'0' + b) ∷ []) ∷ ((b'0' + c) ∷ (b'0' + d) ∷ []) ∷ []
unfolding split_from
split_two a b c d ha hb hc hd = ground arith

atoi_two :
    (a b : ℕ) → a < 10 → b < 10 → atoi ((b'0' + a) ∷ (b'0' + b) ∷ []) ≡ some (pos (a * 10 + b))
unfolding atoi number digits_from
atoi_two a b ha hb = ground arith

parse_digits :
    (a b c d : ℕ)
    → a < 10
    → b < 10
    → c < 10
    → d < 10
    → parse_clock ((b'0' + a) ∷ (b'0' + b) ∷ b':' ∷ (b'0' + c) ∷ (b'0' + d) ∷ [])
      ≡ checked_clock (some (pos (a * 10 + b))) (some (pos (c * 10 + d)))
unfolding parse_clock clock_of_parts
parse_digits a b c d ha hb hc hd =
    rw
      (
        trimmed a (b'0' + b) (b'0' + c) d ha hd,
        split_two a b c d ha hb hc hd,
        atoi_two a b ha hb,
        atoi_two c d hc hd,
      )
      refl

-- A time of day that is read is one of the 1440 minutes of a day.
pub parse_clock_lem : (s : Text) (c : ℕ) → parse_clock s ≡ ok c → c < 1440
unfolding parse_clock
parse_clock_lem s c h = clock_of_parts-eq_ok (split_from [] (trim s)) c h

-- A time of day that is written is read back as it was.
pub parse_clock-clock_text : (c : ℕ) → c < 1440 → parse_clock (clock_text c) ≡ ok c
unfolding clock_text checked_clock
parse_clock-clock_text c h =
    parse_digits (c / 60 / 10) (c / 60 % 10) (c % 60 / 10) (c % 60 % 10) (omega arith) (omega arith)
      (omega arith) (omega arith)
    ∙ ground arith
