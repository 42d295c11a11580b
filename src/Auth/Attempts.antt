-- ===== src/Auth/Attempts.antt =====
-- The login counters that auth/service.go keeps in Redis: SETNX with a window, then INCR. A counter
-- is gone when its window has ended.
use attendance_system.Prelude.{
  ℕ, ◌+◌, Bool, not, ◌&&◌, Option, none, some, List, [], ◌∷◌, ◌++◌, ltb, keep, find, rewrite,
}
use attendance_system.Text.{Text, text_eq}
use attendance_system.Time.{Instant}

pub record Counter : Type 0 where
  pub key : Text
  pub count : ℕ
  pub ends_at : Instant

abbrev pub Redis : Type 0
Redis = List Counter

abbrev pub is_counting : Instant → Text → Counter → Bool
is_counting now key c = text_eq c.key key && ltb now c.ends_at

-- The counter of a key after one more attempt, by the counter that was running.
abbrev pub counted : Instant → Text → ℕ → Redis → Option Counter → ℕ × Redis
counted now key window redis none = (
  1,
  keep (λ c. not (text_eq c.key key)) redis
      ++ record { key = key; count = 1; ends_at = now + window } ∷ [],
)
counted now key window redis (some c) = (
  c.count + 1,
  rewrite (is_counting now key) (λ (c : Counter). record c { count = c.count + 1 }) redis,
)

-- `countAttempt`: the count with this attempt, and the counters after it.
unfoldable pub count_attempt : Instant → Text → ℕ → Redis → ℕ × Redis
count_attempt now key window redis = counted now key window redis (find (is_counting now key) redis)

-- DEL.
abbrev pub delete_key : Text → Redis → Redis
delete_key key redis = keep (λ c. not (text_eq c.key key)) redis
