-- ===== src/Auth/Limits.antt =====
-- The cap on attempts of auth/service.go.
use attendance_system.Prelude.{
  ℕ, ◌+◌, ◌≤◌, ◌<◌, ◌≡◌, refl, sym, ◌∙◌, inl, inr, true, false, not, some, [], ◌∷◌, arith,
  Bool-cases, Option-cases, length, find, find-holds, find-rewrite_same, find-append, find-updated,
  find-keep, find-narrow,
}
use attendance_system.Text.{Text, text_eq, text_eq_iff}
use attendance_system.Time.{Instant}
use attendance_system.Auth.Attempts.{Counter, Redis, is_counting, count_attempt, delete_key}

-- The running counter of a key, which holds at least n and does not end before a time.
pub record Running (now : Instant) (key : Text) (n : ℕ) (until : Instant) (redis : Redis)
    : Type 0 where
  pub counter : Counter
  pub running : find (is_counting now key) redis ≡ some counter
  pub at_least_n : n ≤ counter.count
  pub lasts : until ≤ counter.ends_at

abbrev one_more : Counter → Counter
one_more c = record c { count = c.count + 1 }

-- The counter is still the one that runs, as long as its window lasts.
pub still :
    (now later : Instant) (key : Text) (n until : ℕ) (redis : Redis)
    → now ≤ later
    → later < until
    → Running now key n until redis
    → Running later key n until redis
still now later key n until redis a b r =
    let hit = find-holds (is_counting now key) redis r.running in
    record {
      counter = r.counter;
      running =
          find-narrow (is_counting now key) (is_counting later key) redis r.counter
            (λ c k. ground arith) (ground (arith, hit, r.lasts)) r.running;
      at_least_n = r.at_least_n;
      lasts = r.lasts;
    }

-- Another attempt on the key counts one more.
pub counts_own :
    (now : Instant) (key : Text) (length n until : ℕ) (redis : Redis)
    → Running now key n until redis
    → (n + 1 ≤ (count_attempt now key length redis).0)
      × Running now key (n + 1) until (count_attempt now key length redis).1
unfolding count_attempt
counts_own now key length n until redis r =
    let hit = find-holds (is_counting now key) redis r.running in
    let there =
      find-updated (is_counting now key) (is_counting now key) one_more redis {r = r.counter}
        (λ c. ground arith) r.running in
    rw (r.running) (
      omega (arith, r.at_least_n),
      record {
        counter = one_more r.counter;
        running = rw hit at there;
        at_least_n = omega (arith, r.at_least_n);
        lasts = r.lasts;
      },
    )

no_other :
    (key other : Text) (c : Counter)
    → text_eq other key ≡ false
    → text_eq c.key key ≡ true
    → text_eq c.key other ≡ false
no_other key other c n h = elim (Bool-cases (text_eq c.key other)) [
  | inl k ↦
      let same : other ≡ key = sym ((text_eq_iff c.key other).0 k) ∙ (text_eq_iff c.key key).0 h in
      absurd (ground (arith, n, (text_eq_iff other key).1 same))
  | inr o ↦ o
]

-- Dropping the counters of another key.
pub drops_other :
    (now : Instant) (key other : Text) (n until : ℕ) (redis : Redis)
    → text_eq other key ≡ false
    → Running now key n until redis
    → Running now key n until (delete_key other redis)
drops_other now key other n until redis o r = record {
  counter = r.counter;
  running =
      find-keep (λ c. not (text_eq c.key other)) (is_counting now key) redis
        (λ c k. rw (no_other key other c o (ground arith)) refl)
      ∙ r.running;
  at_least_n = r.at_least_n;
  lasts = r.lasts;
}

-- An attempt on another key leaves the counter alone.
pub counts_other :
    (now : Instant) (key other : Text) (length n until : ℕ) (redis : Redis)
    → text_eq other key ≡ false
    → Running now key n until redis
    → Running now key n until (count_attempt now other length redis).1
unfolding count_attempt
counts_other now key other length n until redis o r =
    elim (Option-cases (find (is_counting now other) redis)) [
      | inl e ↦
          let kept = drops_other now key other n until redis o r in
          let new : Counter = record { key = other; count = 1; ends_at = now + length } in
          rw e (record {
            counter = kept.counter;
            running =
                find-append (is_counting now key) (delete_key other redis) (new ∷ [])
                  {r = kept.counter} kept.running;
            at_least_n = kept.at_least_n;
            lasts = kept.lasts;
          })
      | inr (c, e) ↦ rw e (record {
        counter = r.counter;
        running =
            find-rewrite_same (is_counting now other) one_more (is_counting now key) redis
              (λ c k. elim (Bool-cases (text_eq c.key key)) [
                | inl y ↦ absurd (ground (arith, no_other key other c o y))
                | inr q ↦ rw q refl
              ])
              (λ c k. elim (Bool-cases (text_eq c.key key)) [
                | inl y ↦ absurd (ground (arith, no_other key other c o y))
                | inr q ↦ rw q refl
              ])
            ∙ r.running;
        at_least_n = r.at_least_n;
        lasts = r.lasts;
      })
    ]
