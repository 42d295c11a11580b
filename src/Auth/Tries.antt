-- ===== src/Auth/Tries.antt =====
-- A run of logins on one address within its window.
use attendance_system.Prelude.{
  subst, ℕ, ◌+◌, ◌≤◌, ◌<◌, ◌≡◌, refl, sym, ap, inl, inr, true, false, none, [], ◌∷◌, arith,
  Bool-cases, length, find, All, find-snoc, find-of_none,
}
use attendance_system.Text.{Text, text_eq, text_eq_iff}
use attendance_system.Time.{Instant}
use attendance_system.User.Validation.{normalize_email}
use attendance_system.Auth.Attempts.{Counter, Redis, is_counting, count_attempt, delete_key}
use attendance_system.Auth.Service.{Guard, ip_window, email_window, ip_key, email_key, login}
use attendance_system.Auth.Lockout.{NotLetIn, admit-own, login-own, login-other, login-capped}
use attendance_system.Db.{Db}
use attendance_system.Auth.Limits.{Running, still, counts_other}
use attendance_system.Auth.Store.{refused, too_many_attempts}

-- Calls of `Login`, in the order of time, since the address `ip`, `email` was tried for the first
-- time, at `start`: how many were on that address, none of which let anybody in, and what Redis
-- holds after the last one, at the time that is given.
module _ (ip email : Text) (start : Instant) where
  pub data Tries : ℕ → Instant → Redis → Type 0 where
    tried_first :
        (guard : Guard) (db : Db) (redis : Redis) (sent password : Text)
        → guard.now ≡ start
        → normalize_email guard.to_lower sent ≡ email
        → find (is_counting start (ip_key ip email)) redis ≡ none
        → NotLetIn (login guard db redis sent password ip).0
        → Tries 1 start (login guard db redis sent password ip).2
    tried_again :
        {n : ℕ} {now : Instant} {redis : Redis} (guard : Guard) (db : Db) (sent password : Text)
        → Tries n now redis
        → now ≤ guard.now
        → guard.now < start + ip_window
        → normalize_email guard.to_lower sent ≡ email
        → NotLetIn (login guard db redis sent password ip).0
        → Tries (n + 1) guard.now (login guard db redis sent password ip).2
    elsewhere :
        {n : ℕ} {now : Instant} {redis : Redis} (guard : Guard) (db : Db)
        (sent password other : Text)
        → Tries n now redis
        → now ≤ guard.now
        → guard.now < start + ip_window
        → text_eq (ip_key other (normalize_email guard.to_lower sent)) (ip_key ip email) ≡ false
        → Tries n guard.now (login guard db redis sent password other).2

fresh-Running :
    (now : Instant) (key : Text) (length : ℕ) (redis : Redis)
    → find (is_counting now key) redis ≡ none
    → 0 < length
    → Running now key 1 (now + length) (count_attempt now key length redis).1
unfolding count_attempt
fresh-Running now key length redis e l =
    let new : Counter = record { key = key; count = 1; ends_at = now + length } in
    let dropped : find (is_counting now key) (delete_key key redis) ≡ none =
      find-of_none (is_counting now key) (delete_key key redis) (gone redis) in
    let own : text_eq key key ≡ true = (text_eq_iff key key).1 refl in
    rw e (record {
      counter = new;
      running =
          find-snoc (is_counting now key) (delete_key key redis) new dropped
            (rw own (ground (arith, l)));
      at_least_n = omega arith;
      lasts = omega arith;
    })
  where
    gone : (redis : Redis) → All (λ c. is_counting now key c ≡ false) (delete_key key redis)
    gone [] = tt
    gone (c ∷ redis) = elim (Bool-cases (text_eq c.key key)) [
      | inl y ↦ rw y (gone redis)
      | inr o ↦ rw o (rw o refl, gone redis)
    ]

-- The first login on an address, when no counter of it runs.
login-first :
    (guard : Guard) (db : Db) (redis : Redis) (sent password ip : Text)
    → find (is_counting guard.now (ip_key ip (normalize_email guard.to_lower sent))) redis ≡ none
    → NotLetIn (login guard db redis sent password ip).0
    → Running guard.now
        (ip_key ip (normalize_email guard.to_lower sent))
        1
        (guard.now + ip_window)
        (login guard db redis sent password ip).2
unfolding login
login-first guard db redis sent password ip e h =
    let name = normalize_email guard.to_lower sent in
    let key = ip_key ip name in
    let first = count_attempt guard.now key ip_window redis in
    let second = count_attempt guard.now (email_key name) email_window first.1 in
    let r1 = fresh-Running guard.now key ip_window redis e (omega arith) in
    admit-own guard db name password ip key first second 1 (guard.now + ip_window) r1
      (counts_other guard.now key (email_key name) email_window 1 (guard.now + ip_window) first.1
        refl r1)
      h

Tries-Running :
    (ip email : Text) (start : Instant) (n : ℕ) (now : Instant) (redis : Redis)
    → Tries ip email start n now redis
    → Running now (ip_key ip email) n (start + ip_window) redis
Tries-Running ip email start _ _ _ (Tries.tried_first guard db redis sent password s e f h) =
    let name = normalize_email guard.to_lower sent in
    let after = (login guard db redis sent password ip).2 in
    let idle : find (is_counting guard.now (ip_key ip name)) redis ≡ none =
      subst (λ k. find (is_counting guard.now (ip_key ip k)) redis ≡ none) (sym e)
        (subst (λ t. find (is_counting t (ip_key ip email)) redis ≡ none) (sym s) f) in
    subst (λ k. Running start (ip_key ip k) 1 (start + ip_window) after) e
      (subst (λ t. Running t (ip_key ip name) 1 (t + ip_window) after) s
        (login-first guard db redis sent password ip idle h))
Tries-Running ip email start _ _ _
      (Tries.tried_again {n = n} {now = now} {redis = redis} guard db sent password t a b e h) =
    login-own guard db redis sent password ip ip email n (start + ip_window)
      (still now guard.now (ip_key ip email) n (start + ip_window) redis a b
        (Tries-Running ip email start n now redis t))
      (ap (ip_key ip) e) h
Tries-Running ip email start _ _ _
      (Tries.elsewhere {n = n} {now = now} {redis = redis} guard db sent password other t a b k) =
    login-other guard db redis sent password other ip email n (start + ip_window)
      (still now guard.now (ip_key ip email) n (start + ip_window) redis a b
        (Tries-Running ip email start n now redis t))
      k

-- After ten logins on one address and email within fifteen minutes of the first, none of which let
-- anybody in, each further one in that time is refused, also with the right password, and writes
-- nothing to the database, whatever is tried elsewhere in between.
pub login-locked :
    (ip email : Text) (start : Instant) (n : ℕ) (now : Instant) (redis : Redis) (guard : Guard)
    (db : Db) (sent password : Text)
    → Tries ip email start n now redis
    → 10 ≤ n
    → now ≤ guard.now
    → guard.now < start + ip_window
    → normalize_email guard.to_lower sent ≡ email
    → ((login guard db redis sent password ip).0 ≡ refused too_many_attempts)
      × ((login guard db redis sent password ip).1 ≡ db)
login-locked ip email start n now redis guard db sent password t l a b e =
    login-capped guard db redis sent password ip ip email n (start + ip_window)
      (still now guard.now (ip_key ip email) n (start + ip_window) redis a b
        (Tries-Running ip email start n now redis t))
      (ap (ip_key ip) e) l
