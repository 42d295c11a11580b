-- ===== src/Auth/SignIn.antt =====
-- Signing in with the right password, when no attempts are counted any more.
use attendance_system.Prelude.{
  ℕ, ◌+◌, ◌≤◌, ◌≡◌, refl, ap, ◌∙◌, inl, inr, Bool, true, false, not, none, some, List, [], ◌∷◌,
  ◌++◌, arith, Bool-cases, length, any, keep, find, All, All-map, find-snoc_other, find-of_none,
  keep-All,
}
use attendance_system.Text.{Text, text_eq}
use attendance_system.Time.{Instant}
use attendance_system.User.Rows.{User}
use attendance_system.User.Validation.{normalize_email}
use attendance_system.Auth.Store.{
  has_hash, set_tokens, user_by_email, insert_token, is_expired_of, create_refresh_token, granted,
}
use attendance_system.Auth.Attempts.{
  Counter, Redis, is_counting, counted, count_attempt, delete_key,
}
use attendance_system.Auth.Service.{
  Guard, ip_window, email_window, ip_key, email_key, pair, opened, authenticate, new_session,
  open_session, let_in, admit, login,
}
use attendance_system.Db.{Db}

-- A counter whose window has ended.
abbrev pub Over : Instant → Counter → Type 0
Over now c = c.ends_at ≤ now

nobody_counts :
    (now : Instant) (key : Text) (redis : Redis)
    → All (Over now) redis
    → find (is_counting now key) redis ≡ none
nobody_counts now key redis h =
    find-of_none (is_counting now key) redis
      (All-map (Over now) (λ c. is_counting now key c ≡ false) (λ c o. ground arith) redis h)

-- The counters after the first attempt on an address.
abbrev restarted : Instant → Text → ℕ → Redis → Redis
restarted now key length redis =
    keep (λ c. not (text_eq c.key key)) redis
    ++ record { key = key; count = 1; ends_at = now + length } ∷ []

first_attempt :
    (now : Instant) (key : Text) (length : ℕ) (redis : Redis)
    → find (is_counting now key) redis ≡ none
    → count_attempt now key length redis ≡ (1, restarted now key length redis)
unfolding count_attempt
first_attempt now key length redis h = ap (counted now key length redis) h

-- The two counters have different names.
other_counter :
    (now : Instant) (ip email : Text) (redis : Redis)
    → All (Over now) redis
    → find (is_counting now (email_key email)) (restarted now (ip_key ip email) ip_window redis)
      ≡ none
other_counter now ip email redis h =
    let new : Counter = record { key = ip_key ip email; count = 1; ends_at = now + ip_window } in
    find-snoc_other (is_counting now (email_key email))
      (keep (λ c. not (text_eq c.key (ip_key ip email))) redis) new refl
    ∙ nobody_counts now (email_key email) (keep (λ c. not (text_eq c.key (ip_key ip email))) redis)
        (keep-All (λ c. not (text_eq c.key (ip_key ip email))) (Over now) redis h)

-- The account that signs in.
pub record Opens (guard : Guard) (db : Db) (email password : Text) (u : User) : Type 0 where
  pub found : user_by_email db (normalize_email guard.to_lower email) ≡ some u
  pub right_password : guard.matches u.password_hash password ≡ true
  pub active : u.is_active ≡ true

-- The database with the new session.
abbrev pub signed_in : Guard → Db → User → Db
signed_in guard db u =
    set_tokens db (
      keep (λ t. not (is_expired_of guard.now u.id t)) db.refresh_tokens
      ++ new_session guard u ∷ [])

pub keep-any {ℓ} :
    {A : Type ℓ} (p q : A → Bool) (xs : List A) → any q xs ≡ false → any q (keep p xs) ≡ false
keep-any p q [] h = refl
keep-any p q (x ∷ xs) h = elim (Bool-cases (p x)) [
  | inl y ↦ rw y (ground (arith, keep-any p q xs))
  | inr o ↦ rw o (keep-any p q xs (ground arith))
]

pub create-signed_in :
    (guard : Guard) (db : Db) (u : User)
    → any (has_hash (guard.hash_token guard.drawn)) db.refresh_tokens ≡ false
    → create_refresh_token guard.now db (new_session guard u) ≡ some (signed_in guard db u)
unfolding create_refresh_token insert_token
create-signed_in guard db u n =
    let kept =
      keep-any (λ t. not (is_expired_of guard.now u.id t)) (has_hash (guard.hash_token guard.drawn))
        db.refresh_tokens n in
    rw kept refl

authenticate-Opens :
    (guard : Guard) (db : Db) (email password : Text) (u : User)
    → Opens guard db email password u
    → authenticate guard db (normalize_email guard.to_lower email) password ≡ some u
unfolding authenticate
authenticate-Opens guard db email password u o =
    ap (opened guard password) o.found ∙ rw (o.right_password, o.active) refl

admitted :
    (guard : Guard) (db : Db) (email password ip : Text) (redis1 redis2 : Redis) (u : User)
    → authenticate guard db email password ≡ some u
    → create_refresh_token guard.now db (new_session guard u) ≡ some (signed_in guard db u)
    → admit guard db email password ip (1, redis1) (1, redis2) ≡ (
      granted (pair guard u guard.drawn),
      signed_in guard db u,
      delete_key (ip_key ip email) redis2,
    )
unfolding admit let_in open_session
admitted guard db email password ip redis1 redis2 u a c = rw (a, c) refl

-- With all counters over and a hash that is not taken, the right password gets in.
pub login-granted :
    (guard : Guard) (db : Db) (redis : Redis) (email password ip : Text) (u : User)
    → Opens guard db email password u
    → All (Over guard.now) redis
    → any (has_hash (guard.hash_token guard.drawn)) db.refresh_tokens ≡ false
    → ((login guard db redis email password ip).0 ≡ granted (pair guard u guard.drawn))
      × ((login guard db redis email password ip).1 ≡ signed_in guard db u)
unfolding login
login-granted guard db redis email password ip u o h n =
    let email' = normalize_email guard.to_lower email in
    let one =
      first_attempt guard.now (ip_key ip email') ip_window redis
        (nobody_counts guard.now (ip_key ip email') redis h) in
    let two =
      first_attempt guard.now (email_key email') email_window
        (restarted guard.now (ip_key ip email') ip_window redis)
        (other_counter guard.now ip email' redis h) in
    let done =
      admitted guard db email' password ip (restarted guard.now (ip_key ip email') ip_window redis)
        (restarted guard.now (email_key email') email_window
          (restarted guard.now (ip_key ip email') ip_window redis))
        u (authenticate-Opens guard db email password u o) (create-signed_in guard db u n) in
    rw (one, two, done) (refl, refl)
