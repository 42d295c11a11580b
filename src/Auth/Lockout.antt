-- ===== src/Auth/Lockout.antt =====
-- `Login` of auth/service.go refuses once an address has tried too often.
use attendance_system.Prelude.{
  subst, ℕ, ◌+◌, ◌≤◌, ◌<◌, String, ◌≡◌, refl, sym, ◌⊎◌, inl, inr, true, false, Option, none, some,
  arith, ltb, Bool-cases,
}
use attendance_system.Text.{Text, text_eq}
use attendance_system.User.Rows.{User}
use attendance_system.User.Validation.{normalize_email}
use attendance_system.Auth.Store.{
  Refusal, Answer, create_refresh_token, refused, granted, invalid_credentials, too_many_attempts,
}
use attendance_system.Auth.Attempts.{Redis, count_attempt}
use attendance_system.Auth.Service.{
  Guard, TokenPair, max_attempts_per_ip, ip_window, max_attempts_per_email, email_window, ip_key,
  email_key, pair, authenticate, new_session, answered, open_session, let_in, admit, login,
}
use attendance_system.Auth.Limits.{Running, counts_own, drops_other, counts_other}
use attendance_system.Db.{Db}

-- The answers that leave the address's counter standing.
abbrev pub NotLetIn : Answer TokenPair → Type 0
NotLetIn a = (a ≡ refused invalid_credentials) ⊎ (a ≡ refused too_many_attempts)

not_unnamed : (a : Answer TokenPair) (m : String) → a ≡ refused (Refusal.unnamed m) → ¬ NotLetIn a
not_unnamed a m e (inl h) = ground arith
not_unnamed a m e (inr h) = ground arith

not_granted : (a : Answer TokenPair) (p : TokenPair) → a ≡ granted p → ¬ NotLetIn a
not_granted a p e (inl h) = ground arith
not_granted a p e (inr h) = ground arith

answered-let_in :
    (guard : Guard) (db : Db) (u : User) (o : Option Db) → ¬ NotLetIn (answered guard db u o).0
answered-let_in guard db u none h = not_unnamed _ "store refresh token" refl h
answered-let_in guard db u (some db') h = not_granted _ (pair guard u guard.drawn) refl h

let_in-own :
    (guard : Guard) (db : Db) (redis : Redis) (key other : Text) (n until : ℕ) (o : Option User)
    → Running guard.now key n until redis
    → NotLetIn (let_in guard db redis other o).0
    → Running guard.now key n until (let_in guard db redis other o).2
unfolding let_in open_session
let_in-own guard db redis key other n until none r h = r
let_in-own guard db redis key other n until (some u) r h =
    absurd (answered-let_in guard db u (create_refresh_token guard.now db (new_session guard u)) h)

let_in-other :
    (guard : Guard) (db : Db) (redis : Redis) (key other : Text) (n until : ℕ) (o : Option User)
    → text_eq other key ≡ false
    → Running guard.now key n until redis
    → Running guard.now key n until (let_in guard db redis other o).2
unfolding let_in open_session
let_in-other guard db redis key other n until none k r = r
let_in-other guard db redis key other n until (some u) k r =
    drops_other guard.now key other n until redis k r

pub admit-own :
    (guard : Guard) (db : Db) (email password ip key : Text) (first second : ℕ × Redis)
    (n until : ℕ)
    → Running guard.now key n until first.1
    → Running guard.now key n until second.1
    → NotLetIn (admit guard db email password ip first second).0
    → Running guard.now key n until (admit guard db email password ip first second).2
unfolding admit
admit-own guard db email password ip key (a, redis1) (b, redis2) n until r s h =
    elim (Bool-cases (ltb max_attempts_per_ip a)) [
      | inl y ↦ rw y r
      | inr o ↦ elim (Bool-cases (ltb max_attempts_per_email b)) [
        | inl y ↦ rw (o, y) s
        | inr q ↦
            let h' : NotLetIn
                (let_in guard db redis2 (ip_key ip email)
                  (authenticate guard db email password)).0 =
              rw (o, q) at h in
            rw (o, q)
              (let_in-own guard db redis2 key (ip_key ip email) n until
                (authenticate guard db email password) s h')
      ]
    ]

admit-other :
    (guard : Guard) (db : Db) (email password ip key : Text) (first second : ℕ × Redis)
    (n until : ℕ)
    → text_eq (ip_key ip email) key ≡ false
    → Running guard.now key n until first.1
    → Running guard.now key n until second.1
    → Running guard.now key n until (admit guard db email password ip first second).2
unfolding admit
admit-other guard db email password ip key (a, redis1) (b, redis2) n until k r s =
    elim (Bool-cases (ltb max_attempts_per_ip a)) [
      | inl y ↦ rw y r
      | inr o ↦ elim (Bool-cases (ltb max_attempts_per_email b)) [
        | inl y ↦ rw (o, y) s
        | inr q ↦
            rw (o, q)
              (let_in-other guard db redis2 key (ip_key ip email) n until
                (authenticate guard db email password) k s)
      ]
    ]

admit-capped :
    (guard : Guard) (db : Db) (email password ip : Text) (first second : ℕ × Redis)
    → 10 < first.0
    → ((admit guard db email password ip first second).0 ≡ refused too_many_attempts)
      × ((admit guard db email password ip first second).1 ≡ db)
unfolding admit
admit-capped guard db email password ip (a, redis1) (b, redis2) l =
    let over : ltb max_attempts_per_ip a ≡ true = ground arith in rw over (refl, refl)

-- The two counters of a login have different names.
other_name : (email ip to : Text) → text_eq (email_key email) (ip_key ip to) ≡ false
other_name email ip to = refl

module _ (guard : Guard) (db : Db) (redis : Redis) (email password ip ip0 to : Text) (n until : ℕ)
    (r : Running guard.now (ip_key ip0 to) n until redis) where
  abbrev name : Text
  name = normalize_email guard.to_lower email

  abbrev first : ℕ × Redis
  first = count_attempt guard.now (ip_key ip name) ip_window redis

  abbrev second : ℕ × Redis
  second = count_attempt guard.now (email_key name) email_window first.1

  second-Running :
      (m : ℕ)
      → Running guard.now (ip_key ip0 to) m until first.1
      → Running guard.now (ip_key ip0 to) m until second.1
  second-Running m r1 =
      counts_other guard.now (ip_key ip0 to) (email_key name) email_window m until first.1
        (other_name name ip0 to) r1

  -- A login on the address counts one more, unless it lets somebody in.
  pub login-own :
      ip_key ip name ≡ ip_key ip0 to
      → NotLetIn (login guard db redis email password ip).0
      → Running guard.now (ip_key ip0 to) (n + 1) until (login guard db redis email password ip).2
  unfolding login
  login-own e h =
      let r1 =
        subst
          (λ k.
            Running guard.now (ip_key ip0 to) (n + 1) until
              (count_attempt guard.now k ip_window redis).1)
          (sym e) (counts_own guard.now (ip_key ip0 to) ip_window n until redis r).1 in
      admit-own guard db name password ip (ip_key ip0 to) first second (n + 1) until r1
        (second-Running (n + 1) r1) h

  -- A login on another address leaves the count.
  pub login-other :
      text_eq (ip_key ip name) (ip_key ip0 to) ≡ false
      → Running guard.now (ip_key ip0 to) n until (login guard db redis email password ip).2
  unfolding login
  login-other k =
      let r1 =
        counts_other guard.now (ip_key ip0 to) (ip_key ip name) ip_window n until redis k r in
      admit-other guard db name password ip (ip_key ip0 to) first second n until k r1
        (second-Running n r1)

  pub login-capped :
      ip_key ip name ≡ ip_key ip0 to
      → 10 ≤ n
      → ((login guard db redis email password ip).0 ≡ refused too_many_attempts)
        × ((login guard db redis email password ip).1 ≡ db)
  unfolding login
  login-capped e l =
      let more =
        subst (λ k. n + 1 ≤ (count_attempt guard.now k ip_window redis).0) (sym e)
          (counts_own guard.now (ip_key ip0 to) ip_window n until redis r).0 in
      admit-capped guard db name password ip first second (omega (arith, more, l))
