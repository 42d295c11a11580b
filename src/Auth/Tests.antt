-- ===== src/Auth/Tests.antt =====
-- Witnesses of the theorems on sessions, at the sample company.
use attendance_system.Prelude.{
  subst, ℕ, zero, suc, ◌+◌, ◌≡◌, refl, inl, inr, false, none, some, [], ◌∷◌, arith, ltb, Bool-cases,
  HasKey,
}
use attendance_system.Text.{trim, Text, text_eq}
use attendance_system.Access.{Role}
use attendance_system.Time.{Instant, minute, hour}
use attendance_system.User.Rows.{User}
use attendance_system.Auth.Rows.{RefreshToken}
use attendance_system.Auth.Store.{
  Refusal, set_tokens, insert_token, renew, rotate, rotate_refresh_token, refused, granted,
  too_many_attempts, token_reuse,
}
use attendance_system.Auth.Attempts.{Redis, count_attempt}
use attendance_system.Auth.Service.{
  Guard, TokenPair, refresh_ttl, max_attempts_per_ip, ip_window, max_attempts_per_email,
  email_window, ip_key, email_key, pair, authenticate, let_in, admit, login, refresh,
}
use attendance_system.Auth.OneUse.{refresh-once}
use attendance_system.Auth.Reuse.{has_session, refresh-reuse}
use attendance_system.Auth.Entry.{login-refresh}
use attendance_system.Auth.Lockout.{NotLetIn}
use attendance_system.Auth.Tries.{Tries, login-locked}
use attendance_system.Db.{Db}
use attendance_system.Samples.{text_a, person, company, half_past_nine}
use attendance_system.Auth.SignIn.{Opens, signed_in}
use attendance_system.Auth.Steps.{Reach}

-- A server that draws the token `drawn` at a time, with a hash that adds a letter and passwords that
-- are their own hashes.
abbrev server : Instant → Text → Guard
server now drawn = record {
  now = now;
  drawn = drawn;
  hash_token = λ t. b'h' ∷ t;
  matches = text_eq;
  sign = λ claims. [];
  to_lower = λ t. t;
}

abbrev first_token : Text
first_token = b'1' ∷ []

abbrev second_token : Text
second_token = b'2' ∷ []

abbrev employee_1 : User
employee_1 = person 1 Role.employee (some 2)

abbrev email_1 : Text
email_1 = 1 ∷ []

company-HasKey : HasKey (λ (u : User). u.id) company.users
company-HasKey = ((refl, (refl, (refl, tt))), ((refl, (refl, tt)), ((refl, tt), (tt, tt))))

employee-Opens : Opens (server half_past_nine first_token) company email_1 text_a employee_1
unfolding trim
employee-Opens = record { found = refl; right_password = refl; active = refl }

login-refresh_example :
    ((login (server half_past_nine first_token) company [] email_1 text_a []).0
      ≡ granted (pair (server half_past_nine first_token) employee_1 first_token))
    × ((refresh
          (server (half_past_nine + hour) second_token)
          (login (server half_past_nine first_token) company [] email_1 text_a []).1
          first_token).0
        ≡ granted (pair (server (half_past_nine + hour) second_token) employee_1 second_token))
login-refresh_example =
    login-refresh (server half_past_nine first_token) (server (half_past_nine + hour) second_token)
      company [] email_1 text_a [] employee_1 company-HasKey employee-Opens tt refl refl
      (ground arith) refl

abbrev session : Db
session = signed_in (server half_past_nine first_token) company employee_1

abbrev first_pair : TokenPair
first_pair = pair (server half_past_nine second_token) employee_1 second_token

refresh_runs :
    (refresh (server half_past_nine second_token) session first_token).0 ≡ granted first_pair
unfolding refresh rotate_refresh_token rotate renew insert_token
refresh_runs = refl

abbrev traded : Db
traded = (refresh (server half_past_nine second_token) session first_token).1

refresh-once_example :
    (r : Refusal) × ((refresh (server (half_past_nine + hour) text_a) traded first_token).0
      ≡ refused r)
refresh-once_example =
    refresh-once (server half_past_nine second_token) (server (half_past_nine + hour) text_a)
      session traded first_token first_pair refl (λ e. absurd (ground arith)) (omega arith)
      refresh_runs Reach.here

abbrev revoked_row : RefreshToken
revoked_row = record {
  user_id = 1;
  token_hash = b'h' ∷ first_token;
  expires_at = half_past_nine + refresh_ttl;
  revoked_at = some half_past_nine;
}

abbrev live_row : RefreshToken
live_row = record {
  user_id = 1;
  token_hash = b'h' ∷ second_token;
  expires_at = half_past_nine + refresh_ttl;
  revoked_at = none;
}

abbrev stolen : Db
stolen = set_tokens company (revoked_row ∷ live_row ∷ [])

abbrev an_hour_later : Guard
an_hour_later = server (half_past_nine + hour) text_a

refresh-reuse_example :
    ((refresh an_hour_later stolen first_token).0 ≡ refused token_reuse)
    × (has_session (refresh an_hour_later stolen first_token).1 1 ≡ false)
    × (has_session (refresh an_hour_later stolen first_token).1 2 ≡ has_session stolen 2)
refresh-reuse_example =
    refresh-reuse an_hour_later stolen first_token revoked_row 2 ((refl, tt), (tt, tt)) refl
      (λ e. absurd (ground arith))

abbrev tried : ℕ → Redis
tried zero = []
tried (suc n) =
    (login (server half_past_nine first_token) company (tried n) email_1 first_token []).2

admit-wrong :
    (guard : Guard) (db : Db) (email password ip : Text) (first second : ℕ × Redis)
    → authenticate guard db email password ≡ none
    → NotLetIn (admit guard db email password ip first second).0
unfolding admit let_in
admit-wrong guard db email password ip (a, redis1) (b, redis2) e =
    elim (Bool-cases (ltb max_attempts_per_ip a)) [
      | inl y ↦ rw y (inr refl)
      | inr o ↦ elim (Bool-cases (ltb max_attempts_per_email b)) [
        | inl y ↦ rw (o, y) (inr refl)
        | inr q ↦ rw (o, q, e) (inl refl)
      ]
    ]

wrong_password :
    (redis : Redis)
    → NotLetIn (login (server half_past_nine first_token) company redis email_1 first_token []).0
unfolding login authenticate trim
wrong_password redis =
    let guard = server half_past_nine first_token in
    let first = count_attempt half_past_nine (ip_key [] email_1) ip_window redis in
    admit-wrong guard company email_1 first_token [] first
      (count_attempt half_past_nine (email_key email_1) email_window first.1) refl

tries : (n : ℕ) → Tries [] email_1 half_past_nine (n + 1) half_past_nine (tried (suc n))
unfolding trim
tries zero =
    Tries.tried_first (server half_past_nine first_token) company [] email_1 first_token refl refl
      refl (wrong_password [])
tries (suc n) =
    subst (λ k. Tries [] email_1 half_past_nine k half_past_nine (tried (suc (suc n))))
      (omega arith)
      (Tries.tried_again (server half_past_nine first_token) company email_1 first_token (tries n)
        (omega arith) (omega arith) refl (wrong_password (tried (suc n))))

login-locked_example :
    ((login (server (half_past_nine + minute) first_token) company (tried 10) email_1 text_a []).0
      ≡ refused too_many_attempts)
    × ((login (server (half_past_nine + minute) first_token) company (tried 10) email_1 text_a []).1
        ≡ company)
unfolding trim
login-locked_example =
    login-locked [] email_1 half_past_nine 10 half_past_nine (tried 10)
      (server (half_past_nine + minute) first_token) company email_1 text_a (tries 9) (omega arith)
      (ground arith) (ground arith) refl
