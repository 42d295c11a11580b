-- ===== src/Auth/Service.antt =====
-- auth/service.go, auth/validation.go and auth/constant.go: signing in, renewing and ending a session.
use attendance_system.Prelude.{
  ℕ, ◌+◌, ◌*◌, Bool, true, not, ◌&&◌, Option, none, some, [], ◌∷◌, ◌++◌, ltb, if◌then◌else◌,
}
use attendance_system.Text.{Text, byte_len}
use attendance_system.Access.{Role, Claims}
use attendance_system.Time.{Instant, Date, minute, hour}
use attendance_system.User.Rows.{User}
use attendance_system.User.Validation.{normalize_email, has_at, min_password_len}
use attendance_system.Auth.Store.{
  Refusal, Answer, user_by_email, create_refresh_token, rotate_refresh_token, revoke_refresh_token,
  create_user_if_absent, refused, granted, invalid_credentials, too_many_attempts,
}
use attendance_system.Auth.Attempts.{Redis, count_attempt, delete_key}
use attendance_system.Db.{Db}
use attendance_system.Auth.Rows.{RefreshToken}

-- What a call reads besides the database and Redis: the time, the token that rand.Text draws, and
-- the functions of sha256, bcrypt, the JWT library and strings.
pub record Guard : Type 0 where
  pub now : Instant
  pub drawn : Text
  pub hash_token : Text → Text
  pub matches : Text → Text → Bool
  pub sign : Claims → Text
  pub to_lower : Text → Text

pub record TokenPair : Type 0 where
  pub access_token : Text
  pub refresh_token : Text

abbrev pub refresh_ttl : ℕ
refresh_ttl = 30 * 24 * hour

abbrev pub max_attempts_per_ip : ℕ
max_attempts_per_ip = 10

abbrev pub ip_window : ℕ
ip_window = 15 * minute

abbrev pub max_attempts_per_email : ℕ
max_attempts_per_email = 100

abbrev pub email_window : ℕ
email_window = hour

-- "login_attempts:".
abbrev pub attempts_key : Text
attempts_key =
    b'l' ∷ b'o' ∷ b'g' ∷ b'i' ∷ b'n' ∷ b'_' ∷ b'a' ∷ b't' ∷ b't' ∷ b'e' ∷ b'm' ∷ b'p' ∷ b't' ∷ b's'
    ∷ b':' ∷ []

abbrev pub ip_key : Text → Text → Text
ip_key ip email = attempts_key ++ b'i' ∷ b'p' ∷ b':' ∷ (ip ++ b':' ∷ email)

abbrev pub email_key : Text → Text
email_key email = attempts_key ++ b'e' ∷ b'm' ∷ b'a' ∷ b'i' ∷ b'l' ∷ b':' ∷ email

-- `pair`.
abbrev pub pair : Guard → User → Text → TokenPair
pair guard u refresh = record {
  access_token = guard.sign (record { user_id = u.id; role = u.role });
  refresh_token = refresh;
}

-- The account that a password opens.
abbrev pub opened : Guard → Text → Option User → Option User
opened guard password none = none
opened guard password (some u) =
    if guard.matches u.password_hash password && u.is_active then some u else none

unfoldable pub authenticate : Guard → Db → Text → Text → Option User
authenticate guard db email password = opened guard password (user_by_email db email)

-- The row of a new session.
abbrev pub new_session : Guard → User → RefreshToken
new_session guard u = record {
  user_id = u.id;
  token_hash = guard.hash_token guard.drawn;
  expires_at = guard.now + refresh_ttl;
  revoked_at = none;
}

abbrev pub answered : Guard → Db → User → Option Db → Answer TokenPair × Db
answered guard db u none = (refused (Refusal.unnamed "store refresh token"), db)
answered guard db u (some db') = (granted (pair guard u guard.drawn), db')

-- The end of `Login`, for the account that was opened.
unfoldable pub open_session : Guard → Db → User → Answer TokenPair × Db
open_session guard db u =
    answered guard db u (create_refresh_token guard.now db (new_session guard u))

-- `Login` after the attempts are counted; `key` is the counter of the address.
unfoldable pub let_in : Guard → Db → Redis → Text → Option User → Answer TokenPair × Db × Redis
unfolding open_session
let_in guard db redis key none = (refused invalid_credentials, db, redis)
let_in guard db redis key (some u) =
    let (answer, db') = open_session guard db u in (answer, db', delete_key key redis)

-- `Login` on the two counts, each with the counters after it.
unfoldable pub admit :
    Guard → Db → Text → Text → Text → ℕ × Redis → ℕ × Redis → Answer TokenPair × Db × Redis
unfolding authenticate let_in
admit guard db email password ip (by_ip, redis1) (by_email, redis2) =
    if ltb max_attempts_per_ip by_ip
    then (refused too_many_attempts, db, redis1)
    else if ltb max_attempts_per_email by_email
    then (refused too_many_attempts, db, redis2)
    else let_in guard db redis2 (ip_key ip email) (authenticate guard db email password)

unfoldable pub login : Guard → Db → Redis → Text → Text → Text → Answer TokenPair × Db × Redis
unfolding admit
login guard db redis sent_email password ip =
    let email = normalize_email guard.to_lower sent_email in
    let first = count_attempt guard.now (ip_key ip email) ip_window redis in
    let second = count_attempt guard.now (email_key email) email_window first.1 in
    admit guard db email password ip first second

abbrev pub paired : Guard → Answer User × Db → Answer TokenPair × Db
paired guard (refused r, db) = (refused r, db)
paired guard (granted u, db) = (granted (pair guard u guard.drawn), db)

unfoldable pub refresh : Guard → Db → Text → Answer TokenPair × Db
refresh guard db token =
    paired guard
      (rotate_refresh_token guard.now db (guard.hash_token token) (guard.hash_token guard.drawn))

unfoldable pub logout : Guard → Db → Text → Db
logout guard db token = revoke_refresh_token guard.now db (guard.hash_token token)

-- "Super Admin".
abbrev pub seeded_name : Text
seeded_name = b'S' ∷ b'u' ∷ b'p' ∷ b'e' ∷ b'r' ∷ b' ' ∷ b'A' ∷ b'd' ∷ b'm' ∷ b'i' ∷ b'n' ∷ []

-- `SeedAdmin` with `validateSeedAdmin`; `hash` is bcrypt.
unfoldable pub seed_admin :
    Guard → (Text → Text) → (Text → Option Text) → Date → Db → Text → Text → Answer Db
seed_admin guard lower hash current_date db sent_email password =
    let email = normalize_email guard.to_lower sent_email in
    if not (has_at email)
    then refused (Refusal.unnamed "seed admin email %q is not an email address")
    else if ltb (byte_len password) min_password_len
    then refused (Refusal.unnamed "seed admin password must be at least %d bytes")
    else elim (hash password) [
      | none ↦ refused (Refusal.unnamed "seed admin password: %w")
      | some h ↦ create_user_if_absent lower current_date db (record {
        id = 0;
        email = email;
        password_hash = h;
        full_name = seeded_name;
        role = Role.super_admin;
        is_active = true;
        join_date = current_date;
        department_id = none;
        manager_id = none;
        default_schedule_id = none;
        deleted_at = none;
      })
    ]
