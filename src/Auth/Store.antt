-- ===== src/Auth/Store.antt =====
-- auth/repository.go: refresh tokens. `now` is the transaction's time. The id of a user is never 0.
use attendance_system.Prelude.{
  ℕ, ◌+◌, String, Bool, true, false, not, ◌&&◌, Option, none, some, List, [], ◌∷◌, ◌++◌, ltb, leb,
  ◌==◌, if◌then◌else◌, any, keep, find, rewrite,
}
use attendance_system.Text.{Text, text_eq}
use attendance_system.Time.{Instant, Date}
use attendance_system.User.Rows.{User}
use attendance_system.User.Hierarchy.{is_live}
use attendance_system.User.Store.{is_user, has_email}
use attendance_system.Auth.Rows.{RefreshToken}
use attendance_system.Db.{Db}

-- `ErrInvalidCredentials`, `ErrTooManyAttempts`, `ErrInvalidToken`, `ErrTokenReuse`, and the errors
-- that the module does not name.
pub data Refusal : Type 0 where
  invalid_credentials too_many_attempts invalid_token token_reuse : Refusal
  unnamed : String → Refusal

pub data Answer {ℓ} (A : Type ℓ) : Type ℓ where
  refused : Refusal → Answer A
  granted : A → Answer A

abbrev pub reuse_grace : ℕ
reuse_grace = 30000000000

abbrev pub has_hash : Text → RefreshToken → Bool
has_hash hash t = text_eq t.token_hash hash

abbrev pub is_revoked : RefreshToken → Bool
is_revoked t = elim t.revoked_at [ none ↦ false | some _ ↦ true ]

-- token_hash = … AND revoked_at IS NULL AND expires_at > now().
abbrev pub is_usable : Instant → Text → RefreshToken → Bool
is_usable now hash t = has_hash hash t && not (is_revoked t) && ltb now t.expires_at

abbrev pub revoked_now : Instant → RefreshToken → RefreshToken
revoked_now now t = record t { revoked_at = some now }

abbrev pub set_tokens : Db → List RefreshToken → Db
set_tokens db tokens = record db { refresh_tokens = tokens }

abbrev pub user_by_email : Db → Text → Option User
user_by_email db email = find (λ u. is_live u && text_eq u.email email) db.users

-- A row with a hash that is in the table breaks its UNIQUE.
unfoldable pub insert_token : RefreshToken → List RefreshToken → Option (List RefreshToken)
insert_token new tokens =
    if any (has_hash new.token_hash) tokens then none else some (tokens ++ new ∷ [])

abbrev pub is_expired_of : Instant → ℕ → RefreshToken → Bool
is_expired_of now user t = (t.user_id == user) && leb t.expires_at now

abbrev pub with_tokens : Db → Option (List RefreshToken) → Option Db
with_tokens db none = none
with_tokens db (some tokens) = some (set_tokens db tokens)

unfoldable pub create_refresh_token : Instant → Db → RefreshToken → Option Db
unfolding insert_token
create_refresh_token now db new =
    with_tokens db
      (insert_token new (keep (λ t. not (is_expired_of now new.user_id t)) db.refresh_tokens))

abbrev pub was_reused : Instant → Text → RefreshToken → Bool
was_reused now hash t =
    has_hash hash t && elim t.revoked_at [ none ↦ false | some at ↦ ltb (at + reuse_grace) now ]

abbrev pub is_session_of : ℕ → RefreshToken → Bool
is_session_of user t = (t.user_id == user) && not (is_revoked t)

-- `revokeAllIfReused`, on the row that was revoked before the grace began.
abbrev pub revoke_all : Instant → Db → Option RefreshToken → Answer User × Db
revoke_all now db none = (refused invalid_token, db)
revoke_all now db (some t) = (
  refused token_reuse,
  set_tokens db (rewrite (is_session_of t.user_id) (revoked_now now) db.refresh_tokens),
)

unfoldable pub revoke_all_if_reused : Instant → Db → Text → Answer User × Db
revoke_all_if_reused now db hash = revoke_all now db (find (was_reused now hash) db.refresh_tokens)

abbrev pub active_owner : Db → ℕ → Option User
active_owner db id = find (λ u. is_user id u && u.is_active) db.users

-- The row that takes the place of t.
abbrev pub successor : RefreshToken → Text → User → RefreshToken
successor t new_hash u = record {
  user_id = u.id;
  token_hash = new_hash;
  expires_at = t.expires_at;
  revoked_at = none;
}

abbrev pub stored : Db → User → Option (List RefreshToken) → Answer User × Db
stored db u none = (refused (Refusal.unnamed "unique_violation"), db)
stored db u (some tokens) = (granted u, set_tokens db tokens)

-- The end of the transaction that rotates the token t: the new row, for an owner who is active.
unfoldable pub renew : Db → List RefreshToken → RefreshToken → Text → Option User → Answer User × Db
renew db revoked t new_hash none = (refused invalid_token, set_tokens db revoked)
renew db revoked t new_hash (some u) = stored db u (insert_token (successor t new_hash u) revoked)

-- The transaction on the row that the conditional UPDATE gave back.
unfoldable pub rotate : Instant → Db → Text → Text → Option RefreshToken → Answer User × Db
unfolding renew revoke_all_if_reused
rotate now db old_hash new_hash none = revoke_all_if_reused now db old_hash
rotate now db old_hash new_hash (some t) =
    renew db (rewrite (is_usable now old_hash) (revoked_now now) db.refresh_tokens) t new_hash
      (active_owner db t.user_id)

-- `RotateRefreshToken`: what it answers, and the database that it commits also when it refuses.
unfoldable pub rotate_refresh_token : Instant → Db → Text → Text → Answer User × Db
unfolding rotate
rotate_refresh_token now db old_hash new_hash =
    rotate now db old_hash new_hash (find (is_usable now old_hash) db.refresh_tokens)

unfoldable pub revoke_refresh_token : Instant → Db → Text → Db
revoke_refresh_token now db hash =
    set_tokens db
      (rewrite (λ t. has_hash hash t && not (is_revoked t)) (revoked_now now) db.refresh_tokens)

-- `CreateUserIfAbsent`: ON CONFLICT DO NOTHING. The columns that it leaves out get their defaults.
unfoldable pub create_user_if_absent : (Text → Text) → Date → Db → User → Answer Db
create_user_if_absent lower current_date db new =
    if not (text_eq new.email (lower new.email))
    then refused (Refusal.unnamed "check_violation")
    else if any (has_email new.email) db.users
    then granted db
    else granted (record db {
      users =
          db.users
          ++ record new {
            id = db.next_user_id;
            join_date = current_date;
            department_id = none;
            manager_id = none;
            default_schedule_id = none;
            deleted_at = none;
          }
            ∷ [];
      next_user_id = db.next_user_id + 1;
    })
