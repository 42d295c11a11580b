-- ===== src/Auth/Entry.antt =====
-- Going on with a session after signing in.
use attendance_system.Prelude.{
  subst, ◌+◌, ◌<◌, ◌≡◌, refl, sym, ap, ◌∙◌, Bool, true, false, not, ◌&&◌, some, List, [], ◌∷◌,
  arith, ◌==◌, any, keep, find, rewrite, All, find-holds, All-map, HasKey, find-by_key, find-snoc,
  find-of_none, find-narrow, any-All-false,
}
use attendance_system.Text.{Text, text_eq, text_eq_iff}
use attendance_system.Time.{Instant}
use attendance_system.User.Rows.{User}
use attendance_system.User.Hierarchy.{is_live}
use attendance_system.User.Store.{is_user}
use attendance_system.User.Validation.{normalize_email}
use attendance_system.Auth.Rows.{RefreshToken}
use attendance_system.Auth.Store.{
  Answer, has_hash, is_usable, revoked_now, user_by_email, insert_token, is_expired_of,
  active_owner, renew, rotate, rotate_refresh_token, refused, granted,
}
use attendance_system.Auth.Attempts.{Redis}
use attendance_system.Auth.Service.{Guard, refresh_ttl, pair, new_session, login, paired, refresh}
use attendance_system.Db.{Db}
use attendance_system.Auth.SignIn.{Over, Opens, signed_in, keep-any, login-granted}

-- The owner of the new session.
owner-active :
    (db : Db) (email : Text) (u : User)
    → HasKey (λ (u : User). u.id) db.users
    → user_by_email db email ≡ some u
    → u.is_active ≡ true
    → active_owner db u.id ≡ some u
owner-active db email u keys e a =
    let by_id =
      find-by_key (λ (u : User). u.id) (λ u. is_live u && text_eq u.email email) db.users keys e in
    let hit = find-holds (λ u. is_live u && text_eq u.email email) db.users e in
    find-narrow (λ x. x.id == u.id) (λ x. is_user u.id x && x.is_active) db.users u
      (λ x k. ground arith) (ground (arith, hit, a)) by_id

revoked-hashes :
    (p : RefreshToken → Bool) (now : Instant) (hash : Text) (tokens : List RefreshToken)
    → any (has_hash hash) (rewrite p (revoked_now now) tokens) ≡ any (has_hash hash) tokens
revoked-hashes p now hash [] = refl
revoked-hashes p now hash (t ∷ tokens) = ground (arith, revoked-hashes p now hash tokens)

-- A usable row of an active owner is traded for a hash that is not taken.
rotate-granted :
    (now : Instant) (db : Db) (old new : Text) (row : RefreshToken) (u : User)
    → find (is_usable now old) db.refresh_tokens ≡ some row
    → active_owner db row.user_id ≡ some u
    → any (has_hash new) db.refresh_tokens ≡ false
    → (rotate_refresh_token now db old new).0 ≡ granted u
unfolding rotate_refresh_token rotate renew insert_token
rotate-granted now db old new row u f o n =
    let free = revoked-hashes (is_usable now old) now new db.refresh_tokens ∙ n in
    rw (f, o, free) refl

granted-paired :
    (guard : Guard) (x : Answer User × Db) (u : User)
    → x.0 ≡ granted u
    → (paired guard x).0 ≡ granted (pair guard u guard.drawn)
granted-paired guard (refused r, db) u h = absurd (ground arith)
granted-paired guard (granted v, db) u h =
    let same : v ≡ u = ground arith in ap (λ w. granted (pair guard w guard.drawn)) same

session-usable :
    (guard : Guard) (db : Db) (u : User) (now : Instant)
    → any (has_hash (guard.hash_token guard.drawn)) db.refresh_tokens ≡ false
    → now < guard.now + refresh_ttl
    → find (is_usable now (guard.hash_token guard.drawn)) (signed_in guard db u).refresh_tokens
      ≡ some (new_session guard u)
session-usable guard db u now n l =
    let hash = guard.hash_token guard.drawn in
    let rows = keep (λ t. not (is_expired_of guard.now u.id t)) db.refresh_tokens in
    let kept =
      keep-any (λ t. not (is_expired_of guard.now u.id t)) (has_hash hash) db.refresh_tokens n in
    let own : text_eq hash hash ≡ true = (text_eq_iff hash hash).1 refl in
    find-snoc (is_usable now hash) rows (new_session guard u)
      (find-of_none (is_usable now hash) rows (
        All-map (λ t. has_hash hash t ≡ false) (λ t. is_usable now hash t ≡ false)
          (λ t o. rw o refl) rows (any-All-false (has_hash hash) rows kept)))
      (rw own (ground arith))

-- Whoever gives the password of a live and active account when no attempts are counted any more is
-- let in, and the refresh token that they get is good for a refresh at any time within its thirty
-- days, if ids of users are unique and both tokens drawn have hashes that are not taken.
pub login-refresh :
    (guard later : Guard) (db : Db) (redis : Redis) (email password ip : Text) (u : User)
    → HasKey (λ (u : User). u.id) db.users
    → Opens guard db email password u
    → All (Over guard.now) redis
    → any (has_hash (guard.hash_token guard.drawn)) db.refresh_tokens ≡ false
    → later.hash_token ≡ guard.hash_token
    → later.now < guard.now + refresh_ttl
    → any (has_hash (guard.hash_token later.drawn)) (signed_in guard db u).refresh_tokens ≡ false
    → ((login guard db redis email password ip).0 ≡ granted (pair guard u guard.drawn))
      × ((refresh later (login guard db redis email password ip).1 guard.drawn).0
          ≡ granted (pair later u later.drawn))
unfolding refresh
login-refresh guard later db redis email password ip u keys o h n same l m =
    let (entered, after) = login-granted guard db redis email password ip u o h n in
    let db' = signed_in guard db u in
    let traded =
      rotate-granted later.now db' (guard.hash_token guard.drawn) (guard.hash_token later.drawn)
        (new_session guard u) u (session-usable guard db u later.now n l)
        (owner-active db (normalize_email guard.to_lower email) u keys o.found o.active) m in
    let hashed =
      subst
        (λ (g : Text → Text).
          (rotate_refresh_token later.now db' (g guard.drawn) (g later.drawn)).0 ≡ granted u)
        (sym same) traded in
    let stored_there =
      subst
        (λ d.
          (rotate_refresh_token later.now d (later.hash_token guard.drawn)
            (later.hash_token later.drawn)).0
          ≡ granted u)
        (sym after) hashed in
    (entered, granted-paired later _ u stored_there)
