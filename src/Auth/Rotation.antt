-- ===== src/Auth/Rotation.antt =====
-- What `RotateRefreshToken` of auth/repository.go has done when it grants.
use attendance_system.Prelude.{
  ◌≡◌, refl, ap, ◌∙◌, inl, inr, false, Option, none, some, List, [], ◌∷◌, ◌++◌, arith, Bool-cases,
  any, find, rewrite,
}
use attendance_system.Text.{Text}
use attendance_system.Time.{Instant}
use attendance_system.User.Rows.{User}
use attendance_system.Auth.Rows.{RefreshToken}
use attendance_system.Auth.Store.{
  Refusal, has_hash, is_usable, revoked_now, insert_token, was_reused, revoke_all,
  revoke_all_if_reused, active_owner, successor, stored, renew, rotate, rotate_refresh_token,
  refused, granted, invalid_token, token_reuse,
}
use attendance_system.Db.{Db}

-- The old row is revoked, and a row with the new hash has its expiry and its owner.
pub record Rotated (now : Instant) (db : Db) (old_hash new_hash : Text) (u : User) (db' : Db)
    : Type 0 where
  pub row : RefreshToken
  pub row_is : find (is_usable now old_hash) db.refresh_tokens ≡ some row
  pub owner_is : active_owner db row.user_id ≡ some u
  pub written :
      db'.refresh_tokens
      ≡ rewrite (is_usable now old_hash) (revoked_now now) db.refresh_tokens
        ++ successor row new_hash u ∷ []

insert_token-eq_some :
    (new : RefreshToken) (tokens tokens' : List RefreshToken)
    → insert_token new tokens ≡ some tokens'
    → (any (has_hash new.token_hash) tokens ≡ false) × (tokens' ≡ tokens ++ new ∷ [])
unfolding insert_token
insert_token-eq_some new tokens tokens' h =
    elim (Bool-cases (any (has_hash new.token_hash) tokens)) [
      | inl t ↦ absurd (ground arith)
      | inr o ↦ (o, ground arith)
    ]

-- A revocation grants nothing.
pub revoke_all-refused :
    (now : Instant) (db : Db) (row : Option RefreshToken)
    → (r : Refusal) × ((revoke_all now db row).0 ≡ refused r)
revoke_all-refused now db none = (invalid_token, refl)
revoke_all-refused now db (some t) = (token_reuse, refl)

stored-Rotated :
    (now : Instant) (db : Db) (old_hash new_hash : Text) (u v : User) (t : RefreshToken)
    (o : Option (List RefreshToken))
    → find (is_usable now old_hash) db.refresh_tokens ≡ some t
    → active_owner db t.user_id ≡ some v
    → insert_token
        (successor t new_hash v)
        (rewrite (is_usable now old_hash) (revoked_now now) db.refresh_tokens)
      ≡ o
    → (stored db v o).0 ≡ granted u
    → Rotated now db old_hash new_hash u (stored db v o).1
stored-Rotated now db old_hash new_hash u v t none f e i h = absurd (ground arith)
stored-Rotated now db old_hash new_hash u v t (some tokens) f e i h =
    let same : v ≡ u = ground arith in
    record {
      row = t;
      row_is = f;
      owner_is = e ∙ ap some same;
      written =
          (insert_token-eq_some (successor t new_hash v) _ tokens i).1
          ∙ ap
              (λ w.
                rewrite (is_usable now old_hash) (revoked_now now) db.refresh_tokens
                ++ successor t new_hash w ∷ [])
              same;
    }

pub rotate_refresh_token-Rotated :
    (now : Instant) (db : Db) (old_hash new_hash : Text) (u : User)
    → (rotate_refresh_token now db old_hash new_hash).0 ≡ granted u
    → Rotated now db old_hash new_hash u (rotate_refresh_token now db old_hash new_hash).1
unfolding rotate_refresh_token rotate renew revoke_all_if_reused
rotate_refresh_token-Rotated now db old_hash new_hash u h =
    by_row (find (is_usable now old_hash) db.refresh_tokens) refl h
  where
    revoked : List RefreshToken
    revoked = rewrite (is_usable now old_hash) (revoked_now now) db.refresh_tokens

    by_owner :
        (t : RefreshToken) (o : Option User)
        → find (is_usable now old_hash) db.refresh_tokens ≡ some t
        → active_owner db t.user_id ≡ o
        → (renew db revoked t new_hash o).0 ≡ granted u
        → Rotated now db old_hash new_hash u (renew db revoked t new_hash o).1
    by_owner t none f e k = absurd (ground arith)
    by_owner t (some v) f e k =
        stored-Rotated now db old_hash new_hash u v t
          (insert_token (successor t new_hash v) revoked) f e refl k

    by_row :
        (row : Option RefreshToken)
        → find (is_usable now old_hash) db.refresh_tokens ≡ row
        → (rotate now db old_hash new_hash row).0 ≡ granted u
        → Rotated now db old_hash new_hash u (rotate now db old_hash new_hash row).1
    by_row none e k =
        let (r, q) = revoke_all-refused now db (find (was_reused now old_hash) db.refresh_tokens) in
        absurd (ground (arith, q))
    by_row (some t) e k = by_owner t (active_owner db t.user_id) e refl k
