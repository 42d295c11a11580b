-- ===== src/Auth/Reuse.antt =====
-- The reuse of a refresh token that had been traded in.
use attendance_system.Prelude.{
  ℕ, ◌≡◌, refl, sym, ◌∙◌, ◌≢◌, inl, inr, Bool, true, false, Option, none, some, List, [], ◌∷◌,
  arith, Bool-cases, any, find, rewrite, Pairs, find-holds, find-All, All-map, find-of_none,
}
use attendance_system.Text.{Text, text_eq, text_eq_iff}
use attendance_system.Time.{Instant}
use attendance_system.Auth.Rows.{RefreshToken}
use attendance_system.Auth.Store.{
  has_hash, is_usable, revoked_now, was_reused, is_session_of, revoke_all_if_reused, rotate,
  rotate_refresh_token, refused, token_reuse,
}
use attendance_system.Auth.Service.{Guard, refresh}
use attendance_system.Db.{Db}

-- Whether a person has a session that a refresh could go on with.
abbrev pub has_session : Db → ℕ → Bool
has_session db user = any (is_session_of user) db.refresh_tokens

-- Whether the token's row was revoked longer ago than the grace, which is what reuse looks like.
abbrev pub was_traded_in : Guard → Db → Text → Option RefreshToken
was_traded_in guard db token =
    find (was_reused guard.now (guard.hash_token token)) db.refresh_tokens

ended :
    (user : ℕ) (now : Instant) (tokens : List RefreshToken)
    → any (is_session_of user) (rewrite (is_session_of user) (revoked_now now) tokens) ≡ false
ended user now [] = refl
ended user now (t ∷ tokens) = ground (arith, ended user now tokens)

others :
    (user other : ℕ) (now : Instant) (tokens : List RefreshToken)
    → other ≢ user
    → any (is_session_of other) (rewrite (is_session_of user) (revoked_now now) tokens)
      ≡ any (is_session_of other) tokens
others user other now [] n = refl
others user other now (t ∷ tokens) n = ground (arith, others user other now tokens n)

-- UNIQUE of token_hash.
abbrev pub OtherHash : RefreshToken → RefreshToken → Type 0
OtherHash a b = text_eq a.token_hash b.token_hash ≡ false

same_hash :
    (hash : Text) (a b : RefreshToken)
    → has_hash hash a ≡ true
    → has_hash hash b ≡ true
    → text_eq a.token_hash b.token_hash ≡ true
same_hash hash a b h k =
    (text_eq_iff a.token_hash b.token_hash).1
      ((text_eq_iff a.token_hash hash).0 h ∙ sym ((text_eq_iff b.token_hash hash).0 k))

-- A row that was reused is the only one with its hash, and it is not usable.
reused-unusable :
    (now : Instant) (hash : Text) (tokens : List RefreshToken) (t : RefreshToken)
    → Pairs OtherHash tokens
    → find (was_reused now hash) tokens ≡ some t
    → find (is_usable now hash) tokens ≡ none
reused-unusable now hash [] t u e = absurd (cc)
reused-unusable now hash (x ∷ tokens) t u e = elim (Bool-cases (was_reused now hash x)) [
  | inl y ↦
      let revoked : is_usable now hash x ≡ false = reused_row x y in
      rw revoked (
        find-of_none (is_usable now hash) tokens (
          All-map (OtherHash x) (λ b. is_usable now hash b ≡ false)
            (λ b o. elim (Bool-cases (has_hash hash b)) [
              | inl k ↦ absurd (ground (arith, o, same_hash hash x b (ground arith) k))
              | inr n ↦ rw n refl
            ])
            tokens u.0))
  | inr n ↦
      let later : find (was_reused now hash) tokens ≡ some t = rw n at e in
      let hit = find-holds (was_reused now hash) tokens later in
      let apart = find-All (was_reused now hash) (OtherHash x) tokens u.0 later in
      let none_here : has_hash hash x ≡ false = elim (Bool-cases (has_hash hash x)) [
        | inl k ↦ absurd (ground (arith, apart, same_hash hash x t k (ground arith)))
        | inr o ↦ o
      ] in
      rw none_here (reused-unusable now hash tokens t u.1 later)
]
  where
    reused_row : (x : RefreshToken) → was_reused now hash x ≡ true → is_usable now hash x ≡ false
    reused_row x y = go x.revoked_at refl
      where
        go : (r : Option Instant) → x.revoked_at ≡ r → is_usable now hash x ≡ false
        go none e = absurd (ground arith)
        go (some at) e = rw e (ground arith)

-- A token that is tried again more than the grace after it was revoked is refused as reused, every
-- session of its owner is over, and nobody else's is, if hashes are unique.
pub refresh-reuse :
    (guard : Guard) (db : Db) (token : Text) (t : RefreshToken) (other : ℕ)
    → Pairs OtherHash db.refresh_tokens
    → was_traded_in guard db token ≡ some t
    → other ≢ t.user_id
    → ((refresh guard db token).0 ≡ refused token_reuse)
      × (has_session (refresh guard db token).1 t.user_id ≡ false)
      × (has_session (refresh guard db token).1 other ≡ has_session db other)
unfolding refresh rotate_refresh_token rotate revoke_all_if_reused
refresh-reuse guard db token t other unique e n =
    let hash = guard.hash_token token in
    let unusable = reused-unusable guard.now hash db.refresh_tokens t unique e in
    rw (unusable, e)
      (
        refl,
        ended t.user_id guard.now db.refresh_tokens,
        others t.user_id other guard.now db.refresh_tokens n,
      )
