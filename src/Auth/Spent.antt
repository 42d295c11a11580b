-- ===== src/Auth/Spent.antt =====
-- Rows of refresh_tokens that no refresh can use any more stay that way.
use attendance_system.Prelude.{
  subst, ◌≡◌, refl, sym, ap, ◌∙◌, ◌≢◌, inl, inr, Bool, true, false, not, ◌&&◌, ◌||◌, Option, none,
  some, List, [], ◌∷◌, ◌++◌, arith, ltb, leb, if◌then◌else◌, Bool-cases, Option-cases, any, keep,
  find, rewrite, All, All-append, All-rewrite, keep-All,
}
use attendance_system.Text.{Text, text_eq, text_eq_iff}
use attendance_system.Time.{Instant}
use attendance_system.User.Rows.{User}
use attendance_system.Auth.Rows.{RefreshToken}
use attendance_system.Auth.Store.{
  Answer, has_hash, is_revoked, is_usable, revoked_now, insert_token, is_expired_of, with_tokens,
  create_refresh_token, was_reused, is_session_of, revoke_all, revoke_all_if_reused, active_owner,
  successor, stored, renew, rotate, rotate_refresh_token, revoke_refresh_token, refused, granted,
}
use attendance_system.Auth.Attempts.{Redis, count_attempt}
use attendance_system.Auth.Service.{
  Guard, TokenPair, max_attempts_per_ip, ip_window, max_attempts_per_email, email_window, ip_key,
  email_key, authenticate, new_session, answered, open_session, let_in, admit, login, paired,
  refresh, logout,
}
use attendance_system.Db.{Db}
use attendance_system.User.Validation.{normalize_email}
use attendance_system.Auth.Steps.{Step, Reach}

pub fresh :
    (hash_token : Text → Text) (hash : Text) (guard : Guard)
    → guard.hash_token ≡ hash_token
    → hash_token guard.drawn ≢ hash
    → text_eq (guard.hash_token guard.drawn) hash ≡ false
fresh hash_token hash guard f n = elim (Bool-cases (text_eq (guard.hash_token guard.drawn) hash)) [
  | inl t ↦ absurd (
      n (
        ap (λ (g : Text → Text). g guard.drawn) (sym f)
        ∙ (text_eq_iff (guard.hash_token guard.drawn) hash).0 t))
  | inr o ↦ o
]

module _ (since : Instant) where
  -- A row that no refresh with the hash can use from that time on.
  abbrev pub Unusable : Text → RefreshToken → Type 0
  Unusable hash t = has_hash hash t ≡ true → (is_revoked t || leb t.expires_at since) ≡ true

  abbrev pub Spent : Text → Db → Type 0
  Spent hash db = All (Unusable hash) db.refresh_tokens

  -- Revoking rows leaves an unusable row unusable.
  revoked-Unusable :
      (hash : Text) (p : RefreshToken → Bool) (now : Instant) (tokens : List RefreshToken)
      → All (Unusable hash) tokens
      → All (Unusable hash) (rewrite p (revoked_now now) tokens)
  revoked-Unusable hash p now tokens h =
      All-rewrite p (revoked_now now) (Unusable hash) (Unusable hash)
        (λ t u. elim (Bool-cases (p t)) [ inl y ↦ rw y (λ _. refl) | inr o ↦ rw o u ]) tokens h

  insert_token-Unusable :
      (hash : Text) (new : RefreshToken) (tokens tokens' : List RefreshToken)
      → has_hash hash new ≡ false
      → insert_token new tokens ≡ some tokens'
      → All (Unusable hash) tokens
      → All (Unusable hash) tokens'
  unfolding insert_token
  insert_token-Unusable hash new tokens tokens' n h a =
      elim (Bool-cases (any (has_hash new.token_hash) tokens)) [
        | inl t ↦ absurd (ground arith)
        | inr o ↦
            let same : tokens ++ new ∷ [] ≡ tokens' = ground arith in
            subst (All (Unusable hash)) same
              (All-append (Unusable hash) tokens (new ∷ []) a (λ y. absurd (ground arith), tt))
      ]

  stored-Spent :
      (hash : Text) (db : Db) (u : User) (new : RefreshToken) (revoked : List RefreshToken)
      → has_hash hash new ≡ false
      → Spent hash db
      → All (Unusable hash) revoked
      → Spent hash (stored db u (insert_token new revoked)).1
  stored-Spent hash db u new revoked n s a = elim (Option-cases (insert_token new revoked)) [
    | inl e ↦ rw e s
    | inr (tokens, e) ↦ rw e (insert_token-Unusable hash new revoked tokens n e a)
  ]

  renew-Spent :
      (hash new_hash : Text) (db : Db) (revoked : List RefreshToken) (t : RefreshToken)
      (owner : Option User)
      → text_eq new_hash hash ≡ false
      → Spent hash db
      → All (Unusable hash) revoked
      → Spent hash (renew db revoked t new_hash owner).1
  unfolding renew
  renew-Spent hash new_hash db revoked t none n s a = a
  renew-Spent hash new_hash db revoked t (some u) n s a =
      stored-Spent hash db u (successor t new_hash u) revoked n s a

  revoke_all-Spent :
      (hash : Text) (now : Instant) (db : Db) (row : Option RefreshToken)
      → Spent hash db
      → Spent hash (revoke_all now db row).1
  revoke_all-Spent hash now db none s = s
  revoke_all-Spent hash now db (some t) s =
      revoked-Unusable hash (is_session_of t.user_id) now db.refresh_tokens s

  rotate-Spent :
      (hash : Text) (now : Instant) (db : Db) (old_hash new_hash : Text) (row : Option RefreshToken)
      → text_eq new_hash hash ≡ false
      → Spent hash db
      → Spent hash (rotate now db old_hash new_hash row).1
  unfolding rotate revoke_all_if_reused
  rotate-Spent hash now db old_hash new_hash none n s =
      revoke_all-Spent hash now db (find (was_reused now old_hash) db.refresh_tokens) s
  rotate-Spent hash now db old_hash new_hash (some t) n s =
      renew-Spent hash new_hash db
        (rewrite (is_usable now old_hash) (revoked_now now) db.refresh_tokens) t
        (active_owner db t.user_id) n s
        (revoked-Unusable hash (is_usable now old_hash) now db.refresh_tokens s)

  pub paired-db : (guard : Guard) (x : Answer User × Db) → (paired guard x).1 ≡ x.1
  paired-db guard (refused r, db) = refl
  paired-db guard (granted u, db) = refl

  answered-Spent :
      (hash : Text) (guard : Guard) (db : Db) (u : User) (o : Option Db)
      → Spent hash db
      → ((db' : Db) → o ≡ some db' → Spent hash db')
      → Spent hash (answered guard db u o).1
  answered-Spent hash guard db u none s k = s
  answered-Spent hash guard db u (some db') s k = k db' refl

  with_tokens-eq_some :
      (db db' : Db) (o : Option (List RefreshToken))
      → with_tokens db o ≡ some db'
      → (tokens : List RefreshToken) × (o ≡ some tokens) × (tokens ≡ db'.refresh_tokens)
  with_tokens-eq_some db db' none h = absurd (ground arith)
  with_tokens-eq_some db db' (some tokens) h = (tokens, refl, ground arith)

  create_refresh_token-Spent :
      (hash : Text) (now : Instant) (db db' : Db) (new : RefreshToken)
      → has_hash hash new ≡ false
      → Spent hash db
      → create_refresh_token now db new ≡ some db'
      → Spent hash db'
  unfolding create_refresh_token
  create_refresh_token-Spent hash now db db' new n s h =
      let kept = keep (λ t. not (is_expired_of now new.user_id t)) db.refresh_tokens in
      let (tokens, e, same) = with_tokens-eq_some db db' (insert_token new kept) h in
      subst (All (Unusable hash)) same (
        insert_token-Unusable hash new kept tokens n e (
          keep-All (λ t. not (is_expired_of now new.user_id t)) (Unusable hash) db.refresh_tokens
            s))

  let_in-Spent :
      (hash : Text) (guard : Guard) (db : Db) (redis : Redis) (key : Text) (o : Option User)
      → text_eq (guard.hash_token guard.drawn) hash ≡ false
      → Spent hash db
      → Spent hash (let_in guard db redis key o).1
  unfolding let_in open_session
  let_in-Spent hash guard db redis key none n s = s
  let_in-Spent hash guard db redis key (some u) n s =
      answered-Spent hash guard db u (create_refresh_token guard.now db (new_session guard u)) s
        (λ db' e. create_refresh_token-Spent hash guard.now db db' (new_session guard u) n s e)

  if-Spent :
      (hash : Text) (b : Bool) (x y : Answer TokenPair × Db × Redis)
      → Spent hash x.1
      → Spent hash y.1
      → Spent hash (if b then x else y).1
  if-Spent hash true x y s t = s
  if-Spent hash false x y s t = t

  login-Spent :
      (hash : Text) (guard : Guard) (db : Db) (redis : Redis) (email password ip : Text)
      → text_eq (guard.hash_token guard.drawn) hash ≡ false
      → Spent hash db
      → Spent hash (login guard db redis email password ip).1
  unfolding login admit
  login-Spent hash guard db redis email password ip n s =
      let email' = normalize_email guard.to_lower email in
      let by_ip = count_attempt guard.now (ip_key ip email') ip_window redis in
      let by_email = count_attempt guard.now (email_key email') email_window by_ip.1 in
      if-Spent hash (ltb max_attempts_per_ip by_ip.0) _ _ s (
        if-Spent hash (ltb max_attempts_per_email by_email.0) _ _ s (
          let_in-Spent hash guard db by_email.1 (ip_key ip email')
            (authenticate guard db email' password) n s))

  refresh-Spent :
      (hash : Text) (guard : Guard) (db : Db) (token : Text)
      → text_eq (guard.hash_token guard.drawn) hash ≡ false
      → Spent hash db
      → Spent hash (refresh guard db token).1
  unfolding refresh rotate_refresh_token
  refresh-Spent hash guard db token n s =
      let old = guard.hash_token token in
      let new = guard.hash_token guard.drawn in
      subst (Spent hash)
        (sym (
          paired-db guard
            (rotate guard.now db old new (find (is_usable guard.now old) db.refresh_tokens))))
        (rotate-Spent hash guard.now db old new (find (is_usable guard.now old) db.refresh_tokens) n
          s)

  logout-Spent :
      (hash : Text) (guard : Guard) (db : Db) (token : Text)
      → Spent hash db
      → Spent hash (logout guard db token)
  unfolding logout revoke_refresh_token
  logout-Spent hash guard db token s =
      revoked-Unusable hash (λ t. has_hash (guard.hash_token token) t && not (is_revoked t))
        guard.now db.refresh_tokens s

  pub Step-Spent :
      (hash_token : Text → Text) (hash : Text) (db db' : Db)
      → Step hash_token hash db db'
      → Spent hash db
      → Spent hash db'
  Step-Spent hash_token hash db db' (Step.logged_in guard redis email password ip f n e) s =
      subst (Spent hash) e
        (login-Spent hash guard db redis email password ip (fresh hash_token hash guard f n) s)
  Step-Spent hash_token hash db db' (Step.refreshed guard token f n e) s =
      subst (Spent hash) e (refresh-Spent hash guard db token (fresh hash_token hash guard f n) s)
  Step-Spent hash_token hash db db' (Step.logged_out guard token e) s =
      subst (Spent hash) e (logout-Spent hash guard db token s)

  pub Reach-Spent :
      (hash_token : Text → Text) (hash : Text) (db db' : Db)
      → Reach hash_token hash db db'
      → Spent hash db
      → Spent hash db'
  Reach-Spent hash_token hash db db' Reach.here s = s
  Reach-Spent hash_token hash db db' (Reach.next {mid = mid} r k) s =
      Step-Spent hash_token hash mid db' k (Reach-Spent hash_token hash db mid r s)
