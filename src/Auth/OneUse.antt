-- ===== src/Auth/OneUse.antt =====
-- A refresh token is good for one refresh.
use attendance_system.Prelude.{
  subst, ◌≤◌, ◌≡◌, refl, sym, ap, ◌≢◌, inl, inr, false, none, List, [], ◌∷◌, arith, Bool-cases,
  find, rewrite, All, All-append, All-map, All-rewrite, find-of_none,
}
use attendance_system.Text.{Text, text_eq}
use attendance_system.Time.{Instant}
use attendance_system.User.Rows.{User}
use attendance_system.Auth.Store.{
  Refusal, Answer, has_hash, is_usable, revoked_now, was_reused, revoke_all, revoke_all_if_reused,
  successor, rotate, rotate_refresh_token, refused, granted,
}
use attendance_system.Auth.Service.{Guard, TokenPair, paired, refresh}
use attendance_system.Auth.Spent.{fresh, Unusable, Spent, paired-db, Reach-Spent}
use attendance_system.Auth.Rotation.{Rotated, revoke_all-refused, rotate_refresh_token-Rotated}
use attendance_system.Db.{Db}
use attendance_system.Auth.Steps.{Reach}

All-always {ℓ κ} : {A : Type ℓ} (P : A → Type κ) (xs : List A) → ((x : A) → P x) → All P xs
All-always P [] h = tt
All-always P (x ∷ xs) h = (h x, All-always P xs h)

paired-granted :
    (guard : Guard) (x : Answer User × Db) (p : TokenPair)
    → (paired guard x).0 ≡ granted p
    → (u : User) × (x.0 ≡ granted u)
paired-granted guard (refused r, db) p h = absurd (ground arith)
paired-granted guard (granted u, db) p h = (u, refl)

Rotated-Spent :
    (now : Instant) (db : Db) (old_hash new_hash : Text) (u : User) (db' : Db)
    → text_eq new_hash old_hash ≡ false
    → Rotated now db old_hash new_hash u db'
    → Spent now old_hash db'
Rotated-Spent now db old_hash new_hash u db' n r =
    let old = is_usable now old_hash in
    subst (All (Unusable now old_hash)) (sym r.written) (
      All-append (Unusable now old_hash) (rewrite old (revoked_now now) db.refresh_tokens)
        (successor r.row new_hash u ∷ [])
        (All-rewrite old (revoked_now now) (λ _. Unit {0}) (Unusable now old_hash)
          (λ t _. elim (Bool-cases (old t)) [
            | inl y ↦ rw y (λ _. refl)
            | inr o ↦ rw o (λ k. ground arith)
          ])
          db.refresh_tokens (All-always (λ _. Unit {0}) db.refresh_tokens (λ _. tt)))
        (λ k. absurd (ground arith), tt))

paired-refused :
    (guard : Guard) (x : Answer User × Db) (r : Refusal)
    → x.0 ≡ refused r
    → (paired guard x).0 ≡ refused r
paired-refused guard (refused q, db) r h = ap refused (ground arith)
paired-refused guard (granted u, db) r h = absurd (ground arith)

refresh-refused :
    (since : Instant) (guard : Guard) (db : Db) (token : Text)
    → since ≤ guard.now
    → Spent since (guard.hash_token token) db
    → (r : Refusal) × ((refresh guard db token).0 ≡ refused r)
unfolding refresh rotate_refresh_token rotate revoke_all_if_reused
refresh-refused since guard db token l s =
    let hash = guard.hash_token token in
    let nothing : find (is_usable guard.now hash) db.refresh_tokens ≡ none =
      find-of_none (is_usable guard.now hash) db.refresh_tokens (
        All-map (Unusable since hash) (λ t. is_usable guard.now hash t ≡ false)
          (λ t u. elim (Bool-cases (has_hash hash t)) [
            | inl y ↦ ground (arith, u y)
            | inr o ↦ rw o refl
          ])
          db.refresh_tokens s) in
    let answer = revoke_all guard.now db (find (was_reused guard.now hash) db.refresh_tokens) in
    let (r, e) =
      revoke_all-refused guard.now db (find (was_reused guard.now hash) db.refresh_tokens) in
    (r, rw nothing (paired-refused guard answer r e))

-- Once a refresh has been granted, the token that was traded in is never granted another, whatever
-- logins, refreshes and logouts come in between and whenever it is tried, if the server hashes by
-- one function and draws no token with the hash of that one; clocks do not run back.
pub refresh-once :
    (guard later : Guard) (db db' : Db) (token : Text) (p : TokenPair)
    → later.hash_token ≡ guard.hash_token
    → guard.hash_token guard.drawn ≢ guard.hash_token token
    → guard.now ≤ later.now
    → (refresh guard db token).0 ≡ granted p
    → Reach guard.hash_token (guard.hash_token token) (refresh guard db token).1 db'
    → (r : Refusal) × ((refresh later db' token).0 ≡ refused r)
unfolding refresh
refresh-once guard later db db' token p same n l h r =
    let old = guard.hash_token token in
    let new = guard.hash_token guard.drawn in
    let rotated = rotate_refresh_token guard.now db old new in
    let (u, e) = paired-granted guard rotated p h in
    let fresh_hash : text_eq new old ≡ false = fresh guard.hash_token old guard refl n in
    let done =
      Rotated-Spent guard.now db old new u rotated.1 fresh_hash
        (rotate_refresh_token-Rotated guard.now db old new u e) in
    let spent =
      Reach-Spent guard.now guard.hash_token old _ db' r
        (subst (Spent guard.now old) (sym (paired-db guard.now guard rotated)) done) in
    refresh-refused guard.now later db' token l
      (subst (λ (g : Text → Text). Spent guard.now (g token) db') (sym same) spent)
