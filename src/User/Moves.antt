-- ===== src/User/Moves.antt =====
-- What the writes of user/repository.go do to who reports to whom.
use attendance_system.Prelude.{
  subst, ℕ, zero, suc, ◌≡◌, refl, sym, ◌⊎◌, inl, inr, Bool, some, List, [], ◌∷◌, arith, get_elem?,
  rewrite, updated,
}
use attendance_system.User.Rows.{User}
use attendance_system.User.Below.{ReportsTo, Below}

module _ {ℓ} {A : Type ℓ} (p : A → Bool) (f : A → A) where
  -- An UPDATE keeps the places of the rows.
  pub get_elem?-rewrite :
      (xs : List A) (n : ℕ) (x : A)
      → get_elem? xs n ≡ some x
      → get_elem? (rewrite p f xs) n ≡ some (updated p f x)
  get_elem?-rewrite [] n x e = absurd (cc)
  get_elem?-rewrite (y ∷ xs) zero x e = let same : y ≡ x = ground arith in rw same refl
  get_elem?-rewrite (y ∷ xs) (suc n) x e = get_elem?-rewrite xs n x e

  pub rewrite-get_elem? :
      (xs : List A) (n : ℕ) (y : A)
      → get_elem? (rewrite p f xs) n ≡ some y
      → (x : A) × (get_elem? xs n ≡ some x) × (updated p f x ≡ y)
  rewrite-get_elem? [] n y e = absurd (cc)
  rewrite-get_elem? (x ∷ xs) zero y e = (x, refl, ground arith)
  rewrite-get_elem? (x ∷ xs) (suc n) y e = rewrite-get_elem? xs n y e

-- One step down: the child, its manager and the row that says so.
pub chain : {users : List User} {a b c : ℕ} → Below users a b → Below users b c → Below users a c
chain below (Below.directly r) = Below.under below r
chain below (Below.under k r) = Below.under (chain below k) r

-- Nobody is below themselves.
abbrev pub NoLoop : List User → Type 0
NoLoop users = (x : ℕ) → ¬ Below users x x

-- A person or someone below them.
abbrev pub AtOrBelow : List User → ℕ → ℕ → Type 0
AtOrBelow users a b = (a ≡ b) ⊎ Below users a b

pub down :
    {users : List User} {a b c : ℕ} → AtOrBelow users a b → ReportsTo users b c → Below users a c
down {users} {a} {b} {c} (inl e) r = Below.directly (subst (λ x. ReportsTo users x c) (sym e) r)
down (inr k) r = Below.under k r

pub at_or_chain :
    {users : List User} {a b c : ℕ}
    → AtOrBelow users a b
    → AtOrBelow users b c
    → AtOrBelow users a c
at_or_chain {users} {a} {b} {c} (inl e) k = subst (λ x. AtOrBelow users x c) (sym e) k
at_or_chain {users} {a} {b} {c} (inr k) (inl e) = inr (subst (λ x. Below users a x) e k)
at_or_chain (inr k) (inr l) = inr (chain k l)
