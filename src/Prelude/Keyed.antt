-- ===== src/Prelude/Keyed.antt =====
-- Tables with an identity column, and what a constraint between their rows needs of INSERT, UPDATE
-- and DELETE.
use Prim.Native.Nat.{ℕ, ◌<◌, ◌+◌}
use mathlib.Core.Path.{refl, ◌≡◌}
use mathlib.Core.Bool.{Bool, true, false}
use mathlib.Core.Logic.{inl, inr}
use mathlib.Core.List.{List, [], ◌∷◌, ◌++◌}
use native.Mathlib.Omega.{arith}
use attendance_system.Prelude.Tests.{◌==◌, Bool-cases}
use mathlib.Core.Option.{some, none}
use attendance_system.Prelude.Lists.{find, keep, rewrite, All, Pairs, any}
use attendance_system.Prelude.Tables.{
  HasKey, AtMostOne, updated, All-map, All-rewrite, All-append, Pairs-snoc, Pairs-rewrite,
}

pub All-zip {ℓ κ ρ} :
    {A : Type ℓ} (P : A → Type κ) (Q : A → Type ρ) (xs : List A)
    → All P xs
    → All Q xs
    → All (λ x. P x × Q x) xs
All-zip P Q [] h k = tt
All-zip P Q (x ∷ xs) h k = ((h.0, k.0), All-zip P Q xs h.1 k.1)

pub find-of_none {ℓ} :
    {A : Type ℓ} (p : A → Bool) (xs : List A) → All (λ x. p x ≡ false) xs → find p xs ≡ none
find-of_none p [] h = refl
find-of_none p (x ∷ xs) h = rw h.0 (find-of_none p xs h.1)

pub find-keep {ℓ} :
    {A : Type ℓ} (p q : A → Bool) (xs : List A)
    → ((x : A) → q x ≡ true → p x ≡ true)
    → find q (keep p xs) ≡ find q xs
find-keep p q [] g = refl
find-keep p q (x ∷ xs) g = ground (arith, g x, find-keep p q xs g)

-- A narrower search that the first row found passes.
pub find-narrow {ℓ} :
    {A : Type ℓ} (p q : A → Bool) (xs : List A) (u : A)
    → ((x : A) → q x ≡ true → p x ≡ true)
    → q u ≡ true
    → find p xs ≡ some u
    → find q xs ≡ some u
find-narrow p q [] u g h e = absurd (cc)
find-narrow p q (x ∷ xs) u g h e = elim (Bool-cases (p x)) [
  | inl y ↦ let same : x ≡ u = ground arith in rw (same, h) refl
  | inr n ↦
      let other : q x ≡ false = elim (Bool-cases (q x)) [
        | inl k ↦ absurd (ground (arith, g x k))
        | inr o ↦ o
      ] in
      rw other (find-narrow p q xs u g h (rw n at e))
]

pub any-All-false {ℓ} :
    {A : Type ℓ} (p : A → Bool) (xs : List A) → any p xs ≡ false → All (λ x. p x ≡ false) xs
any-All-false p [] h = tt
any-All-false p (x ∷ xs) h = (ground arith, any-All-false p xs (ground arith))

pub keep-All {ℓ κ} :
    {A : Type ℓ} (p : A → Bool) (P : A → Type κ) (xs : List A) → All P xs → All P (keep p xs)
keep-All p P [] h = tt
keep-All p P (x ∷ xs) h = elim (Bool-cases (p x)) [
  | inl y ↦ rw y (h.0, keep-All p P xs h.1)
  | inr o ↦ rw o (keep-All p P xs h.1)
]

pub keep-Pairs {ℓ κ} :
    {A : Type ℓ} (p : A → Bool) (R : A → A → Type κ) (xs : List A)
    → Pairs R xs
    → Pairs R (keep p xs)
keep-Pairs p R [] h = tt
keep-Pairs p R (x ∷ xs) h = elim (Bool-cases (p x)) [
  | inl y ↦ rw y (keep-All p (R x) xs h.0, keep-Pairs p R xs h.1)
  | inr o ↦ rw o (keep-Pairs p R xs h.1)
]

-- An UPDATE that puts one row y in the place of the one that p accepts keeps a constraint that y
-- meets with all the others.
pub Pairs-replace {ℓ κ} :
    {A : Type ℓ} (p : A → Bool) (y : A) (R : A → A → Type κ) (xs : List A)
    → AtMostOne p xs
    → All (λ x. p x ≡ false → R x y × R y x) xs
    → Pairs R xs
    → Pairs R (rewrite p (λ _. y) xs)
Pairs-replace p y R [] one h k = tt
Pairs-replace p y R (x ∷ xs) one h k = elim (Bool-cases (p x)) [
  | inl t ↦ rw t (
    All-rewrite p (λ _. y) (λ b. (p x ≡ true → p b ≡ false) × (p b ≡ false → R b y × R y b)) (R y)
        (λ b (o, m). rw (o t) ((m (o t)).1)) xs
        (All-zip (λ b. p x ≡ true → p b ≡ false) (λ b. p b ≡ false → R b y × R y b) xs one.0 h.1),
    Pairs-replace p y R xs one.1 h.1 k.1,
  )
  | inr o ↦ rw o (
    All-rewrite p (λ _. y) (R x) (R x)
        (λ b r. elim (Bool-cases (p b)) [ inl t ↦ rw t ((h.0 o).0) | inr n ↦ rw n r ]) xs k.0,
    Pairs-replace p y R xs one.1 h.1 k.1,
  )
]

-- The rows of a table have different ids, all below the next one.
pub record IsTable {ℓ} {A : Type ℓ} (key : A → ℕ) (next : ℕ) (rows : List A) : Type ℓ where
  pub keys : HasKey key rows
  pub below : All (λ r. key r < next) rows

module _ {ℓ} {A : Type ℓ} (key : A → ℕ) (next : ℕ) where
  pub IsTable-snoc :
      (rows : List A) (row : A)
      → key row ≡ next
      → IsTable key next rows
      → IsTable key (next + 1) (rows ++ row ∷ [])
  IsTable-snoc rows row e t = record {
    keys =
        Pairs-snoc (λ a b. (key a == key b) ≡ false) rows row t.keys
          (All-map (λ a. key a < next) (λ a. (key a == key row) ≡ false) (λ a l. ground (arith, e))
            rows t.below);
    below =
        All-append (λ r. key r < next + 1) rows (row ∷ [])
          (All-map (λ a. key a < next) (λ a. key a < next + 1) (λ a l. omega arith) rows t.below)
          (omega arith, tt);
  }

  pub IsTable-rewrite :
      (p : A → Bool) (f : A → A) (rows : List A)
      → ((a : A) → key (updated p f a) ≡ key a)
      → IsTable key next rows
      → IsTable key next (rewrite p f rows)
  IsTable-rewrite p f rows same t = record {
    keys =
        Pairs-rewrite p f (λ a b. (key a == key b) ≡ false) (λ a b h. rw (same a, same b) h) rows
          t.keys;
    below =
        All-rewrite p f (λ a. key a < next) (λ a. key a < next) (λ a h. rw (same a) h) rows t.below;
  }

  pub IsTable-keep :
      (p : A → Bool) (rows : List A) → IsTable key next rows → IsTable key next (keep p rows)
  IsTable-keep p rows t = record {
    keys = keep-Pairs p (λ a b. (key a == key b) ≡ false) rows t.keys;
    below = keep-All p (λ a. key a < next) rows t.below;
  }
