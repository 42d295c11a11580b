-- ===== src/Prelude/Listed.antt =====
-- Rows of a list by their place: what `any` and `all` say of them, and counts that grow.
use Prim.Native.Nat.{ℕ, zero, suc, ◌≤◌, ◌<◌}
use mathlib.Core.Path.{◌≡◌, refl, subst}
use mathlib.Core.Logic.{inl, inr}
use mathlib.Core.Bool.{Bool, true, false, not, ◌||◌}
use mathlib.Core.Option.{some}
use mathlib.Core.List.{List, [], ◌∷◌}
use native.Mathlib.Omega.{arith}
use attendance_system.Prelude.Tests.{Bool-cases, ◌==◌, if◌then◌else◌}
use attendance_system.Prelude.Tables.{HasKey}
use attendance_system.Prelude.Lists.{keep, find, All, get_elem?, any, all, length, total}

pub record Found {ℓ} {A : Type ℓ} (p : A → Bool) (xs : List A) : Type ℓ where
  pub index : ℕ
  pub item : A
  pub listed : get_elem? xs index ≡ some item
  pub accepted : p item ≡ true

pub any-Found {ℓ} : {A : Type ℓ} (p : A → Bool) (xs : List A) → any p xs ≡ true → Found p xs
any-Found p [] h = absurd (cc)
any-Found p (x ∷ xs) h = elim (Bool-cases (p x)) [
  | inl y ↦ record { index = 0; item = x; listed = refl; accepted = y }
  | inr n ↦
      let f = any-Found p xs (ground arith) in
      record { index = suc f.index; item = f.item; listed = f.listed; accepted = f.accepted }
]

pub any-of_listed {ℓ} :
    {A : Type ℓ} (p : A → Bool) (xs : List A) (n : ℕ) (x : A)
    → get_elem? xs n ≡ some x
    → p x ≡ true
    → any p xs ≡ true
any-of_listed p [] n x e h = absurd (cc)
any-of_listed p (y ∷ xs) zero x e h = let same : y ≡ x = ground arith in rw (same, h) refl
any-of_listed p (y ∷ xs) (suc n) x e h = ground (arith, any-of_listed p xs n x e h)

pub any_mono {ℓ} :
    {A : Type ℓ} (p q : A → Bool) (xs : List A)
    → ((x : A) → p x ≡ true → q x ≡ true)
    → any p xs ≡ true
    → any q xs ≡ true
any_mono p q [] g h = h
any_mono p q (x ∷ xs) g h = ground (arith, g x, any_mono p q xs g)

pub all-of_listed {ℓ} :
    {A : Type ℓ} (p : A → Bool) (xs : List A) (n : ℕ) (x : A)
    → all p xs ≡ true
    → get_elem? xs n ≡ some x
    → p x ≡ true
all-of_listed p [] n x h e = absurd (cc)
all-of_listed p (y ∷ xs) zero x h e =
    let same : y ≡ x = ground arith in subst (λ z. p z ≡ true) same (ground arith)
all-of_listed p (y ∷ xs) (suc n) x h e = all-of_listed p xs n x (ground arith) e

pub total-le_length {ℓ} :
    {A : Type ℓ} (p : A → Bool) (xs : List A) → total p (λ _. 1) xs ≤ length xs
total-le_length p [] = omega arith
total-le_length p (x ∷ xs) = ground (arith, total-le_length p xs)

module _ {ℓ} {A : Type ℓ} (p q : A → Bool) (g : (x : A) → p x ≡ true → q x ≡ true) where
  pub total_mono : (xs : List A) → total p (λ _. 1) xs ≤ total q (λ _. 1) xs
  total_mono [] = omega arith
  total_mono (x ∷ xs) = ground (arith, g x, total_mono xs)

  pub total-grows :
      (xs : List A)
      → all (λ x. not (q x) || p x) xs ≡ false
      → total p (λ _. 1) xs < total q (λ _. 1) xs
  total-grows [] h = absurd (cc)
  total-grows (x ∷ xs) h = ground (arith, g x, total_mono xs, total-grows xs)

module _ {ℓ} {A : Type ℓ} (p : A → Bool) where
  later_Found :
      (x : A) (xs : List A) (r : A)
      → (f : Found p xs) × (f.item ≡ r)
      → (f : Found p (x ∷ xs)) × (f.item ≡ r)
  later_Found x xs r (f, e) =
      (record { index = suc f.index; item = f.item; listed = f.listed; accepted = f.accepted }, e)

  kept :
      (x : A) (xs : List A) (r : A)
      → p x ≡ true
      → (n : ℕ) → ((m : ℕ) → get_elem? (keep p xs) m ≡ some r → (f : Found p xs) × (f.item ≡ r))
      → get_elem? (x ∷ keep p xs) n ≡ some r
      → (f : Found p (x ∷ xs)) × (f.item ≡ r)
  kept x xs r y zero ih e =
      let same : x ≡ r = ground arith in
      (record { index = 0; item = x; listed = refl; accepted = y }, same)
  kept x xs r y (suc n) ih e = later_Found x xs r (ih n e)

  pub keep-Found :
      (xs : List A) (n : ℕ) (r : A)
      → get_elem? (keep p xs) n ≡ some r
      → (f : Found p xs) × (f.item ≡ r)
  keep-Found [] n r e = absurd (cc)
  keep-Found (x ∷ xs) n r e = elim (Bool-cases (p x)) [
    | inl y ↦
        kept x xs r y n (λ m. keep-Found xs m r)
          (subst (λ b. get_elem? (if b then x ∷ keep p xs else keep p xs) n ≡ some r) y e)
    | inr o ↦ later_Found x xs r (
        keep-Found xs n r
          (subst (λ b. get_elem? (if b then x ∷ keep p xs else keep p xs) n ≡ some r) o e))
  ]

  pub All-keep {κ} :
      (Q : A → Type κ) (xs : List A) → All Q (keep p xs) → All (λ x. p x ≡ true → Q x) xs
  All-keep Q [] h = tt
  All-keep Q (x ∷ xs) h = elim (Bool-cases (p x)) [
    | inl y ↦
        let k = subst (λ b. All Q (if b then x ∷ keep p xs else keep p xs)) y h in
        (λ _. k.0, All-keep Q xs (k.1))
    | inr o ↦
        let k = subst (λ b. All Q (if b then x ∷ keep p xs else keep p xs)) o h in
        (λ q. absurd (ground arith), All-keep Q xs k)
  ]

pub All-of_listed {ℓ κ} :
    {A : Type ℓ} (P : A → Type κ) (xs : List A) (n : ℕ) (r : A)
    → All P xs
    → get_elem? xs n ≡ some r
    → P r
All-of_listed P [] n r h e = absurd (cc)
All-of_listed P (x ∷ xs) zero r h e = let same : x ≡ r = ground arith in subst P same (h.0)
All-of_listed P (x ∷ xs) (suc n) r h e = All-of_listed P xs n r (h.1) e

pub find-of_listed {ℓ} :
    {A : Type ℓ} (key : A → ℕ) (xs : List A) (n : ℕ) (r : A)
    → HasKey key xs
    → get_elem? xs n ≡ some r
    → find (λ x. key x == key r) xs ≡ some r
find-of_listed key [] n r h e = absurd (cc)
find-of_listed key (x ∷ xs) zero r h e =
    let same : x ≡ r = ground arith in
    subst (λ y. find (λ z. key z == key y) (x ∷ xs) ≡ some y) same (ground arith)
find-of_listed key (x ∷ xs) (suc n) r h e =
    let far = All-of_listed (λ y. (key x == key y) ≡ false) xs n r (h.0) e in
    rw far (find-of_listed key xs n r (h.1) e)
