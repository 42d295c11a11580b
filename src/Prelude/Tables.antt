-- ===== src/Prelude/Tables.antt =====
-- What an INSERT (an append) and an UPDATE (`rewrite`) do to the sums, the searches and the
-- constraints over a table.
use Prim.Native.Nat.{ℕ, ◌+◌}
use mathlib.Core.Path.{◌≡◌, refl, subst}
use mathlib.Core.Bool.{Bool, true, false}
use mathlib.Core.Logic.{inl, inr}
use mathlib.Core.Option.{none, some}
use mathlib.Core.List.{List, [], ◌∷◌, ◌++◌}
use native.Mathlib.Omega.{arith}
use attendance_system.Prelude.Tests.{◌==◌, if◌then◌else◌, Bool-cases}
use attendance_system.Prelude.Lists.{any, find, rewrite, total, All, Pairs}

module _ {ℓ} {A : Type ℓ} where
  -- The row that an UPDATE leaves in a row's place.
  abbrev pub updated : (A → Bool) → (A → A) → A → A
  updated p f x = if p x then f x else x

  -- What a row adds to a sum.
  abbrev pub share : (A → Bool) → (A → ℕ) → A → ℕ
  share c w x = if c x then w x else 0

  -- At most one row satisfies p.
  abbrev pub AtMostOne : (A → Bool) → List A → Type 0
  AtMostOne p = Pairs (λ a b. p a ≡ true → p b ≡ false)

module _ {ℓ} {A : Type ℓ} (p : A → Bool) where
  pub total-append :
      (f : A → ℕ) (xs ys : List A) → total p f (xs ++ ys) ≡ total p f xs + total p f ys
  total-append f [] ys = omega arith
  total-append f (x ∷ xs) ys = omega (arith, total-append f xs ys)

  pub any-false-All : (xs : List A) → any p xs ≡ false → All (λ x. p x ≡ false) xs
  any-false-All [] h = tt
  any-false-All (x ∷ xs) h = elim (Bool-cases (p x)) [
    | inl e ↦ absurd (ground arith)
    | inr e ↦ (e, any-false-All xs (ground arith))
  ]

  pub find-holds : (xs : List A) {r : A} → find p xs ≡ some r → p r ≡ true
  find-holds [] h = cc
  find-holds (x ∷ xs) h = elim (Bool-cases (p x)) [
    | inl e ↦ ground arith
    | inr e ↦ find-holds xs (ground arith)
  ]

  pub find-All {κ} : (P : A → Type κ) (xs : List A) {r : A} → All P xs → find p xs ≡ some r → P r
  find-All P [] h e = absurd (cc)
  find-All P (x ∷ xs) {r} h e = elim (Bool-cases (p x)) [
    | inl t ↦ let same : x ≡ r = ground arith in subst P same h.0
    | inr f ↦ find-All P xs h.1 (ground arith)
  ]

  -- The row that an UPDATE finds, and the one that it leaves there.
  pub find-none-All : (xs : List A) → find p xs ≡ none → All (λ x. p x ≡ false) xs
  find-none-All [] h = tt
  find-none-All (x ∷ xs) h = elim (Bool-cases (p x)) [
    | inl e ↦ absurd (ground arith)
    | inr e ↦ (e, find-none-All xs (ground arith))
  ]

module _ {ℓ κ} {A : Type ℓ} where
  pub All-append : (P : A → Type κ) (xs ys : List A) → All P xs → All P ys → All P (xs ++ ys)
  All-append P [] ys h k = k
  All-append P (x ∷ xs) ys h k = (h.0, All-append P xs ys h.1 k)

  pub Pairs-snoc :
      (R : A → A → Type κ) (xs : List A) (y : A)
      → Pairs R xs
      → All (λ x. R x y) xs
      → Pairs R (xs ++ y ∷ [])
  Pairs-snoc R [] y h k = (tt, tt)
  Pairs-snoc R (x ∷ xs) y h k =
      (All-append (R x) xs (y ∷ []) h.0 (k.0, tt), Pairs-snoc R xs y h.1 k.1)

module _ {ℓ κ ρ} {A : Type ℓ} where
  pub All-map :
      (P : A → Type κ) (Q : A → Type ρ)
      → ((x : A) → P x → Q x)
      → (xs : List A) → All P xs
      → All Q xs
  All-map P Q g [] h = tt
  All-map P Q g (x ∷ xs) h = (g x h.0, All-map P Q g xs h.1)

  pub All-rewrite :
      (p : A → Bool) (f : A → A) (P : A → Type κ) (Q : A → Type ρ)
      → ((x : A) → P x → Q (updated p f x))
      → (xs : List A) → All P xs
      → All Q (rewrite p f xs)
  All-rewrite p f P Q g [] h = tt
  All-rewrite p f P Q g (x ∷ xs) h = (g x h.0, All-rewrite p f P Q g xs h.1)

module _ {ℓ κ ρ} {A : Type ℓ} where
  pub Pairs-map :
      (R : A → A → Type κ) (S : A → A → Type ρ)
      → ((a b : A) → R a b → S a b)
      → (xs : List A) → Pairs R xs
      → Pairs S xs
  Pairs-map R S g [] h = tt
  Pairs-map R S g (x ∷ xs) h = (All-map (R x) (S x) (g x) xs h.0, Pairs-map R S g xs h.1)

module _ {ℓ κ} {A : Type ℓ} where
  pub Pairs-rewrite :
      (p : A → Bool) (f : A → A) (R : A → A → Type κ)
      → ((a b : A) → R a b → R (updated p f a) (updated p f b))
      → (xs : List A) → Pairs R xs
      → Pairs R (rewrite p f xs)
  Pairs-rewrite p f R g [] h = tt
  Pairs-rewrite p f R g (x ∷ xs) h =
      (All-rewrite p f (R x) (R (updated p f x)) (g x) xs h.0, Pairs-rewrite p f R g xs h.1)

module _ {ℓ} {A : Type ℓ} (p : A → Bool) (f : A → A) (c : A → Bool) (w : A → ℕ) where
  -- No row satisfies p: an UPDATE changes no sum.
  pub total-rewrite_none :
      (xs : List A) → All (λ x. p x ≡ false) xs → total c w (rewrite p f xs) ≡ total c w xs
  total-rewrite_none [] h = refl
  total-rewrite_none (x ∷ xs) h = ground (arith, total-rewrite_none xs h.1)

  -- One row satisfies p: its share is exchanged for that of the row in its place.
  pub total-rewrite :
      (xs : List A) {r : A}
      → AtMostOne p xs
      → find p xs ≡ some r
      → total c w (rewrite p f xs) + share c w r ≡ total c w xs + share c w (f r)
  total-rewrite [] one e = absurd (cc)
  total-rewrite (x ∷ xs) {r} one e = elim (Bool-cases (p x)) [
    | inl t ↦
        let same : x ≡ r = ground arith in
        let others =
          total-rewrite_none xs (All-map (λ b. p x ≡ true → p b ≡ false) _ (λ b h. h t) xs one.0) in
        ground (arith, others)
    | inr n ↦ let rest = total-rewrite xs {r = r} one.1 (ground arith) in ground (arith, rest)
  ]

module _ {ℓ} {A : Type ℓ} (p : A → Bool) (f : A → A) (q : A → Bool) where
  -- An UPDATE that leaves a search's test alone.
  pub find-rewrite_same :
      (xs : List A)
      → ((x : A) → p x ≡ true → q x ≡ false)
      → ((x : A) → p x ≡ true → q (f x) ≡ false)
      → find q (rewrite p f xs) ≡ find q xs
  find-rewrite_same [] h k = refl
  find-rewrite_same (x ∷ xs) h k = ground (arith, h x, k x, find-rewrite_same xs h k)

module _ {ℓ} {A : Type ℓ} (key : A → ℕ) where
  -- A primary key: no two rows have the same.
  abbrev pub HasKey : List A → Type 0
  HasKey = Pairs (λ a b. (key a == key b) ≡ false)

  find-other :
      (x : A) (p : A → Bool) (xs : List A) {r : A}
      → All (λ b. (key x == key b) ≡ false) xs
      → find p xs ≡ some r
      → (key x == key r) ≡ false
  find-other x p xs h e = find-All p (λ b. (key x == key b) ≡ false) xs h e

  -- A row that any search finds is the one that its key finds.
  pub find-by_key :
      (p : A → Bool) (xs : List A) {r : A}
      → HasKey xs
      → find p xs ≡ some r
      → find (λ x. key x == key r) xs ≡ some r
  find-by_key p [] h e = absurd (cc)
  find-by_key p (x ∷ xs) {r} h e = elim (Bool-cases (p x)) [
    | inl t ↦ let same : x ≡ r = ground arith in ground (arith, same)
    | inr f ↦
        let e' : find p xs ≡ some r = ground arith in
        ground (arith, find-by_key p xs {r = r} h.1 e', find-other x p xs {r = r} h.0 e')
  ]

  -- A key satisfies at most one row's test.
  pub AtMostOne-of_key :
      (k : ℕ) (q : A → Bool) (xs : List A)
      → ((x : A) → q x ≡ true → (key x == k) ≡ true)
      → HasKey xs
      → AtMostOne q xs
  AtMostOne-of_key k q xs g h =
      Pairs-map (λ a b. (key a == key b) ≡ false) (λ a b. q a ≡ true → q b ≡ false)
        (λ a b d t. ground (arith, g a, g b)) xs h

module _ {ℓ} {A : Type ℓ} (q : A → Bool) where
  pub find-append : (xs ys : List A) {r : A} → find q xs ≡ some r → find q (xs ++ ys) ≡ some r
  find-append [] ys e = absurd (cc)
  find-append (x ∷ xs) ys {r} e = elim (Bool-cases (q x)) [
    | inl t ↦ ground arith
    | inr f ↦
        let rest : find q xs ≡ some r = ground arith in
        ground (arith, find-append xs ys {r = r} rest)
  ]

  -- An UPDATE that keeps a search's test: the search finds the row in the old one's place.
  pub find-updated :
      (p : A → Bool) (f : A → A) (xs : List A) {r : A}
      → ((x : A) → q (updated p f x) ≡ q x)
      → find q xs ≡ some r
      → find q (rewrite p f xs) ≡ some (updated p f r)
  find-updated p f [] k e = absurd (cc)
  find-updated p f (x ∷ xs) {r} k e = elim (Bool-cases (q x)) [
    | inl t ↦
        let same : x ≡ r = ground arith in
        subst (λ y. find q (rewrite p f (x ∷ xs)) ≡ some (updated p f y)) same (rw (k x, t) refl)
    | inr n ↦
        let rest : find q xs ≡ some r = ground arith in
        rw (k x, n) (find-updated p f xs {r = r} k rest)
  ]

module _ {ℓ} {A : Type ℓ} (q : A → Bool) where
  -- A row that is inserted where the search found nothing.
  pub find-snoc :
      (xs : List A) (y : A) → find q xs ≡ none → q y ≡ true → find q (xs ++ y ∷ []) ≡ some y
  find-snoc [] y e h = rw h
  find-snoc (x ∷ xs) y e h = elim (Bool-cases (q x)) [
    | inl t ↦ absurd (ground arith)
    | inr n ↦ rw n (find-snoc xs y (ground arith) h)
  ]

  pub find-snoc_other : (xs : List A) (y : A) → q y ≡ false → find q (xs ++ y ∷ []) ≡ find q xs
  find-snoc_other [] y h = rw h
  find-snoc_other (x ∷ xs) y h = ground (arith, find-snoc_other xs y h)
