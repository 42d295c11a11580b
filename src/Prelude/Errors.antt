-- ===== src/Prelude/Errors.antt =====
-- internal/pkg/apperr/apperr.go: the errors that every module reports, as values, and the chain of
-- fallible steps. A message is the format string of the call; its arguments are left out.
use Prim.Native.String.{String}
use mathlib.Core.Path.{◌≡◌, refl}
use mathlib.Core.Bool.{Bool, true, false}
use mathlib.Core.Option.{Option, none, some}

-- `conflict` and `forbidden` with a text are the errors that wrap apperr.ErrConflict and
-- apperr.ErrForbidden. `failed` is a database error that no module translates, `panicked` a Go
-- panic; the server answers both with 500.
pub data Error : Type 0 where
  not_found : Error
  forbidden : String → Error
  conflict : String → Error
  invalid : String → Error
  failed : String → Error
  panicked : Error

pub data Result {ℓ} (Answer : Type ℓ) : Type ℓ where
  err : Error → Result Answer
  ok : Answer → Result Answer

-- `if err != nil { return err }` after a call, with the answer and without.
infixl 5 ◌>>=◌
abbrev pub ◌>>=◌ {ℓ κ} : {A : Type ℓ} {B : Type κ} → Result A → (A → Result B) → Result B
err reason >>= next = err reason
ok answer >>= next = next answer

infixl 5 ◌>>◌
abbrev pub ◌>>◌ {ℓ} : {B : Type ℓ} → Result (Unit {0}) → Result B → Result B
check >> rest = check >>= λ _. rest

-- An early return: `if b { return e }`.
abbrev pub refuse_if : Bool → Error → Result (Unit {0})
refuse_if true e = err e
refuse_if false e = ok tt

abbrev pub or_error {ℓ} : {A : Type ℓ} → Option A → Error → Result A
or_error none e = err e
or_error (some a) e = ok a

-- The inversion of a chain that succeeded, for a proof that goes on with the value.
pub >>=-elim {ℓ κ ρ} :
    {A : Type ℓ} {B : Type κ} {C : Type ρ} (m : Result A) (f : A → Result B) {b : B}
    → (m >>= f) ≡ ok b
    → ((a : A) → m ≡ ok a → f a ≡ ok b → C)
    → C
>>=-elim (ok a) f h k = k a refl h
>>=-elim (err e) f h k = absurd (cc)

-- A guard that let the chain pass.
pub refuse_if-eq_ok : (b : Bool) (e : Error) {u : Unit {0}} → refuse_if b e ≡ ok u → b ≡ false
refuse_if-eq_ok true e h = cc
refuse_if-eq_ok false e h = refl
