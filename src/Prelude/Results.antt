-- ===== src/Prelude/Results.antt =====
-- Calls that may fail and that change an object: Go's `(value, error)` beside the object's state.
-- What was written before an error stays written, so the state stands beside the error too.
use mathlib.Core.Path.{◌≡◌, refl}
use mathlib.Core.Logic.{◌⊎◌, inl, inr}
use mathlib.Core.Bool.{Bool, true, false}
use mathlib.Core.Option.{Option, none, some}

-- What `ctx.Err()` returns.
pub data ContextError : Type 0 where
  canceled deadline_exceeded : ContextError

abbrev pub Context : Type 0
Context = Option ContextError

pub data Result {ℓ κ} (E : Type ℓ) (A : Type κ) : Type (ℓ ⊔ κ) where
  ok : A → Result E A
  err : E → Result E A

abbrev pub Exec {ℓ} : Type ℓ → Type ℓ → Type ℓ → Type ℓ
Exec E S A = S → Result E A × S

module _ {ℓ} {E S A B : Type ℓ} where
  abbrev continue : Result E A → (A → Exec E S B) → Exec E S B
  continue (ok a) f s = f a s
  continue (err e) f s = (err e, s)

  infixl 10 ◌>>=◌ ◌>>◌
  abbrev pub ◌>>=◌ : Exec E S A → (A → Exec E S B) → Exec E S B
  ◌>>=◌ m f s = let (r, s') = m s in continue r f s'

  abbrev pub ◌>>◌ : Exec E S A → Exec E S B → Exec E S B
  ◌>>◌ m n = m >>= λ _. n

module _ {ℓ} {E S A : Type ℓ} where
  abbrev pub pure : A → Exec E S A
  pure a s = (ok a, s)

  abbrev pub raise : E → Exec E S A
  raise e s = (err e, s)

  abbrev pub lift : Result E A → Exec E S A
  lift r s = (r, s)

  abbrev pub gets : (S → A) → Exec E S A
  gets f s = (ok (f s), s)

-- `if b { return e }`
module _ {E S : Type 0} where
  abbrev pub reject_if : Bool → E → Exec E S (Unit {0})
  reject_if true e s = (err e, s)
  reject_if false e s = (ok tt, s)

  abbrev pub modify : (S → S) → Exec E S (Unit {0})
  modify f s = (ok tt, f s)

  abbrev pub check_context : Context → (ContextError → E) → Exec E S (Unit {0})
  check_context none f s = (ok tt, s)
  check_context (some e) f s = (err (f e), s)

-- `value, ok := m[key]; if !ok { return e }`
module _ {ℓ} {E A : Type ℓ} where
  abbrev pub or_error : Option A → E → Result E A
  or_error none e = err e
  or_error (some a) e = ok a

-- To split on a computed result and keep the equation.
pub Result-cases {ℓ κ} :
    {E : Type ℓ} {A : Type κ} (r : Result E A) → ((a : A) × (r ≡ ok a)) ⊎ ((e : E) × (r ≡ err e))
Result-cases (ok a) = inl (a, refl)
Result-cases (err e) = inr (e, refl)
