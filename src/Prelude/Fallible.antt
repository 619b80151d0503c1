-- ===== src/Prelude/Fallible.antt =====
-- Calls that may fail and that change nothing: Go's `value, err := …; if err != nil { return err }`.
use control_center_stable.Prelude.Results.{Result, ok, err}

module _ {ℓ} {E A B : Type ℓ} where
  infixl 10 ◌>>=◌ ◌>>◌
  abbrev pub ◌>>=◌ : Result E A → (A → Result E B) → Result E B
  ◌>>=◌ (ok a) f = f a
  ◌>>=◌ (err e) f = err e

  abbrev pub ◌>>◌ : Result E A → Result E B → Result E B
  ◌>>◌ r s = r >>= λ _. s
