-- ===== src/Prelude/Map.antt =====
-- Go's maps with string keys, as association lists. A key stands in a list once.
use Prim.Native.Nat.{ℕ, suc, ◌≤◌, ◌<◌}
use Prim.Native.String.{String}
use mathlib.Core.Path.{◌≡◌, refl}
use mathlib.Core.Option.{Option, none, some}
use mathlib.Core.List.{List, [], ◌∷◌}
use native.Mathlib.Omega.{arith}
use text.Mathlib.TextEquality.{eq_iff}
use text.Mathlib.Text.{◌==◌}
use control_center_stable.Prelude.Tests.{if◌then◌else◌}

abbrev pub Map {ℓ} : Type ℓ → Type ℓ
Map V = List (String × V)

abbrev pub empty {ℓ} : {V : Type ℓ} → Map V
empty = []

module _ {ℓ} {V : Type ℓ} where
  unfoldable pub lookup : String → Map V → Option V
  lookup wanted [] = none
  lookup wanted ((key, value) ∷ rest) = if key == wanted then some value else lookup wanted rest

  unfoldable pub insert : String → V → Map V → Map V
  insert wanted value [] = (wanted, value) ∷ []
  insert wanted value ((key, old) ∷ rest) =
      if key == wanted then (wanted, value) ∷ rest else (key, old) ∷ insert wanted value rest

  -- `delete(m, k)`
  unfoldable pub remove : String → Map V → Map V
  remove wanted [] = []
  remove wanted ((key, value) ∷ rest) =
      let rest = remove wanted rest in if key == wanted then rest else (key, value) ∷ rest

  -- `len(m)`
  unfoldable pub size : Map V → ℕ
  size [] = 0
  size (p ∷ rest) = suc (size rest)

  pub lookup-empty : (wanted : String) → lookup wanted (empty {V = V}) ≡ none
  unfolding lookup
  lookup-empty wanted = refl

  pub lookup-insert :
      (wanted key : String) (value : V) (rest : Map V)
      → lookup key (insert wanted value rest)
        ≡ (if wanted == key then some value else lookup key rest)
  unfolding lookup insert
  lookup-insert wanted key value [] = refl
  lookup-insert wanted key value ((first, old) ∷ rest) = ground (
    arith,
    eq_iff wanted key,
    eq_iff first wanted,
    eq_iff first key,
    lookup-insert wanted key value rest,
  )

  pub lookup-remove :
      (wanted key : String) (rest : Map V)
      → lookup key (remove wanted rest) ≡ (if wanted == key then none else lookup key rest)
  unfolding lookup remove
  lookup-remove wanted key [] = ground arith
  lookup-remove wanted key ((first, old) ∷ rest) = ground (
    arith,
    eq_iff wanted key,
    eq_iff first wanted,
    eq_iff first key,
    lookup-remove wanted key rest,
  )

  -- What an insertion does to the number of keys.
  pub size-insert :
      (wanted : String) (value : V) (rest : Map V)
      → size (insert wanted value rest)
        ≡ elim (lookup wanted rest) [ none ↦ suc (size rest) | some old ↦ size rest ]
  unfolding lookup insert size
  size-insert wanted value [] = refl
  size-insert wanted value ((key, old) ∷ rest) = ground (arith, size-insert wanted value rest)

  pub size-remove-le : (wanted : String) (rest : Map V) → size (remove wanted rest) ≤ size rest
  unfolding remove size
  size-remove-le wanted [] = omega arith
  size-remove-le wanted ((key, old) ∷ rest) = ground (arith, size-remove-le wanted rest)

  pub size-remove :
      (wanted : String) (value : V) (rest : Map V)
      → lookup wanted rest ≡ some value
      → size (remove wanted rest) < size rest
  unfolding lookup remove size
  size-remove wanted value [] h = ground arith
  size-remove wanted value ((key, old) ∷ rest) h =
      ground (arith, size-remove wanted value rest, size-remove-le wanted rest)

pub ruleset map_laws = (lookup-empty, lookup-insert, lookup-remove)
