-- ===== src/Market/Dependencies/Known.antt =====
-- The names that internal/market/dependencies.go has checked: those of the modules, and those they
-- depend on.
use control_center_stable.Prelude.{
  String, List, [], ◌∷◌, none, some, ok, ◌==◌, true, false, ◌≡◌, refl, inl, inr, Bool-cases,
  Result-cases, eq_iff, arith, Option-cases, if◌then◌else◌,
}
use control_center_stable.Prelude.Map.{Map, lookup}
use control_center_stable.Prelude.Sorting.{listed}
use control_center_stable.Market.Dependencies.{
  ModuleDependency, dependencies_of, names_of, check_dependencies, check_modules,
}

dependencies_of-cons :
    (key : String) (m : ModuleDependency) (rest : Map ModuleDependency) (name : String)
    → dependencies_of ((key, m) ∷ rest) name
      ≡ (if key == name then m.depends_on else dependencies_of rest name)
unfolding dependencies_of lookup
dependencies_of-cons key m rest name = ground arith

dependencies_of-empty : (name d : String) → listed d (dependencies_of [] name) ≡ false
unfolding dependencies_of lookup listed
dependencies_of-empty name d = refl

pub names_of-listed :
    (rest : Map ModuleDependency) (name : String)
    → listed name (names_of rest) ≡ true
    → (m : ModuleDependency) × (lookup name rest ≡ some m)
unfolding names_of listed lookup
names_of-listed [] name h = ground arith
names_of-listed ((key, m) ∷ rest) name h = elim (Bool-cases (key == name)) [
  | inl same ↦ rw same (m, refl)
  | inr differs ↦ rw differs (names_of-listed rest name (rw differs at h))
]

pub lookup-listed :
    (rest : Map ModuleDependency) (name : String) (m : ModuleDependency)
    → lookup name rest ≡ some m
    → listed name (names_of rest) ≡ true
unfolding names_of listed lookup
lookup-listed [] name m h = ground arith
lookup-listed ((key, n) ∷ rest) name m h = ground (arith, lookup-listed rest name m)

pub unknown_listed :
    (rest : Map ModuleDependency) (name d : String)
    → lookup name rest ≡ none
    → listed d (dependencies_of rest name) ≡ false
unfolding dependencies_of listed
unknown_listed rest name d h = ground arith

pub lookup-dependencies_of :
    (rest : Map ModuleDependency) (name : String) (m : ModuleDependency)
    → lookup name rest ≡ some m
    → dependencies_of rest name ≡ m.depends_on
unfolding dependencies_of
lookup-dependencies_of rest name m h = ground arith

module _ (trim_space : String → String) (by_name : Map ModuleDependency) where
  abbrev pub Known : String → Type 0
  Known name = (m : ModuleDependency) × (lookup name by_name ≡ some m)

  abbrev pub Closed : Type 0
  Closed =
      (name : String) (d : String)
      → listed d (dependencies_of by_name name) ≡ true
      → Known (trim_space d)

  check_dependencies-Known :
      (name : String) (ds : List String) (d : String)
      → check_dependencies trim_space by_name name ds ≡ ok tt
      → listed d ds ≡ true
      → Known (trim_space d)
  unfolding check_dependencies listed
  check_dependencies-Known name [] d h l = ground arith
  check_dependencies-Known name (x ∷ xs) d h l =
      elim (Option-cases (lookup (trim_space x) by_name)) [
        | inl q ↦ ground arith
        | inr (m, q) ↦ elim (Bool-cases (x == d)) [
          | inl same ↦ rw (← (eq_iff x d).0 same) (m, q)
          | inr differs ↦ check_dependencies-Known name xs d (ground arith) (ground arith)
        ]
      ]

  pub check_modules-Known :
      (rest : Map ModuleDependency) (name : String) (d : String)
      → check_modules trim_space by_name rest ≡ ok tt
      → listed d (dependencies_of rest name) ≡ true
      → Known (trim_space d)
  unfolding check_modules
  check_modules-Known [] name d h l = ground (arith, dependencies_of-empty name d)
  check_modules-Known ((key, m) ∷ rest) name d h l =
      elim (Result-cases (check_dependencies trim_space by_name m.name m.depends_on)) [
        | inr (e, q) ↦ ground arith
        | inl (done, q) ↦ elim (Bool-cases (key == name)) [
          | inl same ↦
              check_dependencies-Known m.name m.depends_on d q
                (rw (dependencies_of-cons key m rest name, same) at l)
          | inr differs ↦
              check_modules-Known rest name d (ground arith)
                (rw (dependencies_of-cons key m rest name, differs) at l)
        ]
      ]
