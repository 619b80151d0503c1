-- ===== src/Market/Dependencies/Termination.antt =====
-- The search of internal/market/dependencies.go comes to an end: each visit that goes deeper marks
-- one more module.
use control_center_stable.Prelude.{
  ℕ, zero, suc, ◌≤◌, ◌<◌, String, List, [], ◌∷◌, none, some, ok, err, ◌≡◌, ◌≢◌, refl, inl, inr,
  eq_iff, arith, Option-cases,
}
use control_center_stable.Prelude.Map.{Map, lookup, insert, lookup-insert, size, empty}
use control_center_stable.Prelude.Library.{text_before, sort_slice}
use control_center_stable.Prelude.Sorting.{listed-sort_slice}
use control_center_stable.Market.Dependencies.{
  ModuleDependency, out_of_fuel, Mark, visiting, Progress, dependencies_of, set_mark, visit,
  names_of, check_modules, resolve_install_order, visit_names,
}
use control_center_stable.Market.Dependencies.Search.{
  Keeps, each_err, visit-Keeps, visit_err, resolve_err, visit_dependencies,
}
use control_center_stable.Market.Dependencies.Known.{
  Known, Closed, names_of-listed, check_modules-Known,
}

-- The number of modules without a mark.
unfoldable unmarked : Map Mark → Map ModuleDependency → ℕ
unmarked state [] = 0
unmarked state ((key, m) ∷ rest) = elim (lookup key state) [
  | none ↦ suc (unmarked state rest)
  | some k ↦ unmarked state rest
]

unmarked-le :
    (s t : Map Mark) (by_name : Map ModuleDependency)
    → ((x : String) → lookup x t ≡ none → lookup x s ≡ none)
    → unmarked t by_name ≤ unmarked s by_name
unfolding unmarked
unmarked-le s t [] h = omega arith
unmarked-le s t ((key, m) ∷ rest) h = ground (arith, h key, unmarked-le s t rest h)

Keeps-none :
    (p q : Progress) → Keeps p q → (x : String) → lookup x q.state ≡ none → lookup x p.state ≡ none
Keeps-none p q kept x h = elim (Option-cases (lookup x p.state)) [
  | inl n ↦ n
  | inr (k, r) ↦ ground (arith, kept.0 x k r)
]

unmarked-set_mark :
    (name : String) (m : ModuleDependency) (k : Mark) (s : Map Mark)
    (by_name : Map ModuleDependency)
    → lookup name by_name ≡ some m
    → lookup name s ≡ none
    → unmarked (insert name k s) by_name < unmarked s by_name
unfolding unmarked lookup
unmarked-set_mark name m k s [] h n = ground arith
unmarked-set_mark name m k s ((key, other) ∷ rest) h n = ground (
  arith,
  eq_iff key name,
  eq_iff name key,
  lookup-insert name key k s,
  unmarked-le s (insert name k s) rest (λ x r. ground (arith, lookup-insert name x k s)),
  unmarked-set_mark name m k s rest,
)

module _ (trim_space : String → String) (by_name : Map ModuleDependency) where
  visit-unmarked_le :
      (fuel : ℕ) (name : String) (p : Progress)
      → (visit trim_space by_name fuel name p).0 ≡ ok tt
      → unmarked (visit trim_space by_name fuel name p).1.state by_name ≤ unmarked p.state by_name
  visit-unmarked_le fuel name p h =
      let q = (visit trim_space by_name fuel name p).1 in
      unmarked-le p.state q.state by_name
        (Keeps-none p q (visit-Keeps trim_space by_name fuel name p h))

  visit_enough :
      Closed trim_space by_name
      → (fuel : ℕ) (name : String) (p : Progress) → Known trim_space by_name name
      → unmarked p.state by_name < fuel
      → (visit trim_space by_name fuel name p).0 ≢ err out_of_fuel
  unfolding visit_dependencies
  visit_enough closed zero name p known bound h = omega arith
  visit_enough closed (suc fuel) name p known bound h =
      elim (visit_err trim_space by_name fuel name p out_of_fuel h) [
        | inl (q, e) ↦ ground arith
        | inr (q, e) ↦
            each_err (λ d. visit trim_space by_name fuel (trim_space d)) out_of_fuel
              (λ s. unmarked s.state by_name < fuel)
              (sort_slice text_before (dependencies_of by_name name))
              (λ d s l b.
                visit_enough closed fuel (trim_space d) s
                  (closed name d
                    (rw (← listed-sort_slice text_before d (dependencies_of by_name name)) l))
                  b)
              (λ d s b r. omega (arith, b, visit-unmarked_le fuel (trim_space d) s r))
              (set_mark name visiting p)
              (omega
                (arith, bound, unmarked-set_mark name known.0 visiting p.state by_name known.1 q))
              e
      ]

  visit_names_enough :
      check_modules trim_space by_name by_name ≡ ok tt
      → (p : Progress) → unmarked p.state by_name ≤ size by_name
      → (visit_names trim_space by_name (sort_slice text_before (names_of by_name)) p).0
        ≢ err out_of_fuel
  unfolding visit_names
  visit_names_enough checked p bound =
      each_err (visit trim_space by_name (suc (size by_name))) out_of_fuel
        (λ s. unmarked s.state by_name ≤ size by_name) (sort_slice text_before (names_of by_name))
        (λ d s l b.
          visit_enough (λ name d. check_modules-Known trim_space by_name by_name name d checked)
            (suc (size by_name)) d s
            (names_of-listed by_name d
              (rw (← listed-sort_slice text_before d (names_of by_name)) l))
            (omega (arith, b)))
        (λ d s b r. omega (arith, b, visit-unmarked_le (suc (size by_name)) d s r)) p bound

unmarked-empty : (rest : Map ModuleDependency) → unmarked empty rest ≡ size rest
unfolding unmarked size lookup
unmarked-empty [] = refl
unmarked-empty ((key, m) ∷ rest) = omega (arith, unmarked-empty rest)

-- The search for an install order never uses up its bound, so that it comes to an end.
pub resolve_install_order_ends :
    (trim_space : String → String) (modules : List ModuleDependency)
    → resolve_install_order trim_space modules ≢ err out_of_fuel
resolve_install_order_ends trim_space modules h =
    elim (resolve_err trim_space modules out_of_fuel h) [
      | inl unsearched ↦ grind arith
      | inr (by_name, q, r, failed) ↦
          visit_names_enough trim_space by_name r (record { state = empty; order = [] })
            (omega (arith, unmarked-empty by_name)) failed
    ]
