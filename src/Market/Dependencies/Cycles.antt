-- ===== src/Market/Dependencies/Cycles.antt =====
-- The cycle that internal/market/dependencies.go reports is one.
use control_center_stable.Prelude.{
  ℕ, zero, suc, String, List, [], some, err, ◌==◌, true, ◌≡◌, sym, inl, inr, ◌⊎◌, Bool-cases,
  eq_iff, arith,
}
use control_center_stable.Prelude.Map.{Map, lookup, lookup-insert, empty, size}
use control_center_stable.Prelude.Library.{text_before, sort_slice}
use control_center_stable.Prelude.Sorting.{listed, listed-sort_slice}
use control_center_stable.Market.Dependencies.{
  ModuleDependency, dependency_cycle, visiting, Progress, dependencies_of, set_mark, visit,
  names_of, resolve_install_order, visit_names,
}
use control_center_stable.Market.Dependencies.Install.{Needs, indirect, registered_from}
use control_center_stable.Market.Dependencies.Search.{
  visit-Keeps, visit_err, visit_no_fuel, each_err, visit_dependencies, search, resolve_err,
}

module _ (trim_space : String → String) where
  module _ (modules : List ModuleDependency) (by_name : Map ModuleDependency) where
    abbrev Edges : Type 0
    Edges =
        (name d : String)
        → listed d (dependencies_of by_name name) ≡ true
        → Needs trim_space modules name (trim_space d)

    -- Every name that is left in visit leads to the one that is visited.
    abbrev PathTo : String → Progress → Type 0
    PathTo name p =
        (m : String) → lookup m p.state ≡ some visiting → Needs trim_space modules m name

    visit_cycle :
        Edges
        → (fuel : ℕ) (name : String) (p : Progress) (x : String) → PathTo name p
        → (visit trim_space by_name fuel name p).0 ≡ err (dependency_cycle x)
        → Needs trim_space modules x x
    unfolding visit_dependencies
    visit_cycle edges zero name p x path h = ground (arith, visit_no_fuel trim_space by_name name p)
    visit_cycle edges (suc fuel) name p x path h =
        elim (visit_err trim_space by_name fuel name p (dependency_cycle x) h) [
          | inl (q, e) ↦ let i : x ≡ name = cc in rw i (path name q)
          | inr (q, failed) ↦
              each_err (λ d. visit trim_space by_name fuel (trim_space d)) (dependency_cycle x)
                (λ s.
                  (m : String)
                  → lookup m s.state ≡ some visiting
                  → (m ≡ name) ⊎ Needs trim_space modules m name)
                (sort_slice text_before (dependencies_of by_name name))
                (λ d s l on_path r.
                  visit_cycle edges fuel (trim_space d) s x
                    (λ m v.
                      let edge =
                        edges name d (
                          rw (← listed-sort_slice text_before d (dependencies_of by_name name))
                            l) in
                      elim (on_path m v) [
                        | inl e ↦ rw e edge
                        | inr n ↦ indirect m name (trim_space d) n edge
                      ])
                    r)
                (λ d s on_path r m v.
                  on_path m ((visit-Keeps trim_space by_name fuel (trim_space d) s r).1 m v))
                (set_mark name visiting p)
                (λ m v. elim (Bool-cases (name == m)) [
                  | inl same ↦ inl (sym ((eq_iff name m).0 same))
                  | inr differs ↦
                      inr (path m (ground (arith, lookup-insert name m visiting p.state)))
                ])
                failed
        ]

    search_cycle :
        Edges
        → (x : String) → (search trim_space by_name).0 ≡ err (dependency_cycle x)
        → Needs trim_space modules x x
    unfolding visit_names lookup
    search_cycle edges x h =
        each_err (visit trim_space by_name (suc (size by_name))) (dependency_cycle x)
          (λ s. (m : String) → lookup m s.state ≡ some visiting → ⊥)
          (sort_slice text_before (names_of by_name))
          (λ d s l none_left r.
            visit_cycle edges (suc (size by_name)) d s x (λ m v. absurd (none_left m v)) r)
          (λ d s none_left r m v.
            none_left m ((visit-Keeps trim_space by_name (suc (size by_name)) d s r).1 m v))
          (record { state = empty; order = [] }) (λ m v. ground arith) h

  -- The error of a cycle names a module that needs itself, at once or over other modules.
  pub resolve_install_order-cycle :
      (modules : List ModuleDependency) (x : String)
      → resolve_install_order trim_space modules ≡ err (dependency_cycle x)
      → Needs trim_space modules x x
  resolve_install_order-cycle modules x h =
      elim (resolve_err trim_space modules (dependency_cycle x) h) [
        | inl unsearched ↦ grind arith
        | inr (by_name, q, r, failed) ↦
            search_cycle modules by_name (registered_from trim_space modules by_name q) x failed
      ]
