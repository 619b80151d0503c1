-- ===== src/Market/Dependencies/Search.antt =====
-- What a visit of internal/market/dependencies.go does to the marks of the modules.
use control_center_stable.Prelude.{
  ℕ, zero, suc, String, List, [], ◌∷◌, none, some, Exec, Result, ok, err, ◌>>◌, modify, ◌==◌, true,
  ◌≡◌, refl, inl, inr, ◌⊎◌, Bool-cases, Result-cases, eq_iff, arith, Option-cases,
}
use control_center_stable.Prelude.Map.{Map, lookup, insert, lookup-insert, empty}
use control_center_stable.Prelude.Library.{text_before, sort_slice}
use control_center_stable.Prelude.Sorting.{listed}
use control_center_stable.Market.Dependencies.{
  duplicate_module, unknown_dependency, names_of, register_modules, resolve_install_order,
  name_required, visit_names, check_dependencies, check_modules, ModuleDependency, ResolveError,
  dependency_cycle, out_of_fuel, Mark, visiting, visited, Progress, each, dependencies_of, set_mark,
  append_name, visit, visit_unmarked,
}

-- Marks stay, and no name is left in visit that was not before.
abbrev pub Keeps : Progress → Progress → Type 0
Keeps p q =
    ((x : String) (k : Mark) → lookup x p.state ≡ some k → lookup x q.state ≡ some k)
    × ((x : String) → lookup x q.state ≡ some visiting → lookup x p.state ≡ some visiting)

pub Keeps-trans : (p q r : Progress) → Keeps p q → Keeps q r → Keeps p r
Keeps-trans p q r a b = (λ x k h. b.0 x k (a.0 x k h), λ x h. a.1 x (b.1 x h))

Body : Type 0
Body = String → Exec ResolveError Progress (Unit {0})

-- A loop that succeeds is a step that succeeds and the loop over the others.
pub each_ok :
    (body : String → Exec ResolveError Progress (Unit {0})) (x : String) (xs : List String)
    (p : Progress)
    → (each body (x ∷ xs) p).0 ≡ ok tt
    → ((body x p).0 ≡ ok tt)
      × ((each body xs (body x p).1).0 ≡ ok tt)
      × (each body (x ∷ xs) p ≡ each body xs (body x p).1)
unfolding each
each_ok body x xs p h = elim (Result-cases (body x p).0) [
  | inl (done, q) ↦ (q, rw q at h, rw q refl)
  | inr (e, q) ↦ ground (arith)
]

-- A loop fails where a step fails, after steps that succeed.
pub each_err {ℓ} :
    {C : Type ℓ} (body : String → Exec ResolveError Progress (Unit {0})) (e : ResolveError)
    (Holds : Progress → Type 0) (xs : List String)
    → ((x : String) (p : Progress) → listed x xs ≡ true → Holds p → (body x p).0 ≡ err e → C)
    → ((x : String) (p : Progress) → Holds p → (body x p).0 ≡ ok tt → Holds (body x p).1)
    → (p : Progress) → Holds p
    → (each body xs p).0 ≡ err e
    → C
unfolding each listed
each_err body e Holds [] steps keeps p start h = ground arith
each_err body e Holds (x ∷ xs) steps keeps p start h = elim (Result-cases (body x p).0) [
  | inl (done, q) ↦
      each_err body e Holds xs (λ y p l s. steps y p (ground (arith, l)) s) keeps (body x p).1
        (keeps x p start q) (rw q at h)
  | inr (e, q) ↦ steps x p (ground (arith, eq_iff x x)) start (ground arith)
]

pub each_nil :
    (body : String → Exec ResolveError Progress (Unit {0})) (p : Progress)
    → each body [] p ≡ (ok tt, p)
unfolding each
each_nil body p = refl

pub each-Keeps :
    (body : String → Exec ResolveError Progress (Unit {0}))
    → ((x : String) (p : Progress) → (body x p).0 ≡ ok tt → Keeps p (body x p).1)
    → (xs : List String) (p : Progress) → (each body xs p).0 ≡ ok tt
    → Keeps p (each body xs p).1
unfolding each
each-Keeps body step [] p h = (λ x k h. h, λ x h. h)
each-Keeps body step (x ∷ xs) p h =
    let (first, rest, q) = each_ok body x xs p h in
    rw q (
      Keeps-trans p (body x p).1 (each body xs (body x p).1).1 (step x p first)
        (each-Keeps body step xs (body x p).1 rest))

-- An unmarked name is marked twice.
marked-Keeps :
    (name : String) (p q : Progress)
    → lookup name p.state ≡ none
    → Keeps (set_mark name visiting p) q
    → Keeps p (append_name name (set_mark name visited q))
marked-Keeps name p q none_yet kept = (
  λ x k h. grind (
    arith,
    eq_iff name x,
    lookup-insert name x visiting p.state,
    lookup-insert name x visited q.state,
    kept.0 x k,
  ),
  λ x h. grind (
    arith,
    eq_iff name x,
    lookup-insert name x visiting p.state,
    lookup-insert name x visited q.state,
    kept.1 x,
  ),
)

module _ (trim_space : String → String) (by_name : Map ModuleDependency) where
  -- The visits of the dependencies of a name, by a search of the given depth.
  unfoldable pub visit_dependencies : ℕ → String → Exec ResolveError Progress (Unit {0})
  unfolding dependencies_of sort_slice
  visit_dependencies fuel name =
      each (λ dependency. visit trim_space by_name fuel (trim_space dependency))
        (sort_slice text_before (dependencies_of by_name name))

  pub visit_no_fuel :
      (name : String) (p : Progress) → visit trim_space by_name zero name p ≡ (err out_of_fuel, p)
  unfolding visit
  visit_no_fuel name p = refl

  pub visit_visited :
      (fuel : ℕ) (name : String) (p : Progress)
      → lookup name p.state ≡ some visited
      → visit trim_space by_name (suc fuel) name p ≡ (ok tt, p)
  unfolding visit
  visit_visited fuel name p q = ground arith

  pub visit_visiting :
      (fuel : ℕ) (name : String) (p : Progress)
      → lookup name p.state ≡ some visiting
      → visit trim_space by_name (suc fuel) name p ≡ (err (dependency_cycle name), p)
  unfolding visit
  visit_visiting fuel name p q = ground arith

  pub visit-none :
      (fuel : ℕ) (name : String) (p : Progress)
      → lookup name p.state ≡ none
      → visit trim_space by_name (suc fuel) name p
        ≡ (visit_dependencies fuel name
              >> modify (set_mark name visited)
              >> modify (append_name name))
            (set_mark name visiting p)
  unfolding visit visit_unmarked visit_dependencies
  visit-none fuel name p q = ground arith

  -- The ways in which a visit succeeds.
  pub visit_ok :
      (fuel : ℕ) (name : String) (p : Progress)
      → (visit trim_space by_name (suc fuel) name p).0 ≡ ok tt
      → ((lookup name p.state ≡ some visited)
          × ((visit trim_space by_name (suc fuel) name p).1 ≡ p))
        ⊎ ((lookup name p.state ≡ none)
            × ((visit_dependencies fuel name (set_mark name visiting p)).0 ≡ ok tt)
            × ((visit trim_space by_name (suc fuel) name p).1
                ≡ append_name name (
                    set_mark name visited
                      (visit_dependencies fuel name (set_mark name visiting p)).1)))
  visit_ok fuel name p h = elim (Option-cases (lookup name p.state)) [
    | inr (visiting, q) ↦ ground (arith, visit_visiting fuel name p q)
    | inr (visited, q) ↦ inl (q, rw (visit_visited fuel name p q) refl)
    | inl q ↦ elim (Result-cases (visit_dependencies fuel name (set_mark name visiting p)).0) [
      | inl (done, r) ↦ inr (q, r, rw (visit-none fuel name p q, r) refl)
      | inr (e, r) ↦ ground (arith, visit-none fuel name p q)
    ]
  ]

  -- The ways in which a visit fails.
  pub visit_err :
      (fuel : ℕ) (name : String) (p : Progress) (e : ResolveError)
      → (visit trim_space by_name (suc fuel) name p).0 ≡ err e
      → ((lookup name p.state ≡ some visiting) × (e ≡ dependency_cycle name))
        ⊎ ((lookup name p.state ≡ none)
            × ((visit_dependencies fuel name (set_mark name visiting p)).0 ≡ err e))
  visit_err fuel name p e h = elim (Option-cases (lookup name p.state)) [
    | inr (visiting, q) ↦ inl (q, ground (arith, visit_visiting fuel name p q))
    | inr (visited, q) ↦ ground (arith, visit_visited fuel name p q)
    | inl q ↦ elim (Result-cases (visit_dependencies fuel name (set_mark name visiting p)).0) [
      | inl (done, r) ↦ ground (arith, visit-none fuel name p q)
      | inr (x, r) ↦ inr (q, ground (arith, visit-none fuel name p q))
    ]
  ]

  pub visit-Keeps :
      (fuel : ℕ) (name : String) (p : Progress)
      → (visit trim_space by_name fuel name p).0 ≡ ok tt
      → Keeps p (visit trim_space by_name fuel name p).1
  unfolding visit visit_dependencies
  visit-Keeps zero name p h = ground arith
  visit-Keeps (suc fuel) name p h = elim (visit_ok fuel name p h) [
    | inl (q, same) ↦ rw same (λ x k h. h, λ x h. h)
    | inr (q, r, same) ↦ rw same (
        marked-Keeps name p (visit_dependencies fuel name (set_mark name visiting p)).1 q (
          each-Keeps (λ dependency. visit trim_space by_name fuel (trim_space dependency))
            (λ x p h. visit-Keeps fuel (trim_space x) p h)
            (sort_slice text_before (dependencies_of by_name name)) (set_mark name visiting p) r))
  ]

-- The search for an install order, from no mark and no order.
abbrev pub search :
    (String → String) → Map ModuleDependency → Result ResolveError (Unit {0}) × Progress
search trim_space by_name =
    visit_names trim_space by_name (sort_slice text_before (names_of by_name))
      (record { state = empty; order = [] })

-- The errors that are no errors of the search.
abbrev pub Unsearched : ResolveError → Type 0
Unsearched e =
    (e ≡ name_required)
    ⊎ ((name : String) × (e ≡ duplicate_module name))
    ⊎ ((name : String) × (d : String) × (e ≡ unknown_dependency name d))

module _ (trim_space : String → String) (modules : List ModuleDependency) where
  -- What stands behind an install order.
  pub resolve_ok :
      (order : List String)
      → resolve_install_order trim_space modules ≡ ok order
      → (by_name : Map ModuleDependency) × (register_modules trim_space modules empty ≡ ok by_name)
        × (check_modules trim_space by_name by_name ≡ ok tt)
        × ((search trim_space by_name).0 ≡ ok tt)
        × ((search trim_space by_name).1.order ≡ order)
  unfolding resolve_install_order
  resolve_ok order h = elim (Result-cases (register_modules trim_space modules empty)) [
    | inr (e, q) ↦ ground arith
    | inl (by_name, q) ↦ elim (Result-cases (check_modules trim_space by_name by_name)) [
      | inr (e, r) ↦ ground arith
      | inl (done, r) ↦ elim (Result-cases (search trim_space by_name).0) [
        | inl (done, found) ↦ (by_name, q, r, found, ground arith)
        | inr (e, failed) ↦ ground arith
      ]
    ]
  ]

  check_dependencies_err :
      (by_name : Map ModuleDependency) (name : String) (ds : List String) (e : ResolveError)
      → check_dependencies trim_space by_name name ds ≡ err e
      → (d : String) × (e ≡ unknown_dependency name d)
  unfolding check_dependencies
  check_dependencies_err by_name name [] e h = ground arith
  check_dependencies_err by_name name (d ∷ ds) e h =
      elim (Option-cases (lookup (trim_space d) by_name)) [
        | inl q ↦ (trim_space d, ground arith)
        | inr (m, q) ↦ check_dependencies_err by_name name ds e (ground arith)
      ]

  check_modules_err :
      (by_name rest : Map ModuleDependency) (e : ResolveError)
      → check_modules trim_space by_name rest ≡ err e
      → Unsearched e
  unfolding check_modules
  check_modules_err by_name [] e h = ground arith
  check_modules_err by_name ((key, m) ∷ rest) e h =
      elim (Result-cases (check_dependencies trim_space by_name m.name m.depends_on)) [
        | inl (done, q) ↦ check_modules_err by_name rest e (ground arith)
        | inr (x, q) ↦
            let (d, r) = check_dependencies_err by_name m.name m.depends_on x q in
            inr (inr (m.name, d, ground arith))
      ]

register_modules_err :
    (trim_space : String → String) (modules : List ModuleDependency)
    (by_name : Map ModuleDependency) (e : ResolveError)
    → register_modules trim_space modules by_name ≡ err e
    → Unsearched e
unfolding register_modules
register_modules_err trim_space [] by_name e h = ground arith
register_modules_err trim_space (m ∷ rest) by_name e h =
    elim (Bool-cases (trim_space m.name == "")) [
      | inl q ↦ inl (ground arith)
      | inr q ↦ elim (Option-cases (lookup (trim_space m.name) by_name)) [
        | inr (other, r) ↦ inr (inl (trim_space m.name, ground arith))
        | inl r ↦
            register_modules_err trim_space rest
              (insert (trim_space m.name) (record m { name = trim_space m.name }) by_name) e
              (ground arith)
      ]
    ]

-- What stands behind an error.
pub resolve_err :
    (trim_space : String → String) (modules : List ModuleDependency) (e : ResolveError)
    → resolve_install_order trim_space modules ≡ err e
    → Unsearched e
      ⊎ ((by_name : Map ModuleDependency) × (register_modules trim_space modules empty ≡ ok by_name)
          × (check_modules trim_space by_name by_name ≡ ok tt)
          × ((search trim_space by_name).0 ≡ err e))
unfolding resolve_install_order
resolve_err trim_space modules e h =
    elim (Result-cases (register_modules trim_space modules empty)) [
      | inr (x, q) ↦ inl (register_modules_err trim_space modules empty e (ground arith))
      | inl (by_name, q) ↦ elim (Result-cases (check_modules trim_space by_name by_name)) [
        | inr (x, r) ↦ inl (check_modules_err trim_space modules by_name by_name e (ground arith))
        | inl (done, r) ↦ elim (Result-cases (search trim_space by_name).0) [
          | inl (done, found) ↦ ground arith
          | inr (x, failed) ↦ inr (by_name, q, r, ground arith)
        ]
      ]
    ]
