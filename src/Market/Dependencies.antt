-- ===== src/Market/Dependencies.antt =====
-- The install order of market modules: internal/market/dependencies.go.
pub mod Search
mod Known
pub mod Termination
pub mod Order
pub mod Install
pub mod Cycles
use control_center_stable.Prelude.{
  ℕ, zero, suc, String, Bool, List, [], ◌∷◌, ◌++◌, Option, none, some, Exec, Result, ok, err, pure,
  raise, gets, modify, ◌>>=◌, ◌>>◌, if◌then◌else◌, ◌==◌, true, false,
}
use control_center_stable.Prelude.Map.{Map, empty, lookup, insert, size}
use control_center_stable.Prelude.Library.{text_before, sort_slice}

pub record ModuleDependency : Type 0 where
  pub name : String
  pub depends_on : List String

pub data ResolveError : Type 0 where
  name_required : ResolveError
  duplicate_module : String → ResolveError
  unknown_dependency : String → String → ResolveError
  dependency_cycle : String → ResolveError
  -- The bound on the depth of the search is used up. The code has no such bound.
  out_of_fuel : ResolveError

-- A name that is not yet visited has no mark. `visiting` is 1 in the code, `visited` is 2.
pub data Mark : Type 0 where
  visiting visited : Mark

-- What `visit` shares with the loop that calls it.
pub record Progress : Type 0 where
  pub state : Map Mark
  pub order : List String

-- The body of a `for` loop that leaves the function on an error.
unfoldable pub each :
    (String → Exec ResolveError Progress (Unit {0}))
    → List String
    → Exec ResolveError Progress (Unit {0})
each body [] = pure tt
each body (x ∷ xs) = do body x; each body xs

module _ (trim_space : String → String) where
  unfoldable pub register_modules :
      List ModuleDependency → Map ModuleDependency → Result ResolveError (Map ModuleDependency)
  register_modules [] by_name = ok by_name
  register_modules (m ∷ rest) by_name =
      let name = trim_space m.name in
      let registered = register_modules rest (insert name (record m { name = name }) by_name) in
      if name == "" then err name_required else elim (lookup name by_name) [
        | some other ↦ err (duplicate_module name)
        | none ↦ registered
      ]

  -- The first of the dependencies of a module that is not the name of a module.
  unfoldable pub check_dependencies :
      Map ModuleDependency → String → List String → Result ResolveError (Unit {0})
  check_dependencies by_name name [] = ok tt
  check_dependencies by_name name (dependency ∷ rest) =
      let rest = check_dependencies by_name name rest in
      elim (lookup (trim_space dependency) by_name) [
        | none ↦ err (unknown_dependency name (trim_space dependency))
        | some other ↦ rest
      ]

  -- Go ranges over a map in an order of its own, here that of the list.
  unfoldable pub check_modules :
      Map ModuleDependency → Map ModuleDependency → Result ResolveError (Unit {0})
  unfolding check_dependencies
  check_modules by_name [] = ok tt
  check_modules by_name ((key, m) ∷ rest) =
      let rest = check_modules by_name rest in
      elim (check_dependencies by_name m.name m.depends_on) [ err e ↦ err e | ok done ↦ rest ]

-- `byName[name].DependsOn`, which is empty for a name that is no key.
unfoldable pub dependencies_of : Map ModuleDependency → String → List String
dependencies_of by_name name = elim (lookup name by_name) [ none ↦ [] | some m ↦ m.depends_on ]

unfoldable pub names_of : Map ModuleDependency → List String
names_of [] = []
names_of ((key, m) ∷ rest) = key ∷ names_of rest

abbrev pub set_mark : String → Mark → Progress → Progress
set_mark name mark p = record p { state = insert name mark p.state }

abbrev pub append_name : String → Progress → Progress
append_name name p = record p { order = p.order ++ name ∷ [] }

module _ (trim_space : String → String) (by_name : Map ModuleDependency) where
  -- The name is marked before its dependencies are visited, and again after them.
  unfoldable pub visit_unmarked :
      (String → Exec ResolveError Progress (Unit {0}))
      → String
      → Exec ResolveError Progress (Unit {0})
  unfolding each dependencies_of sort_slice
  visit_unmarked visit_dependency name = do
    modify (set_mark name visiting)
    each (λ dependency. visit_dependency (trim_space dependency))
        (sort_slice text_before (dependencies_of by_name name))
    modify (set_mark name visited)
    modify (append_name name)

  -- Recursion on the depth, of which `fuel` is a bound.
  unfoldable pub visit : ℕ → String → Exec ResolveError Progress (Unit {0})
  unfolding visit_unmarked
  visit zero name p = raise out_of_fuel p
  visit (suc fuel) name p = elim (lookup name p.state) [
    | some visiting ↦ raise (dependency_cycle name) p
    | some visited ↦ pure tt p
    | none ↦ visit_unmarked (visit fuel) name p
  ]

  unfoldable pub visit_names : List String → Exec ResolveError Progress (Unit {0})
  unfolding visit each
  visit_names = each (visit (suc (size by_name)))

-- `ResolveInstallOrder`
unfoldable pub resolve_install_order :
    (String → String) → List ModuleDependency → Result ResolveError (List String)
unfolding register_modules check_modules visit_names names_of sort_slice
resolve_install_order trim_space modules = elim (register_modules trim_space modules empty) [
  | err e ↦ err e
  | ok by_name ↦ elim (check_modules trim_space by_name by_name) [
    | err e ↦ err e
    | ok done ↦
        let (r, p) =
          visit_names trim_space by_name (sort_slice text_before (names_of by_name))
            (record { state = empty; order = [] }) in
        elim r [ err e ↦ err e | ok done ↦ ok p.order ]
  ]
]
