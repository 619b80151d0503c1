-- ===== src/Market/Dependencies/Install.antt =====
-- What internal/market/dependencies.go promises of an install order, in terms of the modules given.
use control_center_stable.Prelude.{
  String, List, [], ◌∷◌, none, some, ok, ◌==◌, true, ◌≡◌, refl, inl, inr, ◌⊎◌, Bool-cases, eq_iff,
  arith, Option-cases, ◌||◌,
}
use mathlib.Core.List.{Memᴰ}
use mathlib.Core.List.Memᴰ
use control_center_stable.Prelude.Map.{Map, lookup, insert, lookup-insert, empty}
use control_center_stable.Prelude.Sorting.{listed}
use control_center_stable.Market.Dependencies.{
  ModuleDependency, check_modules, dependencies_of, names_of, register_modules,
  resolve_install_order,
}
use control_center_stable.Market.Dependencies.Search.{search, resolve_ok}
use control_center_stable.Market.Dependencies.Known.{
  unknown_listed, lookup-listed, lookup-dependencies_of,
}
use control_center_stable.Market.Dependencies.Order.{earlier, distinct, search-Sound, Ordered}

earlier_trans :
    (a b c : String) (xs : List String)
    → earlier a b xs ≡ true
    → earlier b c xs ≡ true
    → earlier a c xs ≡ true
unfolding earlier
earlier_trans a b c [] h k = ground arith
earlier_trans a b c (x ∷ xs) h k =
    ground (arith, earlier_trans a b c xs, eq_iff x a, eq_iff x b, eq_iff x c)

names_of-insert :
    (x k : String) (m : ModuleDependency) (old : Map ModuleDependency)
    → listed x (names_of (insert k m old)) ≡ (listed x (names_of old) || k == x)
unfolding names_of listed insert
names_of-insert x k m [] = ground arith
names_of-insert x k m ((key, n) ∷ rest) = ground (arith, names_of-insert x k m rest, eq_iff key k)

module _ (trim_space : String → String) where
  -- One module, by its name, needs another, at once or over others.
  pub data Needs (modules : List ModuleDependency) : String → String → Type 0 where
    direct :
        (m : ModuleDependency) (d : String)
        → Memᴰ m modules
        → listed d m.depends_on ≡ true
        → Needs modules (trim_space m.name) (trim_space d)
    indirect : (a b c : String) → Needs modules a b → Needs modules b c → Needs modules a c

  unfoldable pub module_names : List ModuleDependency → List String
  module_names [] = []
  module_names (m ∷ ms) = trim_space m.name ∷ module_names ms

  search-same :
      (by_name : Map ModuleDependency)
      → check_modules trim_space by_name by_name ≡ ok tt
      → (search trim_space by_name).0 ≡ ok tt
      → (order : List String) → (search trim_space by_name).1.order ≡ order
      → (x : String) → listed x order ≡ listed x (names_of by_name)
  search-same by_name r found order e x =
      let (s, all) = search-Sound trim_space by_name r found in
      rw (← e) (elim (Bool-cases (listed x (search trim_space by_name).1.order)) [
        | inl l ↦ rw (l, lookup-listed by_name x (s.known x l).0 (s.known x l).1) refl
        | inr l ↦ ground (arith, all x)
      ])

  -- A registration that succeeds adds a new name.
  register_ok :
      (n : ModuleDependency) (rest : List ModuleDependency) (old by_name : Map ModuleDependency)
      → register_modules trim_space (n ∷ rest) old ≡ ok by_name
      → (lookup (trim_space n.name) old ≡ none)
        × (register_modules trim_space rest
              (insert (trim_space n.name) (record n { name = trim_space n.name }) old)
            ≡ ok by_name)
  unfolding register_modules
  register_ok n rest old by_name h = elim (Option-cases (lookup (trim_space n.name) old)) [
    | inl q ↦ (q, ground arith)
    | inr (other, q) ↦ ground arith
  ]

  -- What is registered stays.
  registered_stays :
      (modules : List ModuleDependency) (old by_name : Map ModuleDependency) (x : String)
      (m : ModuleDependency)
      → register_modules trim_space modules old ≡ ok by_name
      → lookup x old ≡ some m
      → lookup x by_name ≡ some m
  unfolding register_modules
  registered_stays [] old by_name x m h l = ground arith
  registered_stays (n ∷ rest) old by_name x m h l =
      let (fresh, h') = register_ok n rest old by_name h in
      registered_stays rest (insert (trim_space n.name) (record n { name = trim_space n.name }) old)
        by_name x m h'
        (ground (
          arith,
          lookup-insert (trim_space n.name) x (record n { name = trim_space n.name }) old,
          eq_iff (trim_space n.name) x,
        ))

  registered_names :
      (modules : List ModuleDependency) (old by_name : Map ModuleDependency) (x : String)
      → register_modules trim_space modules old ≡ ok by_name
      → listed x (names_of by_name) ≡ (listed x (names_of old) || listed x (module_names modules))
  unfolding register_modules listed module_names
  registered_names [] old by_name x h = ground arith
  registered_names (n ∷ rest) old by_name x h =
      let (fresh, h') = register_ok n rest old by_name h in
      let new = insert (trim_space n.name) (record n { name = trim_space n.name }) old in
      ground (
        arith,
        registered_names rest new by_name x h',
        names_of-insert x (trim_space n.name) (record n { name = trim_space n.name }) old,
      )

  registered_mem :
      (modules : List ModuleDependency) (old by_name : Map ModuleDependency) (m : ModuleDependency)
      → register_modules trim_space modules old ≡ ok by_name
      → Memᴰ m modules
      → lookup (trim_space m.name) by_name ≡ some (record m { name = trim_space m.name })
  registered_mem [] old by_name m h mem = absurd (Memᴰ.not-nil mem)
  registered_mem (n ∷ rest) old by_name m h mem =
      let (fresh, h') = register_ok n rest old by_name h in
      let new = insert (trim_space n.name) (record n { name = trim_space n.name }) old in
      elim (Memᴰ.cases_cons mem) [
        | inr later ↦ registered_mem rest new by_name m h' later
        | inl first ↦ rw first (
            registered_stays rest new by_name (trim_space n.name)
              (record n { name = trim_space n.name }) h'
              (ground (
                arith,
                lookup-insert (trim_space n.name) (trim_space n.name)
                    (record n { name = trim_space n.name }) old,
                eq_iff (trim_space n.name) (trim_space n.name),
              )))
      ]

  registered_only :
      (modules : List ModuleDependency) (old by_name : Map ModuleDependency) (name : String)
      (m : ModuleDependency)
      → register_modules trim_space modules old ≡ ok by_name
      → lookup name by_name ≡ some m
      → (lookup name old ≡ some m)
        ⊎ ((n : ModuleDependency) × Memᴰ n modules
            × (trim_space n.name ≡ name)
            × (n.depends_on ≡ m.depends_on))
  unfolding register_modules
  registered_only [] old by_name name m h l = inl (ground arith)
  registered_only (n ∷ rest) old by_name name m h l =
      let (fresh, h') = register_ok n rest old by_name h in
      let new = insert (trim_space n.name) (record n { name = trim_space n.name }) old in
      elim (registered_only rest new by_name name m h' l) [
        | inr (k, mem, q, r) ↦ inr (k, Memᴰ.tail mem, q, r)
        | inl found ↦ elim (Bool-cases (trim_space n.name == name)) [
          | inl same ↦ inr (
            n,
            Memᴰ.head refl,
            (eq_iff (trim_space n.name) name).0 same,
            (ground (
              arith,
              lookup-insert (trim_space n.name) name (record n { name = trim_space n.name }) old,
            )),
          )
          | inr differs ↦ inl (
              ground (
                arith,
                lookup-insert (trim_space n.name) name (record n { name = trim_space n.name }) old,
              ))
        ]
      ]

  -- What a registered name depends on, the module of the name needs.
  pub registered_from :
      (modules : List ModuleDependency) (by_name : Map ModuleDependency)
      → register_modules trim_space modules empty ≡ ok by_name
      → (name d : String) → listed d (dependencies_of by_name name) ≡ true
      → Needs modules name (trim_space d)
  unfolding lookup
  registered_from modules by_name h name d l = elim (Option-cases (lookup name by_name)) [
    | inl q ↦ ground (arith, unknown_listed by_name name d q)
    | inr (m, q) ↦ elim (registered_only modules empty by_name name m h q) [
      | inl old ↦ ground arith
      | inr (n, mem, same, deps) ↦
          rw (← same) (direct n d mem (rw deps (rw (lookup-dependencies_of by_name name m q) at l)))
    ]
  ]

  Needs-earlier :
      (modules : List ModuleDependency) (by_name : Map ModuleDependency) (order : List String)
      → register_modules trim_space modules empty ≡ ok by_name
      → Ordered trim_space by_name order
      → ((x : String) → listed x order ≡ listed x (names_of by_name))
      → (a b : String) → Needs modules a b
      → earlier b a order ≡ true
  Needs-earlier modules by_name order h o same _ _ (direct m d mem l) =
      let found = registered_mem modules empty by_name m h mem in
      let name = trim_space m.name in
      let n : ModuleDependency = record m { name = name } in
      o name d (rw (same name) (lookup-listed by_name name n found))
        (rw (lookup-dependencies_of by_name name n found) l)
  Needs-earlier modules by_name order h o same _ _ (indirect a c b ac cb) =
      earlier_trans b c a order (Needs-earlier modules by_name order h o same c b cb)
        (Needs-earlier modules by_name order h o same a c ac)

  -- An order that is found holds the trimmed name of every module given and nothing else, no name
  -- twice.
  pub resolve_install_order-holds :
      (modules : List ModuleDependency) (order : List String) (x : String)
      → resolve_install_order trim_space modules ≡ ok order
      → (distinct order ≡ true) × (listed x order ≡ listed x (module_names modules))
  unfolding listed names_of
  resolve_install_order-holds modules order x h =
      let (by_name, q, r, found, e) = resolve_ok trim_space modules order h in
      let (s, all) = search-Sound trim_space by_name r found in
      (
        rw (← e) s.once,
        rw (search-same by_name r found order e x) (registered_names modules empty by_name x q),
      )

  -- In an order that is found a module comes after every module that it needs, at once or over
  -- other modules.
  pub resolve_install_order-earlier :
      (modules : List ModuleDependency) (order : List String) (a b : String)
      → resolve_install_order trim_space modules ≡ ok order
      → Needs modules a b
      → earlier b a order ≡ true
  resolve_install_order-earlier modules order a b h n =
      let (by_name, q, r, found, e) = resolve_ok trim_space modules order h in
      Needs-earlier modules by_name order q
        (rw (← e) (search-Sound trim_space by_name r found).0.ordered)
        (search-same by_name r found order e) a b n
