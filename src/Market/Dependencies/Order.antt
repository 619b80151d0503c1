-- ===== src/Market/Dependencies/Order.antt =====
-- The order that internal/market/dependencies.go returns: every module once, after its dependencies.
use control_center_stable.Prelude.{
  ℕ, zero, suc, String, Bool, List, [], ◌∷◌, ◌++◌, none, some, Exec, ok, ◌==◌, true, false, ◌≡◌,
  refl, inl, inr, Bool-cases, eq_iff, arith, if◌then◌else◌, ◌||◌, ◌&&◌, not,
}
use control_center_stable.Prelude.Map.{Map, lookup, lookup-insert, empty}
use control_center_stable.Prelude.Library.{text_before, sort_slice}
use control_center_stable.Prelude.Sorting.{listed, listed-sort_slice}
use control_center_stable.Market.Dependencies.{
  size, check_modules, ModuleDependency, ResolveError, visiting, visited, Progress, each,
  dependencies_of, set_mark, append_name, visit, names_of, visit_names,
}
use control_center_stable.Market.Dependencies.Known.{
  Known, Closed, names_of-listed, check_modules-Known,
}
use control_center_stable.Market.Dependencies.Search.{
  visit_no_fuel, each_nil, each-Keeps, Keeps, each_ok, visit-Keeps, visit_ok, visit_dependencies,
  search,
}

-- `a` stands before the first `b`.
unfoldable pub earlier : String → String → List String → Bool
earlier a b [] = false
earlier a b (x ∷ xs) =
    let rest = earlier a b xs in if x == b then false else if x == a then true else rest

-- No text stands twice in the list.
unfoldable pub distinct : List String → Bool
unfolding listed
distinct [] = true
distinct (x ∷ xs) = not (listed x xs) && distinct xs

listed-append :
    (x y : String) (xs : List String) → listed x (xs ++ y ∷ []) ≡ (listed x xs || y == x)
unfolding listed
listed-append x y [] = ground arith
listed-append x y (z ∷ zs) = ground (arith, listed-append x y zs)

distinct-append :
    (y : String) (xs : List String)
    → distinct xs ≡ true
    → listed y xs ≡ false
    → distinct (xs ++ y ∷ []) ≡ true
unfolding distinct listed
distinct-append y [] d n = refl
distinct-append y (x ∷ xs) d n =
    ground (arith, listed-append x y xs, eq_iff x y, eq_iff y x, distinct-append y xs)

earlier-append :
    (a b y : String) (xs : List String) → earlier a b xs ≡ true → earlier a b (xs ++ y ∷ []) ≡ true
unfolding earlier
earlier-append a b y [] h = ground arith
earlier-append a b y (x ∷ xs) h = ground (arith, earlier-append a b y xs)

earlier-last :
    (a y : String) (xs : List String)
    → listed a xs ≡ true
    → listed y xs ≡ false
    → earlier a y (xs ++ y ∷ []) ≡ true
unfolding earlier listed
earlier-last a y [] l n = ground arith
earlier-last a y (x ∷ xs) l n = ground (arith, earlier-last a y xs)

module _ (trim_space : String → String) (by_name : Map ModuleDependency) where
  -- Every name of the list comes after the names it depends on.
  abbrev pub Ordered : List String → Type 0
  Ordered order =
      (name d : String)
      → listed name order ≡ true
      → listed d (dependencies_of by_name name) ≡ true
      → earlier (trim_space d) name order ≡ true

  -- The order holds the visited names, each of them once, after its dependencies.
  pub record Sound (p : Progress) : Type 0 where
    pub ordered : Ordered p.order
    pub once : distinct p.order ≡ true
    listed_visited : (x : String) → listed x p.order ≡ true → lookup x p.state ≡ some visited
    visited_listed : (x : String) → lookup x p.state ≡ some visited → listed x p.order ≡ true
    pub known : (x : String) → listed x p.order ≡ true → Known trim_space by_name x

  -- Each step of a loop keeps the soundness, and visits its name.
  each-Sound :
      (body : String → Exec ResolveError Progress (Unit {0})) (target : String → String)
      (all : List String)
      → ((x : String) (p : Progress) → (body x p).0 ≡ ok tt → Keeps p (body x p).1)
      → ((x : String) (p : Progress)
          → listed x all ≡ true
          → Sound p
          → (body x p).0 ≡ ok tt
          → Sound (body x p).1 × (lookup (target x) (body x p).1.state ≡ some visited))
      → (xs : List String) (p : Progress)
      → ((x : String) → listed x xs ≡ true → listed x all ≡ true)
      → Sound p
      → (each body xs p).0 ≡ ok tt
      → Sound (each body xs p).1
        × ((x : String)
            → listed x xs ≡ true
            → lookup (target x) (each body xs p).1.state ≡ some visited)
  unfolding listed
  each-Sound body target all keeps step [] p among s h =
      rw (each_nil body p) (s, λ x l. ground arith)
  each-Sound body target all keeps step (x ∷ xs) p among s h =
      let (first, rest, q) = each_ok body x xs p h in
      let (t, now) = step x p (among x (ground (arith, eq_iff x x))) s first in
      let (u, later) =
        each-Sound body target all keeps step xs (body x p).1 (λ y l. among y (ground arith)) t
          rest in
      let kept = each-Keeps body keeps xs (body x p).1 rest in
      rw q (
        u,
        λ y l. elim (Bool-cases (x == y)) [
          | inl same ↦ rw (← (eq_iff x y).0 same) (kept.0 (target x) visited now)
          | inr differs ↦ later y (rw differs at l)
        ],
      )

  empty-Sound : Sound (record { state = empty; order = [] })
  unfolding listed lookup distinct
  empty-Sound = record {
    ordered = λ x d l m. ground arith;
    once = refl;
    listed_visited = λ x l. ground arith;
    visited_listed = λ x v. ground arith;
    known = λ x l. ground arith;
  }

  start-Sound :
      (name : String) (p : Progress)
      → Sound p
      → lookup name p.state ≡ none
      → Sound (set_mark name visiting p)
  start-Sound name p s n = record {
    ordered = s.ordered;
    once = s.once;
    listed_visited = λ x l.
        ground (arith, s.listed_visited x l, lookup-insert name x visiting p.state, eq_iff name x);
    visited_listed =
        λ x v. ground (arith, s.visited_listed x, lookup-insert name x visiting p.state);
    known = s.known;
  }

  finish-Sound :
      (name : String) (p : Progress)
      → Sound p
      → Known trim_space by_name name
      → lookup name p.state ≡ some visiting
      → ((d : String)
          → listed d (dependencies_of by_name name) ≡ true
          → lookup (trim_space d) p.state ≡ some visited)
      → Sound (append_name name (set_mark name visited p))
  finish-Sound name p s here n done =
      let fresh : listed name p.order ≡ false = elim (Bool-cases (listed name p.order)) [
        | inl l ↦ ground (arith, s.listed_visited name l)
        | inr l ↦ l
      ] in
      record {
        ordered = λ x d l m. elim (Bool-cases (listed x p.order)) [
          | inl old ↦ earlier-append (trim_space d) x name p.order (s.ordered x d old m)
          | inr new ↦
              let q : name ≡ x = ground (arith, listed-append x name p.order, eq_iff name x) in
              rw (← q) (
                earlier-last (trim_space d) name p.order
                  (s.visited_listed (trim_space d) (done d (rw q m))) fresh)
        ];
        once = distinct-append name p.order s.once fresh;
        listed_visited = λ x l. ground (
          arith,
          listed-append x name p.order,
          s.listed_visited x,
          lookup-insert name x visited p.state,
          eq_iff name x,
        );
        visited_listed = λ x v. ground (
          arith,
          listed-append x name p.order,
          s.visited_listed x,
          lookup-insert name x visited p.state,
          eq_iff name x,
        );
        known = λ x l. elim (Bool-cases (listed x p.order)) [
          | inl old ↦ s.known x old
          | inr new ↦
              let q : name ≡ x = ground (arith, listed-append x name p.order, eq_iff name x) in
              rw (← q) here
        ];
      }

  visit-Sound :
      Closed trim_space by_name
      → (fuel : ℕ) (name : String) (p : Progress) → Known trim_space by_name name
      → Sound p
      → (visit trim_space by_name fuel name p).0 ≡ ok tt
      → Sound (visit trim_space by_name fuel name p).1
        × (lookup name (visit trim_space by_name fuel name p).1.state ≡ some visited)
  unfolding visit_dependencies
  visit-Sound closed zero name p here s h = ground (arith, visit_no_fuel trim_space by_name name p)
  visit-Sound closed (suc fuel) name p here s h = elim (visit_ok trim_space by_name fuel name p h) [
    | inl (q, same) ↦ rw same (s, q)
    | inr (q, r, same) ↦
        let body : String → Exec ResolveError Progress (Unit {0}) =
          λ d. visit trim_space by_name fuel (trim_space d) in
        let deps = sort_slice text_before (dependencies_of by_name name) in
        let start = set_mark name visiting p in
        let end = (each body deps start).1 in
        let keeps : (d : String) (p : Progress) → (body d p).0 ≡ ok tt → Keeps p (body d p).1 =
          λ d. visit-Keeps trim_space by_name fuel (trim_space d) in
        let kept = each-Keeps body keeps deps start r in
        let (t, done) =
          each-Sound body trim_space deps keeps
            (λ d p l. visit-Sound closed fuel (trim_space d) p (
              closed name d
                (rw (← listed-sort_slice text_before d (dependencies_of by_name name)) l)))
            deps start (λ d l. l) (start-Sound name p s q) r in
        rw same (
          finish-Sound name end t here
              (kept.0 name visiting
                (ground (arith, lookup-insert name name visiting p.state, eq_iff name name)))
              (λ d l.
                done d (rw (listed-sort_slice text_before d (dependencies_of by_name name)) l)),
          ground (arith, lookup-insert name name visited end.state, eq_iff name name),
        )
  ]

  -- A search that succeeds has visited every module.
  pub search-Sound :
      check_modules trim_space by_name by_name ≡ ok tt
      → (search trim_space by_name).0 ≡ ok tt
      → Sound (search trim_space by_name).1
        × ((x : String)
            → listed x (names_of by_name) ≡ true
            → listed x (search trim_space by_name).1.order ≡ true)
  unfolding visit_names
  search-Sound checked h =
      let closed : Closed trim_space by_name =
        λ name d. check_modules-Known trim_space by_name by_name name d checked in
      let fuel = suc (size by_name) in
      let names = sort_slice text_before (names_of by_name) in
      let (t, done) =
        each-Sound (visit trim_space by_name fuel) (λ x. x) names
          (visit-Keeps trim_space by_name fuel)
          (λ d p l. visit-Sound closed fuel d p (
            names_of-listed by_name d
              (rw (← listed-sort_slice text_before d (names_of by_name)) l)))
          names (record { state = empty; order = [] }) (λ d l. l) empty-Sound h in
      (
        t,
        λ x l.
            t.visited_listed x (done x (rw (listed-sort_slice text_before x (names_of by_name)) l)),
      )
