-- ===== src/Prelude/Sorting.antt =====
-- What `sort.Slice` and string order of Go's standard library promise.
use Prim.Native.String.{String}
use text.Mathlib.Text.{◌==◌}
use text.Mathlib.TextEquality.{eq_iff}
use mathlib.Core.Path.{◌≡◌, refl}
use mathlib.Core.Logic.{◌⊎◌, inl, inr}
use mathlib.Core.Bool.{Bool, true, false, ◌||◌}
use mathlib.Core.List.{List, [], ◌∷◌, Memᴰ}
use mathlib.Core.List.Memᴰ
use Prim.Native.Nat.{suc}
use native.Mathlib.Omega.{arith}
use control_center_stable.Prelude.Tests.{length, if◌then◌else◌, Bool-cases}
use control_center_stable.Prelude.Library.{text_before, insert_sorted, sort_slice}

pub text_before_trans :
    (s t u : String) → text_before s t ≡ true → text_before t u ≡ true → text_before s u ≡ true
unfolding text_before
text_before_trans String.[] String.[] u h k = cc
text_before_trans String.[] (String.◌∷◌ d t) String.[] h k = cc
text_before_trans String.[] (String.◌∷◌ d t) (String.◌∷◌ e u) h k = refl
text_before_trans (String.◌∷◌ c s) String.[] u h k = cc
text_before_trans (String.◌∷◌ c s) (String.◌∷◌ d t) String.[] h k = cc
text_before_trans (String.◌∷◌ c s) (String.◌∷◌ d t) (String.◌∷◌ e u) h k =
    ground (arith, text_before_trans s t u)

pub text_before_irrefl : (s : String) → text_before s s ≡ false
unfolding text_before
text_before_irrefl String.[] = refl
text_before_irrefl (String.◌∷◌ c s) = ground (arith, text_before_irrefl s)

-- `x` stands in the list.
unfoldable pub listed : String → List String → Bool
listed x [] = false
listed x (y ∷ ys) = y == x || listed x ys

-- `a` stands in the list, and no later than the first `b`.
unfoldable pub no_later : String → String → List String → Bool
no_later a b [] = false
no_later a b (x ∷ xs) =
    let rest = no_later a b xs in if x == a then true else if x == b then false else rest

module _ (less : String → String → Bool) where
  pub listed-insert_sorted :
      (x y : String) (ys : List String)
      → listed x (insert_sorted less y ys) ≡ (y == x || listed x ys)
  unfolding listed insert_sorted
  listed-insert_sorted x y [] = refl
  listed-insert_sorted x y (z ∷ zs) = ground (arith, listed-insert_sorted x y zs)

  -- Sorting keeps the elements.
  pub listed-sort_slice :
      (x : String) (ys : List String) → listed x (sort_slice less ys) ≡ listed x ys
  unfolding listed sort_slice
  listed-sort_slice x [] = refl
  listed-sort_slice x (y ∷ ys) =
      ground (arith, listed-insert_sorted x y (sort_slice less ys), listed-sort_slice x ys)

  -- Nothing in the list stands before `x` in the order.
  abbrev NoneBefore : String → List String → Type 0
  NoneBefore x [] = Unit
  NoneBefore x (y ∷ ys) = (less y x ≡ false) × NoneBefore x ys

  abbrev pub Ascending : List String → Type 0
  Ascending [] = Unit
  Ascending (x ∷ xs) = NoneBefore x xs × Ascending xs

module _ (less : String → String → Bool) (irrefl : (a : String) → less a a ≡ false)
    (transitive : (a b c : String) → less a b ≡ true → less b c ≡ true → less a c ≡ true) where
  NoneBefore-earlier :
      (x y : String) (ys : List String)
      → less x y ≡ true
      → NoneBefore less y ys
      → NoneBefore less x ys
  NoneBefore-earlier x y [] h n = tt
  NoneBefore-earlier x y (z ∷ zs) h n =
      (ground (arith, transitive z x y), NoneBefore-earlier x y zs h n.1)

  NoneBefore-insert_sorted :
      (x y : String) (ys : List String)
      → less y x ≡ false
      → NoneBefore less x ys
      → NoneBefore less x (insert_sorted less y ys)
  unfolding insert_sorted
  NoneBefore-insert_sorted x y [] h n = (h, tt)
  NoneBefore-insert_sorted x y (z ∷ zs) h n = elim (Bool-cases (less y z)) [
    | inl first ↦ rw first (h, n)
    | inr later ↦ rw later (n.0, NoneBefore-insert_sorted x y zs h n.1)
  ]

  insert_sorted-Ascending :
      (y : String) (ys : List String) → Ascending less ys → Ascending less (insert_sorted less y ys)
  unfolding insert_sorted
  insert_sorted-Ascending y [] a = (tt, tt)
  insert_sorted-Ascending y (z ∷ zs) a = elim (Bool-cases (less y z)) [
    | inl first ↦
        rw first
          ((ground (arith, transitive z y z, irrefl z), NoneBefore-earlier y z zs first a.0), a)
    | inr later ↦
        rw later (NoneBefore-insert_sorted z y zs later a.0, insert_sorted-Ascending y zs a.1)
  ]

  sort_slice-Ascending : (ys : List String) → Ascending less (sort_slice less ys)
  unfolding sort_slice
  sort_slice-Ascending [] = tt
  sort_slice-Ascending (y ∷ ys) =
      insert_sorted-Ascending y (sort_slice less ys) (sort_slice-Ascending ys)

  NoneBefore-listed :
      (x b : String) (ys : List String)
      → NoneBefore less x ys
      → listed b ys ≡ true
      → less b x ≡ false
  unfolding listed
  NoneBefore-listed x b [] n h = cc
  NoneBefore-listed x b (y ∷ ys) n h = elim (Bool-cases (y == b)) [
    | inl same ↦ rw (← (eq_iff y b).0 same) n.0
    | inr differs ↦ NoneBefore-listed x b ys n.1 (rw differs at h)
  ]

  Ascending-no_later :
      (a b : String) (ys : List String)
      → Ascending less ys
      → listed b ys ≡ true
      → no_later a b ys ≡ true
      → less b a ≡ false
  unfolding listed no_later
  Ascending-no_later a b [] s l h = cc
  Ascending-no_later a b (y ∷ ys) s l h = elim (Bool-cases (y == a)) [
    | inl here ↦
        let q : y ≡ a = (eq_iff y a).0 here in
        elim (Bool-cases (y == b)) [
          | inl same ↦ rw (← q, ← (eq_iff y b).0 same) (irrefl y)
          | inr differs ↦ rw (← q) (NoneBefore-listed y b ys s.0 (rw differs at l))
        ]
    | inr not_here ↦ elim (Bool-cases (y == b)) [
      | inl same ↦ ground arith
      | inr differs ↦ Ascending-no_later a b ys s.1 (rw differs at l) (rw (not_here, differs) at h)
    ]
  ]

  -- In a sorted list what stands no later is not after, in the order.
  pub sort_slice-no_later :
      (a b : String) (ys : List String)
      → listed b ys ≡ true
      → no_later a b (sort_slice less ys) ≡ true
      → less b a ≡ false
  sort_slice-no_later a b ys l h =
      Ascending-no_later a b (sort_slice less ys) (sort_slice-Ascending ys)
        (rw (listed-sort_slice less b ys) l) h

-- Sorting keeps the elements and their number.
module _ {ℓ} {A : Type ℓ} (less : A → A → Bool) where
  insert_sorted-Mem :
      (x a : A) (xs : List A) → Memᴰ a (insert_sorted less x xs) → (a ≡ x) ⊎ Memᴰ a xs
  unfolding insert_sorted
  insert_sorted-Mem x a [] m = Memᴰ.cases_cons m
  insert_sorted-Mem x a (y ∷ ys) m = elim (Bool-cases (less x y)) [
    | inl first ↦ Memᴰ.cases_cons (rw first at m)
    | inr later ↦ elim (Memᴰ.cases_cons (rw later at m)) [
      | inl e ↦ inr (Memᴰ.head e)
      | inr n ↦ elim (insert_sorted-Mem x a ys n) [ inl e ↦ inl e | inr k ↦ inr (Memᴰ.tail k) ]
    ]
  ]

  Mem-insert_sorted :
      (x a : A) (xs : List A) → (a ≡ x) ⊎ Memᴰ a xs → Memᴰ a (insert_sorted less x xs)
  unfolding insert_sorted
  Mem-insert_sorted x a [] (inl e) = Memᴰ.head e
  Mem-insert_sorted x a [] (inr m) = absurd (Memᴰ.not-nil m)
  Mem-insert_sorted x a (y ∷ ys) (inl e) = elim (Bool-cases (less x y)) [
    | inl first ↦ rw first (Memᴰ.head e)
    | inr later ↦ rw later (Memᴰ.tail (Mem-insert_sorted x a ys (inl e)))
  ]
  Mem-insert_sorted x a (y ∷ ys) (inr m) = elim (Bool-cases (less x y)) [
    | inl first ↦ rw first (Memᴰ.tail m)
    | inr later ↦ elim (Memᴰ.cases_cons m) [
      | inl e ↦ rw later (Memᴰ.head e)
      | inr n ↦ rw later (Memᴰ.tail (Mem-insert_sorted x a ys (inr n)))
    ]
  ]

  pub sort_slice-Mem : (a : A) (xs : List A) → Memᴰ a (sort_slice less xs) → Memᴰ a xs
  unfolding sort_slice
  sort_slice-Mem a [] m = m
  sort_slice-Mem a (x ∷ xs) m = elim (insert_sorted-Mem x a (sort_slice less xs) m) [
    | inl e ↦ Memᴰ.head e
    | inr n ↦ Memᴰ.tail (sort_slice-Mem a xs n)
  ]

  pub Mem-sort_slice : (a : A) (xs : List A) → Memᴰ a xs → Memᴰ a (sort_slice less xs)
  unfolding sort_slice
  Mem-sort_slice a [] m = m
  Mem-sort_slice a (x ∷ xs) m = elim (Memᴰ.cases_cons m) [
    | inl e ↦ Mem-insert_sorted x a (sort_slice less xs) (inl e)
    | inr n ↦ Mem-insert_sorted x a (sort_slice less xs) (inr (Mem-sort_slice a xs n))
  ]

  length-insert_sorted : (x : A) (xs : List A) → length (insert_sorted less x xs) ≡ suc (length xs)
  unfolding insert_sorted
  length-insert_sorted x [] = refl
  length-insert_sorted x (y ∷ ys) = ground (arith, length-insert_sorted x ys)

  pub length-sort_slice : (xs : List A) → length (sort_slice less xs) ≡ length xs
  unfolding sort_slice
  length-sort_slice [] = refl
  length-sort_slice (x ∷ xs) =
      omega (arith, length-insert_sorted x (sort_slice less xs), length-sort_slice xs)
