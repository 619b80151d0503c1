-- ===== src/Identity/Rbac/Grants.antt =====
-- The two readings of the bindings of internal/identity/rbac/rbac.go agree: `Allowed`, which decides,
-- and `EffectiveGrants`, which shows a subject what it has.
use control_center_stable.Prelude.{
  String, ◌≡◌, refl, none, List, [], ◌∷◌, Bool, false, ◌&&◌, ◌||◌, arith, ok, Option-cases, inl,
  inr,
}
use control_center_stable.Prelude.Map.{Map, lookup}
use control_center_stable.Prelude.Library.{Library, text_before, sort_slice, insert_sorted}
use control_center_stable.Prelude.Sorting.{listed, listed-sort_slice}
use control_center_stable.Identity.Rbac.{
  Scope, Binding, EffectiveGrant, Authorizer, scope_contains, any_allows, answerable, is_allowed,
  grants_of, grant_earlier, effective_grants,
}

module _ {ℓ} {A : Type ℓ} (test : A → Bool) where
  unfoldable pub any : List A → Bool
  any [] = false
  any (x ∷ xs) = test x || any xs

  any-insert_sorted :
      (less : A → A → Bool) (x : A) (xs : List A) → any (insert_sorted less x xs) ≡ any (x ∷ xs)
  unfolding any insert_sorted
  any-insert_sorted less x [] = refl
  any-insert_sorted less x (y ∷ ys) = ground (arith, any-insert_sorted less x ys)

  any-sort_slice : (less : A → A → Bool) (xs : List A) → any (sort_slice less xs) ≡ any xs
  unfolding any sort_slice
  any-sort_slice less [] = refl
  any-sort_slice less (x ∷ xs) =
      ground (arith, any-insert_sorted less x (sort_slice less xs), any-sort_slice less xs)

-- The grant is for a scope that contains the target, and has the permission or all permissions.
unfoldable pub covers : String → Scope → EffectiveGrant → Bool
unfolding scope_contains
covers permission target g =
    scope_contains g.scope target && (listed "*" g.permissions || listed permission g.permissions)

any-grants_of :
    (roles : Map (List String)) (subject permission : String) (target : Scope) (bs : List Binding)
    → any_allows roles subject permission target bs
      ≡ any (covers permission target) (grants_of roles subject bs)
unfolding any_allows grants_of any covers
any-grants_of roles subject permission target [] = refl
any-grants_of roles subject permission target (b ∷ bs) =
    elim (Option-cases (lookup b.role_name roles)) [
      | inl gone ↦ ground (arith, any-grants_of roles subject permission target bs)
      | inr (set, found) ↦ ground (
        arith,
        any-grants_of roles subject permission target bs,
        listed-sort_slice text_before "*" set,
        listed-sort_slice text_before permission set,
      )
    ]

-- A subject is allowed a permission on a target exactly when the arguments are valid and one of the
-- grants that `EffectiveGrants` lists for the subject is for a scope that contains the target, and has
-- the permission or all permissions.
pub is_allowed-any :
    (lib : Library) (a : Authorizer) (subject permission : String) (target : Scope)
    (grants : List EffectiveGrant)
    → effective_grants lib none subject a ≡ ok grants
    → is_allowed lib subject permission target a
      ≡ (answerable lib subject permission target && any (covers permission target) grants)
unfolding is_allowed effective_grants
is_allowed-any lib a subject permission target grants h = ground (
  arith,
  any-grants_of a.roles subject permission target a.bindings,
  any-sort_slice (covers permission target) grant_earlier (grants_of a.roles subject a.bindings),
)
