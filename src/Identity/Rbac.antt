-- ===== src/Identity/Rbac.antt =====
-- internal/identity/rbac/rbac.go: roles, bindings and the decision whether a subject has a permission.
-- The Go string types Permission and ScopeKind are strings. The set of a role's permissions is a list
-- without repetition. `ctx.Err()` is read once.
pub mod Grants
pub mod Registered
use control_center_stable.Prelude.{
  String, Option, none, some, List, [], ◌∷◌, ◌++◌, Bool, true, false, not, ◌&&◌, ◌||◌, ◌==◌,
  if◌then◌else◌, Result, ok, err, Context, ContextError,
}
use control_center_stable.Prelude.Map.{Map, empty, lookup, insert}
use control_center_stable.Prelude.Library.{Library, text_before, sort_slice}
use control_center_stable.Prelude.Sorting.{listed}

pub data AccessError : Type 0 where
  context : ContextError → AccessError
  message : String → AccessError

pub record Scope : Type 0 where
  pub kind : String
  pub id : String

-- `Scope.Valid`
unfoldable pub scope_valid : Library → Scope → Bool
scope_valid lib s =
    if s.kind == "global"
    then s.id == ""
    else (s.kind == "tenant" || s.kind == "site" || s.kind == "resource")
      && not (lib.trim_space s.id == "")

pub record Role : Type 0 where
  pub name : String
  pub permissions : List String

pub record Binding : Type 0 where
  pub subject_id : String
  pub role_name : String
  pub scope : Scope

pub record EffectiveGrant : Type 0 where
  pub role_name : String
  pub scope : Scope
  pub permissions : List String

pub record Authorizer : Type 0 where
  pub roles : Map (List String)
  pub bindings : List Binding

abbrev pub new_authorizer : Authorizer
new_authorizer = record { roles = empty; bindings = [] }

-- The loop of `RegisterRole`, from the permissions that are in the set.
unfoldable pub permission_set :
    Library → List String → List String → Result AccessError (List String)
permission_set lib [] known = ok known
permission_set lib (p ∷ rest) known =
    let set = permission_set lib rest (if listed p known then known else p ∷ known) in
    if lib.trim_space p == "" then err (message "empty permission is not allowed") else set

abbrev pub is_nil {ℓ} : {A : Type ℓ} → List A → Bool
is_nil [] = true
is_nil (x ∷ xs) = false

-- `RegisterRole`
unfoldable pub register_role :
    Library → Role → Authorizer → Result AccessError (Unit {0}) × Authorizer
unfolding permission_set
register_role lib role a =
    if lib.trim_space role.name == "" || is_nil role.permissions
    then (err (message "role name and permissions are required"), a)
    else elim (permission_set lib role.permissions []) [
      | err e ↦ (err e, a)
      | ok set ↦ (ok tt, record a { roles = insert (lib.trim_space role.name) set a.roles })
    ]

-- `Bind`
unfoldable pub bind : Library → Binding → Authorizer → Result AccessError (Unit {0}) × Authorizer
unfolding scope_valid
bind lib b a =
    if lib.trim_space b.subject_id == "" || not (scope_valid lib b.scope)
    then (err (message "subject and valid scope are required"), a)
    else elim (lookup b.role_name a.roles) [
      | none ↦ (err (message "unknown role"), a)
      | some set ↦ (ok tt, record a { bindings = a.bindings ++ b ∷ [] })
    ]

-- `scopeContains`
unfoldable pub scope_contains : Scope → Scope → Bool
scope_contains b target =
    if b.kind == "global" && b.id == "" then true else b.kind == target.kind && b.id == target.id

-- The loop of `Allowed`.
unfoldable pub any_allows : Map (List String) → String → String → Scope → List Binding → Bool
unfolding scope_contains
any_allows roles subject permission target [] = false
any_allows roles subject permission target (b ∷ bs) =
    let rest = any_allows roles subject permission target bs in
    if not (b.subject_id == subject) || not (scope_contains b.scope target)
    then rest
    else elim (lookup b.role_name roles) [
      | none ↦ rest
      | some set ↦ if listed "*" set then true else if listed permission set then true else rest
    ]

-- The check of `Allowed` on its arguments.
unfoldable pub answerable : Library → String → String → Scope → Bool
unfolding scope_valid
answerable lib subject permission target = not (
    lib.trim_space subject == "" || lib.trim_space permission == "" || not (scope_valid lib target))

-- `Allowed`
unfoldable pub is_allowed : Library → String → String → Scope → Authorizer → Bool
unfolding any_allows answerable
is_allowed lib subject permission target a =
    if not (answerable lib subject permission target)
    then false
    else any_allows a.roles subject permission target a.bindings

-- The loop of `EffectiveGrants`.
unfoldable pub grants_of : Map (List String) → String → List Binding → List EffectiveGrant
grants_of roles subject [] = []
grants_of roles subject (b ∷ bs) =
    let rest = grants_of roles subject bs in
    if not (b.subject_id == subject) then rest else elim (lookup b.role_name roles) [
      | none ↦ rest
      | some set ↦
          record {
            role_name = b.role_name;
            scope = b.scope;
            permissions = sort_slice text_before set;
          }
          ∷ rest
    ]

unfoldable pub grant_earlier : EffectiveGrant → EffectiveGrant → Bool
grant_earlier g h =
    if not (g.scope.kind == h.scope.kind)
    then text_before g.scope.kind h.scope.kind
    else if not (g.scope.id == h.scope.id)
    then text_before g.scope.id h.scope.id
    else text_before g.role_name h.role_name

-- `EffectiveGrants`
unfoldable pub effective_grants :
    Library → Context → String → Authorizer → Result AccessError (List EffectiveGrant)
unfolding grants_of grant_earlier
effective_grants lib ctx subject a =
    if lib.trim_space subject == "" then err (message "subject is required") else elim ctx [
      | some e ↦ err (context e)
      | none ↦ ok (sort_slice grant_earlier (grants_of a.roles subject a.bindings))
    ]
