-- ===== src/Identity/Rbac/Registered.antt =====
-- The bindings of internal/identity/rbac/rbac.go are bindings of registered roles.
use control_center_stable.Prelude.{
  String, ◌≡◌, ◌≢◌, Option, none, some, List, [], ◌∷◌, ◌++◌, ◌==◌, ◌||◌, not, arith, Option-cases,
  Bool-cases, Result-cases, inl, inr,
}
use control_center_stable.Prelude.Map.{Map, lookup, insert, map_laws}
use control_center_stable.Prelude.Library.{Library}
use control_center_stable.Identity.Rbac.{
  Role, Binding, Authorizer, new_authorizer, scope_valid, is_nil, permission_set, register_role,
  bind,
}

-- Every binding is one of a registered role.
abbrev pub AreRegistered : Map (List String) → List Binding → Type 0
AreRegistered roles [] = Unit
AreRegistered roles (b ∷ bs) = (lookup b.role_name roles ≢ none) × AreRegistered roles bs

-- A call that changes the authorizer.
pub data Call : Type 0 where
  registers : Role → Call
  binds : Binding → Call

unfoldable pub run : Library → List Call → Authorizer → Authorizer
run lib [] a = a
run lib (registers role ∷ calls) a = run lib calls (register_role lib role a).1
run lib (binds b ∷ calls) a = run lib calls (bind lib b a).1

AreRegistered-insert :
    (roles : Map (List String)) (name : String) (set : List String) (bs : List Binding)
    → AreRegistered roles bs
    → AreRegistered (insert name set roles) bs
AreRegistered-insert roles name set [] h = tt
AreRegistered-insert roles name set (b ∷ bs) h =
    (simp map_laws (ground (arith, h.0)), AreRegistered-insert roles name set bs h.1)

AreRegistered-append :
    (roles : Map (List String)) (b : Binding) (bs : List Binding)
    → lookup b.role_name roles ≢ none
    → AreRegistered roles bs
    → AreRegistered roles (bs ++ b ∷ [])
AreRegistered-append roles b [] k h = (k, tt)
AreRegistered-append roles b (c ∷ bs) k h = (h.0, AreRegistered-append roles b bs k h.1)

is_found : (o : Option (List String)) (set : List String) → o ≡ some set → o ≢ none
is_found o set h e = cc

register_role-AreRegistered :
    (lib : Library) (role : Role) (a : Authorizer)
    → AreRegistered a.roles a.bindings
    → AreRegistered (register_role lib role a).1.roles (register_role lib role a).1.bindings
unfolding register_role
register_role-AreRegistered lib role a h =
    elim (Bool-cases (lib.trim_space role.name == "" || is_nil role.permissions)) [
      | inl bad ↦ rw bad h
      | inr good ↦ rw good (elim (Result-cases (permission_set lib role.permissions [])) [
        | inr (e, refused) ↦ rw refused h
        | inl (set, made) ↦
            rw made (AreRegistered-insert a.roles (lib.trim_space role.name) set a.bindings h)
      ])
    ]

bind-AreRegistered :
    (lib : Library) (b : Binding) (a : Authorizer)
    → AreRegistered a.roles a.bindings
    → AreRegistered (bind lib b a).1.roles (bind lib b a).1.bindings
unfolding bind
bind-AreRegistered lib b a h =
    elim (Bool-cases (lib.trim_space b.subject_id == "" || not (scope_valid lib b.scope))) [
      | inl bad ↦ rw bad h
      | inr good ↦ rw good (elim (Option-cases (lookup b.role_name a.roles)) [
        | inl gone ↦ rw gone h
        | inr (set, found) ↦ rw found (
            AreRegistered-append a.roles b a.bindings
              (is_found (lookup b.role_name a.roles) set found) h)
      ])
    ]

run-keeps :
    (lib : Library) (calls : List Call) (a : Authorizer)
    → AreRegistered a.roles a.bindings
    → AreRegistered (run lib calls a).roles (run lib calls a).bindings
unfolding run
run-keeps lib [] a h = h
run-keeps lib (registers role ∷ calls) a h =
    run-keeps lib calls (register_role lib role a).1 (register_role-AreRegistered lib role a h)
run-keeps lib (binds b ∷ calls) a h =
    run-keeps lib calls (bind lib b a).1 (bind-AreRegistered lib b a h)

-- After any registrations and bindings on a new authorizer, refused ones included, every binding is
-- one of a role that is registered.
pub run-AreRegistered :
    (lib : Library) (calls : List Call)
    → AreRegistered (run lib calls new_authorizer).roles (run lib calls new_authorizer).bindings
run-AreRegistered lib calls = run-keeps lib calls new_authorizer tt
