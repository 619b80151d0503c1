-- ===== src/Scenarios/Access.antt =====
-- The theorem on access decisions, at one operator of one site.
use control_center_stable.Prelude.{◌≡◌, refl, none, List, [], ◌∷◌, true, ◌&&◌, ok}
use control_center_stable.Prelude.Map.{lookup}
use control_center_stable.Prelude.Library.{text_before, sort_slice}
use control_center_stable.Prelude.Sorting.{listed}
use control_center_stable.Identity.Rbac.{
  new_authorizer, Scope, EffectiveGrant, Authorizer, answerable, is_allowed, effective_grants,
}
use control_center_stable.Identity.Rbac.Grants.{any, covers, is_allowed-any}
use control_center_stable.Identity.Rbac.Registered.{
  AreRegistered, registers, binds, run, run-AreRegistered,
}
use control_center_stable.Scenarios.Setup.{lib}

abbrev site : Scope
site = record { kind = "site"; id = "s1" }

abbrev authorizer : Authorizer
authorizer = record {
  roles = ("operator", "jobs.read" ∷ "jobs.cancel" ∷ []) ∷ [];
  bindings = record { subject_id = "ann"; role_name = "operator"; scope = site } ∷ [];
}

abbrev grants : List EffectiveGrant
grants =
    record { role_name = "operator"; scope = site; permissions = "jobs.cancel" ∷ "jobs.read" ∷ [] }
    ∷ []

granted : effective_grants lib none "ann" authorizer ≡ ok grants
unfolding effective_grants lookup sort_slice text_before
granted = refl

is_allowed-any_example :
    is_allowed lib "ann" "jobs.cancel" site authorizer
    ≡ (answerable lib "ann" "jobs.cancel" site && any (covers "jobs.cancel" site) grants)
is_allowed-any_example = is_allowed-any lib authorizer "ann" "jobs.cancel" site grants granted

site_allowed : is_allowed lib "ann" "jobs.cancel" site authorizer ≡ true
unfolding is_allowed lookup listed
site_allowed = refl

run-AreRegistered_example :
    let a =
      run lib
        (registers (record { name = "operator"; permissions = "jobs.read" ∷ [] })
          ∷ binds (record { subject_id = "ann"; role_name = "operator"; scope = site })
          ∷ [])
        new_authorizer in
    AreRegistered a.roles a.bindings
run-AreRegistered_example = run-AreRegistered lib (
    registers (record { name = "operator"; permissions = "jobs.read" ∷ [] })
    ∷ binds (record { subject_id = "ann"; role_name = "operator"; scope = site })
    ∷ [])
