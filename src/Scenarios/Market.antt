-- ===== src/Scenarios/Market.antt =====
-- The theorems on install orders, at three modules and at two that need each other.
use control_center_stable.Prelude.{◌≡◌, refl, String, List, [], ◌∷◌, true, ok, err, ◌≢◌}
use mathlib.Core.List.Memᴰ
use control_center_stable.Prelude.Map.{lookup, insert, size}
use control_center_stable.Prelude.Library.{text_before}
use control_center_stable.Prelude.Sorting.{listed}
use control_center_stable.Market.Dependencies.{
  ModuleDependency, resolve_install_order, dependency_cycle, out_of_fuel,
}
use control_center_stable.Market.Dependencies.Install.{
  Needs, direct, indirect, module_names, resolve_install_order-holds, resolve_install_order-earlier,
}
use control_center_stable.Market.Dependencies.Order.{distinct, earlier}
use control_center_stable.Market.Dependencies.Cycles.{resolve_install_order-cycle}
use control_center_stable.Market.Dependencies.Termination.{resolve_install_order_ends}

abbrev plain : String → String
plain s = s

abbrev needing : String → List String → ModuleDependency
needing name others = record { name = name; depends_on = others }

abbrev suite : List ModuleDependency
suite = needing "web" ("db" ∷ "log" ∷ []) ∷ needing "db" ("log" ∷ []) ∷ needing "log" [] ∷ []

suite_order : resolve_install_order plain suite ≡ ok ("log" ∷ "db" ∷ "web" ∷ [])
unfolding resolve_install_order lookup insert text_before size
suite_order = refl

resolve_install_order_ends_example : resolve_install_order plain suite ≢ err out_of_fuel
resolve_install_order_ends_example = resolve_install_order_ends plain suite

resolve_install_order-holds_example :
    (distinct ("log" ∷ "db" ∷ "web" ∷ []) ≡ true)
    × (listed "db" ("log" ∷ "db" ∷ "web" ∷ []) ≡ listed "db" (module_names plain suite))
resolve_install_order-holds_example =
    resolve_install_order-holds plain suite ("log" ∷ "db" ∷ "web" ∷ []) "db" suite_order

web_over_db : Needs plain suite "web" "log"
unfolding listed
web_over_db =
    indirect "web" "db" "log"
      (direct (needing "web" ("db" ∷ "log" ∷ [])) "db" (Memᴰ.head refl) refl)
      (direct (needing "db" ("log" ∷ [])) "log" (Memᴰ.tail (Memᴰ.head refl)) refl)

resolve_install_order-earlier_example : earlier "log" "web" ("log" ∷ "db" ∷ "web" ∷ []) ≡ true
resolve_install_order-earlier_example =
    resolve_install_order-earlier plain suite ("log" ∷ "db" ∷ "web" ∷ []) "web" "log" suite_order
      web_over_db

abbrev circle : List ModuleDependency
circle = needing "egg" ("hen" ∷ []) ∷ needing "hen" ("egg" ∷ []) ∷ []

circle_refused : resolve_install_order plain circle ≡ err (dependency_cycle "egg")
unfolding resolve_install_order lookup insert text_before size
circle_refused = refl

resolve_install_order-cycle_example : Needs plain circle "egg" "egg"
resolve_install_order-cycle_example = resolve_install_order-cycle plain circle "egg" circle_refused
