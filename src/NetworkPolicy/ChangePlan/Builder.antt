-- ===== src/NetworkPolicy/ChangePlan/Builder.antt =====
-- `BuildChangePlan` of internal/networkpolicy/change_plan.go. A map that serves only to find what was
-- seen before is a list; an empty list stands for a nil slice too.
use control_center_stable.Prelude.{
  ℕ, suc, String, List, [], ◌∷◌, Bool, true, false, not, ◌&&◌, ◌||◌, ◌==◌, if◌then◌else◌, Result,
  ok, err, nat_eq, ltb, length, Option, none, some,
}
use control_center_stable.Prelude.Map.{Map, empty, lookup, insert}
use control_center_stable.Prelude.Library.{concat, nul, text_before, sort_slice}
use control_center_stable.Prelude.Sorting.{listed}
use control_center_stable.NetworkPolicy.Forwarding.{
  Zone, zone_valid, ForwardingIntent, authorize_forwarding,
}
use control_center_stable.NetworkPolicy.ChangePlan.{
  InterfaceIntent, ConnectivityProbe, PlanLibrary, PlanError, invalid_plan, kind_valid,
  is_control_plane, normalize_identifier,
}

-- The elements of the slice and the map by ID that a loop makes.
abbrev pub Interfaces : Type 0
Interfaces = List InterfaceIntent × Map InterfaceIntent

abbrev pub interface_earlier : InterfaceIntent → InterfaceIntent → Bool
interface_earlier a b = text_before a.interface_id b.interface_id

abbrev pub probe_earlier : ConnectivityProbe → ConnectivityProbe → Bool
probe_earlier a b = text_before a.id b.id

abbrev pub intent_earlier : ForwardingIntent → ForwardingIntent → Bool
intent_earlier a b =
    if a.source == b.source
    then text_before a.destination b.destination
    else text_before a.source b.source

abbrev pub intent_key : ForwardingIntent → String
intent_key intent = concat (intent.source ∷ nul ∷ intent.destination ∷ [])

unfoldable pub changed_count : List InterfaceIntent → ℕ
changed_count [] = 0
changed_count (item ∷ rest) = let n = changed_count rest in if item.is_changed then suc n else n

-- `exists && bound.Zone == zone`
abbrev pub bound_to : Zone → Option InterfaceIntent → Bool
bound_to zone none = false
bound_to zone (some bound) = bound.zone == zone

module _ {A : Type 0} where
  abbrev pub prepend : A → Result PlanError (List A) → Result PlanError (List A)
  prepend a (ok rest) = ok (a ∷ rest)
  prepend a (err e) = err e

abbrev pub prepend_interface :
    InterfaceIntent → Result PlanError Interfaces → Result PlanError Interfaces
prepend_interface a (ok (rest, by_id)) = ok (a ∷ rest, by_id)
prepend_interface a (err e) = err e

-- The zones of the interfaces by ID.
unfoldable pub zones_of : Map InterfaceIntent → List Zone
zones_of [] = []
zones_of ((id, item) ∷ rest) = item.zone ∷ zones_of rest

module _ (lib : PlanLibrary) where
  -- `Zone(strings.ToUpper(strings.TrimSpace(string(zone))))`
  abbrev pub canonical_zone : Zone → Zone
  canonical_zone zone = lib.to_upper (lib.trim_space zone)

  -- The loop of `canonicalInterfaces`
  unfoldable pub interfaces_loop :
      List InterfaceIntent → Map InterfaceIntent → Result PlanError Interfaces
  interfaces_loop [] by_id = ok ([], by_id)
  interfaces_loop (item ∷ rest) by_id =
      elim (normalize_identifier lib "interface_id" item.interface_id) [
        | err e ↦ err e
        | ok id ↦
            let item' = record item { interface_id = id; zone = canonical_zone item.zone } in
            let others = interfaces_loop rest (insert id item' by_id) in
            if not (zone_valid item'.zone)
            then err (invalid_plan "interface has invalid zone")
            else elim (lookup id by_id) [
              | some other ↦ err (invalid_plan "duplicate interface")
              | none ↦ prepend_interface item' others
            ]
      ]

  unfoldable pub canonical_interfaces : List InterfaceIntent → Result PlanError Interfaces
  unfolding interfaces_loop changed_count sort_slice
  canonical_interfaces input =
      if nat_eq (length input) 0 || ltb 64 (length input)
      then err (invalid_plan "interfaces must contain 1..64 entries")
      else elim (interfaces_loop input empty) [
        | err e ↦ err e
        | ok (items, by_id) ↦
            if nat_eq (changed_count items) 0
            then err (invalid_plan "at least one interface must be marked changed")
            else ok (sort_slice interface_earlier items, by_id)
      ]

  -- The loop of `canonicalForwarding`
  unfoldable pub forwarding_loop :
      List Zone → List ForwardingIntent → List String → Result PlanError (List ForwardingIntent)
  forwarding_loop zones [] seen = ok []
  forwarding_loop zones (intent ∷ rest) seen =
      let intent' = record intent {
        source = canonical_zone intent.source;
        destination = canonical_zone intent.destination;
      } in
      let others = forwarding_loop zones rest (intent_key intent' ∷ seen) in
      elim (authorize_forwarding intent') [
        | err e ↦ err (invalid_plan "forwarding")
        | ok done ↦
            if not (listed intent'.source zones)
            then err (invalid_plan "forwarding source zone is not declared by an interface")
            else if not (listed intent'.destination zones)
            then err (invalid_plan "forwarding destination zone is not declared by an interface")
            else if listed (intent_key intent') seen
            then err (invalid_plan "duplicate forwarding intent")
            else prepend intent' others
      ]

  unfoldable pub canonical_forwarding :
      List ForwardingIntent → Map InterfaceIntent → Result PlanError (List ForwardingIntent)
  unfolding forwarding_loop zones_of sort_slice
  canonical_forwarding input interfaces =
      if ltb 128 (length input)
      then err (invalid_plan "forwarding exceeds 128 entries")
      else elim (forwarding_loop (zones_of interfaces) input []) [
        | err e ↦ err e
        | ok result ↦ ok (sort_slice intent_earlier result)
      ]

  -- The loop of `canonicalProbes`
  unfoldable pub probes_loop :
      Map InterfaceIntent
      → List ConnectivityProbe
      → List String
      → Result PlanError (List ConnectivityProbe)
  probes_loop interfaces [] seen = ok []
  probes_loop interfaces (probe ∷ rest) seen = elim (normalize_identifier lib "probe.id" probe.id) [
    | err e ↦ err e
    | ok id ↦
        let others = probes_loop interfaces rest (id ∷ seen) in
        elim (normalize_identifier lib "probe.interface_id" probe.interface_id) [
          | err e ↦ err e
          | ok interface_id ↦
              let probe' = record probe {
                id = id;
                interface_id = interface_id;
                zone = canonical_zone probe.zone;
              } in
              if not (kind_valid probe.kind)
              then err (invalid_plan "probe has invalid kind")
              else if not (bound_to probe'.zone (lookup interface_id interfaces))
              then err (invalid_plan "probe interface/zone binding is not declared")
              else if listed id seen
              then err (invalid_plan "duplicate probe")
              else prepend probe' others
        ]
  ]

  unfoldable pub canonical_probes :
      List ConnectivityProbe → Map InterfaceIntent → Result PlanError (List ConnectivityProbe)
  unfolding probes_loop sort_slice
  canonical_probes input interfaces =
      if nat_eq (length input) 0 || ltb 128 (length input)
      then err (invalid_plan "probes must contain 1..128 entries")
      else elim (probes_loop interfaces input []) [
        | err e ↦ err e
        | ok result ↦ ok (sort_slice probe_earlier result)
      ]

-- The interfaces that the probes cover.
unfoldable pub covered : List ConnectivityProbe → List String
covered [] = []
covered (probe ∷ rest) = probe.interface_id ∷ covered rest

unfoldable pub management_path : List ConnectivityProbe → Bool
management_path [] = false
management_path (probe ∷ rest) =
    is_control_plane probe.kind && (probe.zone == "MANAGEMENT" || probe.zone == "LAN")
    || management_path rest

unfoldable pub all_covered : List String → List InterfaceIntent → Bool
unfolding listed
all_covered ids [] = true
all_covered ids (item ∷ rest) =
    (not item.is_changed || listed item.interface_id ids) && all_covered ids rest

-- `validateProbeCoverage`
unfoldable pub validate_probe_coverage :
    List InterfaceIntent → List ConnectivityProbe → Result PlanError (Unit {0})
unfolding covered management_path all_covered
validate_probe_coverage interfaces probes =
    if not (all_covered (covered probes) interfaces)
    then err (invalid_plan "changed interface has no connectivity probe")
    else if not (management_path probes)
    then err (invalid_plan "a control_plane probe bound to MANAGEMENT or LAN is required")
    else ok tt
