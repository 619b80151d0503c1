-- ===== src/NetworkPolicy/ChangePlan/Loops.antt =====
-- What the loops of internal/networkpolicy/change_plan.go have checked of the elements that they return.
use control_center_stable.Prelude.{
  length, String, true, List, [], ◌∷◌, ok, ◌≡◌, refl, inl, inr, ◌⊎◌, Bool-cases, Result-cases,
  eq_iff, arith, ◌==◌, some, none,
}
use mathlib.Core.List.{Memᴰ}
use mathlib.Core.List.Memᴰ
use control_center_stable.Prelude.Map.{Map, lookup, insert, lookup-insert}
use control_center_stable.Prelude.Sorting.{listed}
use control_center_stable.NetworkPolicy.Forwarding.{
  Zone, zone_valid, ForwardingIntent, authorize_forwarding,
}
use control_center_stable.NetworkPolicy.ChangePlan.{
  false, InterfaceIntent, ConnectivityProbe, PlanLibrary, normalize_identifier,
}
use control_center_stable.NetworkPolicy.ChangePlan.Builder.{
  interfaces_loop, forwarding_loop, probes_loop, zones_of, bound_to, canonical_zone, intent_key,
}

zones_of-insert :
    (z id : String) (item : InterfaceIntent) (m : Map InterfaceIntent)
    → listed z (zones_of (insert id item m)) ≡ true
    → (item.zone ≡ z) ⊎ (listed z (zones_of m) ≡ true)
unfolding zones_of insert listed
zones_of-insert z id item [] h = inl (ground (arith, eq_iff item.zone z))
zones_of-insert z id item ((key, old) ∷ rest) h =
    ground (arith, zones_of-insert z id item rest, eq_iff item.zone z)

module _ (lib : PlanLibrary) where
  -- One round of the loop over the interfaces.
  interfaces_loop_ok :
      (item : InterfaceIntent) (rest items : List InterfaceIntent) (old by_id : Map InterfaceIntent)
      → interfaces_loop lib (item ∷ rest) old ≡ ok (items, by_id)
      → (made : InterfaceIntent) × (others : List InterfaceIntent) × (zone_valid made.zone ≡ true)
        × (lookup made.interface_id old ≡ none)
        × (interfaces_loop lib rest (insert made.interface_id made old) ≡ ok (others, by_id))
        × (items ≡ made ∷ others)
  unfolding interfaces_loop
  interfaces_loop_ok item rest items old by_id h =
      elim (Result-cases (normalize_identifier lib "interface_id" item.interface_id)) [
        | inr (e, q) ↦ ground arith
        | inl (id, q) ↦
            let made : InterfaceIntent = record item {
              interface_id = id;
              zone = canonical_zone lib item.zone;
            } in
            elim (Result-cases (interfaces_loop lib rest (insert id made old))) [
              | inr (e, r) ↦ ground arith
              | inl (others, r) ↦
                  (made, others.0, ground arith, ground arith, ground arith, ground arith)
            ]
      ]

  -- What the map by ID holds stays, ...
  interfaces_loop_stays :
      (input items : List InterfaceIntent) (old by_id : Map InterfaceIntent) (id : String)
      (found : InterfaceIntent)
      → interfaces_loop lib input old ≡ ok (items, by_id)
      → lookup id old ≡ some found
      → lookup id by_id ≡ some found
  unfolding interfaces_loop
  interfaces_loop_stays [] items old by_id id found h l = ground arith
  interfaces_loop_stays (item ∷ rest) items old by_id id found h l =
      let (made, others, valid, fresh, r, e) = interfaces_loop_ok item rest items old by_id h in
      interfaces_loop_stays rest others (insert made.interface_id made old) by_id id found r
        (ground (arith, lookup-insert made.interface_id id made old, eq_iff made.interface_id id))

  -- ... what it holds in the end comes from the interfaces, ...
  pub interfaces_loop-lookup :
      (input items : List InterfaceIntent) (old by_id : Map InterfaceIntent) (id : String)
      (found : InterfaceIntent)
      → interfaces_loop lib input old ≡ ok (items, by_id)
      → lookup id by_id ≡ some found
      → (lookup id old ≡ some found) ⊎ (Memᴰ found items × (found.interface_id ≡ id))
  unfolding interfaces_loop
  interfaces_loop-lookup [] items old by_id id found h l = inl (ground arith)
  interfaces_loop-lookup (item ∷ rest) items old by_id id found h l =
      let (made, others, valid, fresh, r, e) = interfaces_loop_ok item rest items old by_id h in
      elim (interfaces_loop-lookup rest others (insert made.interface_id made old) by_id id found r
        l) [
          | inr (m, same) ↦ inr (rw e (Memᴰ.tail m), same)
          | inl here ↦ elim (Bool-cases (made.interface_id == id)) [
            | inl same ↦
                let q : found ≡ made =
                  ground (arith, lookup-insert made.interface_id id made old) in
                inr (rw e (Memᴰ.head q), ground (arith, eq_iff made.interface_id id))
            | inr differs ↦ inl (ground (arith, lookup-insert made.interface_id id made old))
          ]
        ]

  -- ... and so do the zones.
  pub interfaces_loop-zones :
      (input items : List InterfaceIntent) (old by_id : Map InterfaceIntent) (z : Zone)
      → interfaces_loop lib input old ≡ ok (items, by_id)
      → listed z (zones_of by_id) ≡ true
      → (listed z (zones_of old) ≡ true)
        ⊎ ((item : InterfaceIntent) × Memᴰ item items × (item.zone ≡ z))
  unfolding interfaces_loop
  interfaces_loop-zones [] items old by_id z h l = inl (ground arith)
  interfaces_loop-zones (item ∷ rest) items old by_id z h l =
      let (made, others, valid, fresh, r, e) = interfaces_loop_ok item rest items old by_id h in
      elim (interfaces_loop-zones rest others (insert made.interface_id made old) by_id z r l) [
        | inr (found, m, same) ↦ inr (found, rw e (Memᴰ.tail m), same)
        | inl here ↦ elim (zones_of-insert z made.interface_id made old here) [
          | inl same ↦ inr (made, rw e (Memᴰ.head refl), same)
          | inr before ↦ inl before
        ]
      ]

  -- The interfaces have valid zones and are found by their IDs.
  pub interfaces_loop-Mem :
      (input items : List InterfaceIntent) (old by_id : Map InterfaceIntent)
      (item : InterfaceIntent)
      → interfaces_loop lib input old ≡ ok (items, by_id)
      → Memᴰ item items
      → (zone_valid item.zone ≡ true) × (lookup item.interface_id by_id ≡ some item)
  unfolding interfaces_loop
  interfaces_loop-Mem [] items old by_id item h m =
      let q : [] ≡ items = ground arith in absurd (Memᴰ.not-nil (rw (← q) at m))
  interfaces_loop-Mem (first ∷ rest) items old by_id item h m =
      let (made, others, valid, fresh, r, e) = interfaces_loop_ok first rest items old by_id h in
      elim (Memᴰ.cases_cons (rw e at m)) [
        | inl q ↦ rw q (
          valid,
          interfaces_loop_stays rest others (insert made.interface_id made old) by_id
              made.interface_id made r
              (ground (
                arith,
                lookup-insert made.interface_id made.interface_id made old,
                eq_iff made.interface_id made.interface_id,
              )),
        )
        | inr n ↦ interfaces_loop-Mem rest others (insert made.interface_id made old) by_id item r n
      ]

  pub length-interfaces_loop :
      (input items : List InterfaceIntent) (old by_id : Map InterfaceIntent)
      → interfaces_loop lib input old ≡ ok (items, by_id)
      → length items ≡ length input
  unfolding interfaces_loop
  length-interfaces_loop [] items old by_id h = ground arith
  length-interfaces_loop (first ∷ rest) items old by_id h =
      let (made, others, valid, fresh, r, e) = interfaces_loop_ok first rest items old by_id h in
      rw e (
        ground
          (arith, length-interfaces_loop rest others (insert made.interface_id made old) by_id r))

  forwarding_loop_ok :
      (zones : List Zone) (intent : ForwardingIntent) (rest result : List ForwardingIntent)
      (seen : List String)
      → forwarding_loop lib zones (intent ∷ rest) seen ≡ ok result
      → (made : ForwardingIntent) × (others : List ForwardingIntent) × (authorize_forwarding made
          ≡ ok tt)
        × (listed made.source zones ≡ true)
        × (listed made.destination zones ≡ true)
        × (forwarding_loop lib zones rest (intent_key made ∷ seen) ≡ ok others)
        × (result ≡ made ∷ others)
  unfolding forwarding_loop
  forwarding_loop_ok zones intent rest result seen h =
      let made : ForwardingIntent = record intent {
        source = canonical_zone lib intent.source;
        destination = canonical_zone lib intent.destination;
      } in
      elim (Result-cases (authorize_forwarding made)) [
        | inr (e, q) ↦ ground arith
        | inl (done, q) ↦
            elim (Result-cases (forwarding_loop lib zones rest (intent_key made ∷ seen))) [
              | inr (e, r) ↦ ground arith
              | inl (others, r) ↦ (made, others, q, ground arith, ground arith, r, ground arith)
            ]
      ]

  -- The intents are authorized, between declared zones.
  pub forwarding_loop-Mem :
      (zones : List Zone) (input result : List ForwardingIntent) (seen : List String)
      (intent : ForwardingIntent)
      → forwarding_loop lib zones input seen ≡ ok result
      → Memᴰ intent result
      → (authorize_forwarding intent ≡ ok tt)
        × (listed intent.source zones ≡ true)
        × (listed intent.destination zones ≡ true)
  unfolding forwarding_loop
  forwarding_loop-Mem zones [] result seen intent h m =
      let q : [] ≡ result = ground arith in absurd (Memᴰ.not-nil (rw (← q) at m))
  forwarding_loop-Mem zones (first ∷ rest) result seen intent h m =
      let (made, others, authorized, from, to, r, e) =
        forwarding_loop_ok zones first rest result seen h in
      elim (Memᴰ.cases_cons (rw e at m)) [
        | inl q ↦ rw q (authorized, from, to)
        | inr n ↦ forwarding_loop-Mem zones rest others (intent_key made ∷ seen) intent r n
      ]

  probes_loop_ok :
      (interfaces : Map InterfaceIntent) (probe : ConnectivityProbe)
      (rest result : List ConnectivityProbe) (seen : List String)
      → probes_loop lib interfaces (probe ∷ rest) seen ≡ ok result
      → (made : ConnectivityProbe) × (others : List ConnectivityProbe) × (bound_to made.zone
            (lookup made.interface_id interfaces)
          ≡ true)
        × (listed made.id seen ≡ false)
        × (probes_loop lib interfaces rest (made.id ∷ seen) ≡ ok others)
        × (result ≡ made ∷ others)
  unfolding probes_loop
  probes_loop_ok interfaces probe rest result seen h =
      elim (Result-cases (normalize_identifier lib "probe.id" probe.id)) [
        | inr (e, q) ↦ ground arith
        | inl (id, q) ↦
            elim (Result-cases (normalize_identifier lib "probe.interface_id" probe.interface_id)) [
              | inr (e, p) ↦ ground arith
              | inl (interface_id, p) ↦
                  elim (Result-cases (probes_loop lib interfaces rest (id ∷ seen))) [
                    | inr (e, r) ↦ ground arith
                    | inl (others, r) ↦ (
                      record probe {
                        id = id;
                        interface_id = interface_id;
                        zone = canonical_zone lib probe.zone;
                      },
                      others,
                      ground arith,
                      ground arith,
                      r,
                      ground arith,
                    )
                  ]
            ]
      ]

  -- The probes are bound to interfaces in their zones.
  pub probes_loop-Mem :
      (interfaces : Map InterfaceIntent) (input result : List ConnectivityProbe)
      (seen : List String) (probe : ConnectivityProbe)
      → probes_loop lib interfaces input seen ≡ ok result
      → Memᴰ probe result
      → bound_to probe.zone (lookup probe.interface_id interfaces) ≡ true
  unfolding probes_loop
  probes_loop-Mem interfaces [] result seen probe h m =
      let q : [] ≡ result = ground arith in absurd (Memᴰ.not-nil (rw (← q) at m))
  probes_loop-Mem interfaces (first ∷ rest) result seen probe h m =
      let (made, others, bound, fresh, r, e) = probes_loop_ok interfaces first rest result seen h in
      elim (Memᴰ.cases_cons (rw e at m)) [
        | inl q ↦ rw q bound
        | inr n ↦ probes_loop-Mem interfaces rest others (made.id ∷ seen) probe r n
      ]

  pub length-forwarding_loop :
      (zones : List Zone) (input result : List ForwardingIntent) (seen : List String)
      → forwarding_loop lib zones input seen ≡ ok result
      → length result ≡ length input
  unfolding forwarding_loop
  length-forwarding_loop zones [] result seen h = ground arith
  length-forwarding_loop zones (first ∷ rest) result seen h =
      let (made, others, authorized, from, to, r, e) =
        forwarding_loop_ok zones first rest result seen h in
      rw e (ground (arith, length-forwarding_loop zones rest others (intent_key made ∷ seen) r))

  pub length-probes_loop :
      (interfaces : Map InterfaceIntent) (input result : List ConnectivityProbe)
      (seen : List String)
      → probes_loop lib interfaces input seen ≡ ok result
      → length result ≡ length input
  unfolding probes_loop
  length-probes_loop interfaces [] result seen h = ground arith
  length-probes_loop interfaces (first ∷ rest) result seen h =
      let (made, others, bound, fresh, r, e) = probes_loop_ok interfaces first rest result seen h in
      rw e (ground (arith, length-probes_loop interfaces rest others (made.id ∷ seen) r))
