-- ===== src/NetworkPolicy/ChangePlan/Safe.antt =====
-- What `BuildChangePlan` of internal/networkpolicy/change_plan.go lets pass is safe to try: the node
-- stays reachable over a probed path and nothing is forwarded without authorization.
use control_center_stable.Prelude.{
  true, List, [], ok, ◌≡◌, inl, inr, ◌⊎◌, Result-cases, arith, some, length, ◌≤◌,
}
use mathlib.Core.List.{Memᴰ}
use control_center_stable.Prelude.Map.{lookup, empty}
use control_center_stable.Prelude.Sorting.{
  listed, sort_slice-Mem, Mem-sort_slice, length-sort_slice,
}
use control_center_stable.NetworkPolicy.Forwarding.{
  Zone, zone_valid, ForwardingIntent, authorize_forwarding,
}
use control_center_stable.NetworkPolicy.ChangePlan.{
  InterfaceIntent, ConnectivityProbe, PlanLibrary, ChangePlan, ChangePlanRequest, control_plane,
  validate_timeouts, normalize_identifier,
}
use control_center_stable.NetworkPolicy.ChangePlan.Builder.{
  Interfaces, zones_of, canonical_interfaces, canonical_forwarding, canonical_probes,
  validate_probe_coverage, covered, interface_earlier, intent_earlier, probe_earlier,
}
use control_center_stable.NetworkPolicy.ChangePlan.Build.{build_change_plan}
use control_center_stable.NetworkPolicy.ChangePlan.Checks.{
  canonical_interfaces_ok, canonical_forwarding_ok, canonical_probes_ok, coverage_ok, some_changed,
  covered-Mem, all_covered-Mem, management_path-Mem, control_plane_only, bound_to-some,
}
use control_center_stable.NetworkPolicy.ChangePlan.Loops.{
  interfaces_loop-lookup, interfaces_loop-zones, interfaces_loop-Mem, length-interfaces_loop,
  forwarding_loop-Mem, length-forwarding_loop, probes_loop-Mem, length-probes_loop,
}

-- Some interface of the plan is in the zone.
abbrev pub HasZone : List InterfaceIntent → Zone → Type 0
HasZone interfaces z = (item : InterfaceIntent) × Memᴰ item interfaces × (item.zone ≡ z)

pub record IsSafe (plan : ChangePlan) : Type 0 where
  pub few_interfaces : length plan.interfaces ≤ 64
  pub few_intents : length plan.forwarding ≤ 128
  pub few_probes : length plan.probes ≤ 128
  pub timed : validate_timeouts plan.timeouts ≡ ok tt
  -- The interfaces are in valid zones, and no two of them have one ID.
  pub zoned : (item : InterfaceIntent) → Memᴰ item plan.interfaces → zone_valid item.zone ≡ true
  pub unique :
      (a b : InterfaceIntent)
      → Memᴰ a plan.interfaces
      → Memᴰ b plan.interfaces
      → a.interface_id ≡ b.interface_id
      → a ≡ b
  pub changed : (item : InterfaceIntent) × Memᴰ item plan.interfaces × (item.is_changed ≡ true)
  -- Forwarding is authorized, between zones of the plan.
  pub authorized :
      (intent : ForwardingIntent)
      → Memᴰ intent plan.forwarding
      → (authorize_forwarding intent ≡ ok tt)
        × HasZone plan.interfaces intent.source
        × HasZone plan.interfaces intent.destination
  -- Each probe is bound to an interface of the plan, in its zone.
  pub bound :
      (probe : ConnectivityProbe)
      → Memᴰ probe plan.probes
      → (item : InterfaceIntent) × Memᴰ item plan.interfaces
        × (item.interface_id ≡ probe.interface_id)
        × (item.zone ≡ probe.zone)
  -- Each changed interface has a probe, ...
  pub probed :
      (item : InterfaceIntent)
      → Memᴰ item plan.interfaces
      → item.is_changed ≡ true
      → (probe : ConnectivityProbe) × Memᴰ probe plan.probes
        × (probe.interface_id ≡ item.interface_id)
  -- ... and the management path has one.
  pub managed :
      (probe : ConnectivityProbe) × Memᴰ probe plan.probes
      × (probe.kind ≡ control_plane)
      × ((probe.zone ≡ "MANAGEMENT") ⊎ (probe.zone ≡ "LAN"))

module _ (lib : PlanLibrary) where
  -- What stands behind a plan.
  built :
      (request : ChangePlanRequest) (plan : ChangePlan)
      → build_change_plan lib request ≡ ok plan
      → (items : Interfaces) × (validate_timeouts request.timeouts ≡ ok tt)
        × (canonical_interfaces lib request.interfaces ≡ ok items)
        × (canonical_forwarding lib request.forwarding items.1 ≡ ok plan.forwarding)
        × (canonical_probes lib request.probes items.1 ≡ ok plan.probes)
        × (validate_probe_coverage items.0 plan.probes ≡ ok tt)
        × (plan.interfaces ≡ items.0)
        × (plan.timeouts ≡ request.timeouts)
  unfolding build_change_plan
  built request plan h = elim (Result-cases (normalize_identifier lib "node_id" request.node_id)) [
    | inr (e, a) ↦ ground arith
    | inl (node, a) ↦
        elim (Result-cases (normalize_identifier lib "revision_id" request.revision_id)) [
          | inr (e, b) ↦ ground arith
          | inl (revision, b) ↦ elim (Result-cases (validate_timeouts request.timeouts)) [
            | inr (e, c) ↦ ground arith
            | inl (done, c) ↦ elim (Result-cases (canonical_interfaces lib request.interfaces)) [
              | inr (e, d) ↦ ground arith
              | inl (items, d) ↦
                  elim (Result-cases (canonical_forwarding lib request.forwarding items.1)) [
                    | inr (e, f) ↦ ground arith
                    | inl (forwarding, f) ↦
                        elim (Result-cases (canonical_probes lib request.probes items.1)) [
                          | inr (e, g) ↦ ground arith
                          | inl (probes, g) ↦
                              elim (Result-cases (validate_probe_coverage items.0 probes)) [
                                | inr (e, k) ↦ ground arith
                                | inl (done, k) ↦ (
                                  items,
                                  c,
                                  d,
                                  ground arith,
                                  ground arith,
                                  ground arith,
                                  ground arith,
                                  ground arith,
                                )
                              ]
                        ]
                  ]
            ]
          ]
        ]
  ]

  -- Whatever the request, a plan that is built is safe: at most 64 interfaces in valid zones with
  -- different IDs, one of them changed, at most 128 intents of forwarding, each authorized and between
  -- zones of the plan, at most 128 probes, each bound to an interface in its zone, a probe for each
  -- changed interface and one of the control plane in the zone MANAGEMENT or LAN, and valid timeouts.
  pub build_change_plan-IsSafe :
      (request : ChangePlanRequest) (plan : ChangePlan)
      → build_change_plan lib request ≡ ok plan
      → IsSafe plan
  unfolding zones_of listed lookup
  build_change_plan-IsSafe request plan h =
      let (items, timed, d, f, g, k, ei, et) = built request plan h in
      let (loose, li, qi, ci, si) =
        canonical_interfaces_ok lib request.interfaces items.0 items.1 d in
      let (intents, lf, qf, sf) =
        canonical_forwarding_ok lib request.forwarding plan.forwarding items.1 f in
      let (probes, lp, qp, sp) = canonical_probes_ok lib request.probes plan.probes items.1 g in
      let (cov, man) = coverage_ok lib items.0 plan.probes k in
      let into : (item : InterfaceIntent) → Memᴰ item loose → Memᴰ item plan.interfaces =
        λ item m. rw (ei, si) (Mem-sort_slice interface_earlier item loose m) in
      let from : (item : InterfaceIntent) → Memᴰ item plan.interfaces → Memᴰ item loose =
        λ item m. sort_slice-Mem interface_earlier item loose (rw (ei, si) at m) in
      let has_zone : (z : Zone) → listed z (zones_of items.1) ≡ true → HasZone plan.interfaces z =
        λ z l. elim (interfaces_loop-zones lib request.interfaces loose empty items.1 z qi l) [
          | inl none_there ↦ ground arith
          | inr (item, m, q) ↦ (item, into item m, q)
        ] in
      let by_id : (item : InterfaceIntent)
          → Memᴰ item plan.interfaces
          → (zone_valid item.zone ≡ true) × (lookup item.interface_id items.1 ≡ some item) =
        λ item m.
          interfaces_loop-Mem lib request.interfaces loose empty items.1 item qi (from item m) in
      record {
        few_interfaces =
            rw
              (
                ei,
                si,
                length-sort_slice interface_earlier loose,
                length-interfaces_loop lib request.interfaces loose empty items.1 qi,
              )
              li;
        few_intents =
            rw
              (
                sf,
                length-sort_slice intent_earlier intents,
                length-forwarding_loop lib (zones_of items.1) request.forwarding intents [] qf,
              )
              lf;
        few_probes =
            rw
              (
                sp,
                length-sort_slice probe_earlier probes,
                length-probes_loop lib items.1 request.probes probes [] qp,
              )
              lp;
        timed = rw et timed;
        zoned = λ item m. (by_id item m).0;
        unique = λ a b m n e. ground (arith, (by_id a m).1, (by_id b n).1, e);
        changed = let (item, m, c) = some_changed loose ci in (item, into item m, c);
        authorized = λ intent m.
            let (a, s, t) =
              forwarding_loop-Mem lib (zones_of items.1) request.forwarding intents [] intent qf
                (sort_slice-Mem intent_earlier intent intents (rw sf at m)) in
            (a, has_zone intent.source s, has_zone intent.destination t);
        bound = λ probe m.
            let b =
              probes_loop-Mem lib items.1 request.probes probes [] probe qp
                (sort_slice-Mem probe_earlier probe probes (rw sp at m)) in
            let (item, l, z) = bound_to-some probe.zone probe.interface_id items.1 b in
            elim (interfaces_loop-lookup lib request.interfaces loose empty items.1
              probe.interface_id item qi l) [
                | inl none_there ↦ ground arith
                | inr (m, same) ↦ (item, into item m, same, z)
              ];
        probed = λ item m c.
            covered-Mem item.interface_id plan.probes
              (all_covered-Mem (covered plan.probes) items.0 item cov (rw ei at m) c);
        managed =
            let (probe, m, c, z) = management_path-Mem plan.probes man in
            (probe, m, control_plane_only probe.kind c, z);
      }
