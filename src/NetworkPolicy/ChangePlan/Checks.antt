-- ===== src/NetworkPolicy/ChangePlan/Checks.antt =====
-- What the checks of internal/networkpolicy/change_plan.go say of the lists that pass them.
use control_center_stable.Prelude.{
  String, true, ◌&&◌, ◌||◌, List, [], ◌∷◌, ok, ◌≡◌, ◌≢◌, refl, inl, inr, ◌⊎◌, Bool-cases,
  Option-cases, Result-cases, eq_iff, arith, some, length, ◌≤◌, ◌==◌,
}
use mathlib.Core.List.{Memᴰ}
use mathlib.Core.List.Memᴰ
use control_center_stable.Prelude.Map.{Map, lookup, empty}
use control_center_stable.Prelude.Library.{sort_slice}
use control_center_stable.Prelude.Sorting.{listed}
use control_center_stable.NetworkPolicy.Forwarding.{ForwardingIntent}
use control_center_stable.NetworkPolicy.ChangePlan.{
  ProbeKind, InterfaceIntent, ConnectivityProbe, PlanLibrary, is_control_plane, control_plane,
}
use control_center_stable.NetworkPolicy.ChangePlan.Builder.{
  interfaces_loop, forwarding_loop, probes_loop, zones_of, bound_to, canonical_interfaces,
  canonical_forwarding, canonical_probes, validate_probe_coverage, covered, management_path,
  all_covered, changed_count, interface_earlier, intent_earlier, probe_earlier,
}

pub some_changed :
    (items : List InterfaceIntent)
    → changed_count items ≢ 0
    → (item : InterfaceIntent) × Memᴰ item items × (item.is_changed ≡ true)
unfolding changed_count
some_changed [] h = absurd (h refl)
some_changed (item ∷ rest) h = elim (Bool-cases item.is_changed) [
  | inl q ↦ (item, Memᴰ.head refl, q)
  | inr q ↦ let (found, m, c) = some_changed rest (λ z. h (rw q z)) in (found, Memᴰ.tail m, c)
]

pub covered-Mem :
    (id : String) (probes : List ConnectivityProbe)
    → listed id (covered probes) ≡ true
    → (probe : ConnectivityProbe) × Memᴰ probe probes × (probe.interface_id ≡ id)
unfolding covered listed
covered-Mem id [] h = ground arith
covered-Mem id (probe ∷ rest) h = elim (Bool-cases (probe.interface_id == id)) [
  | inl q ↦ (probe, Memᴰ.head refl, (eq_iff probe.interface_id id).0 q)
  | inr q ↦ let (found, m, c) = covered-Mem id rest (rw q at h) in (found, Memᴰ.tail m, c)
]

pub all_covered-Mem :
    (ids : List String) (items : List InterfaceIntent) (item : InterfaceIntent)
    → all_covered ids items ≡ true
    → Memᴰ item items
    → item.is_changed ≡ true
    → listed item.interface_id ids ≡ true
unfolding all_covered
all_covered-Mem ids [] item h m c = absurd (Memᴰ.not-nil m)
all_covered-Mem ids (first ∷ rest) item h m c = elim (Memᴰ.cases_cons m) [
  | inl q ↦ rw q (ground (arith, rw q at c))
  | inr n ↦ all_covered-Mem ids rest item (ground arith) n c
]

pub management_path-Mem :
    (probes : List ConnectivityProbe)
    → management_path probes ≡ true
    → (probe : ConnectivityProbe) × Memᴰ probe probes
      × (is_control_plane probe.kind ≡ true)
      × ((probe.zone ≡ "MANAGEMENT") ⊎ (probe.zone ≡ "LAN"))
unfolding management_path
management_path-Mem [] h = ground arith
management_path-Mem (probe ∷ rest) h =
    elim (Bool-cases
      (is_control_plane probe.kind && (probe.zone == "MANAGEMENT" || probe.zone == "LAN"))) [
        | inl q ↦ (
          probe,
          Memᴰ.head refl,
          ground arith,
          elim (Bool-cases (probe.zone == "MANAGEMENT")) [
            | inl z ↦ inl ((eq_iff probe.zone "MANAGEMENT").0 z)
            | inr z ↦ inr ((eq_iff probe.zone "LAN").0 (ground arith))
          ],
        )
        | inr q ↦
            let (found, m, c, z) = management_path-Mem rest (rw q at h) in
            (found, Memᴰ.tail m, c, z)
      ]

pub control_plane_only : (k : ProbeKind) → is_control_plane k ≡ true → k ≡ control_plane
control_plane_only k h = ground arith

pub bound_to-some :
    (z id : String) (m : Map InterfaceIntent)
    → bound_to z (lookup id m) ≡ true
    → (item : InterfaceIntent) × (lookup id m ≡ some item) × (item.zone ≡ z)
bound_to-some z id m h = elim (Option-cases (lookup id m)) [
  | inl q ↦ ground arith
  | inr (item, q) ↦ (item, q, (eq_iff item.zone z).0 (rw q at h))
]

module _ (lib : PlanLibrary) where
  pub canonical_interfaces_ok :
      (input items : List InterfaceIntent) (by_id : Map InterfaceIntent)
      → canonical_interfaces lib input ≡ ok (items, by_id)
      → (loose : List InterfaceIntent) × (length input ≤ 64)
        × (interfaces_loop lib input empty ≡ ok (loose, by_id))
        × (changed_count loose ≢ 0)
        × (items ≡ sort_slice interface_earlier loose)
  unfolding canonical_interfaces
  canonical_interfaces_ok input items by_id h =
      elim (Result-cases (interfaces_loop lib input empty)) [
        | inr (e, q) ↦ ground arith
        | inl ((loose, m), q) ↦ (loose, ground arith, ground arith, λ z. ground arith, ground arith)
      ]

  pub canonical_forwarding_ok :
      (input result : List ForwardingIntent) (by_id : Map InterfaceIntent)
      → canonical_forwarding lib input by_id ≡ ok result
      → (loose : List ForwardingIntent) × (length input ≤ 128)
        × (forwarding_loop lib (zones_of by_id) input [] ≡ ok loose)
        × (result ≡ sort_slice intent_earlier loose)
  unfolding canonical_forwarding
  canonical_forwarding_ok input result by_id h =
      elim (Result-cases (forwarding_loop lib (zones_of by_id) input [])) [
        | inr (e, q) ↦ ground arith
        | inl (loose, q) ↦ (loose, ground arith, q, ground arith)
      ]

  pub canonical_probes_ok :
      (input result : List ConnectivityProbe) (by_id : Map InterfaceIntent)
      → canonical_probes lib input by_id ≡ ok result
      → (loose : List ConnectivityProbe) × (length input ≤ 128)
        × (probes_loop lib by_id input [] ≡ ok loose)
        × (result ≡ sort_slice probe_earlier loose)
  unfolding canonical_probes
  canonical_probes_ok input result by_id h = elim (Result-cases (probes_loop lib by_id input [])) [
    | inr (e, q) ↦ ground arith
    | inl (loose, q) ↦ (loose, ground arith, q, ground arith)
  ]

  pub coverage_ok :
      (items : List InterfaceIntent) (probes : List ConnectivityProbe)
      → validate_probe_coverage items probes ≡ ok tt
      → (all_covered (covered probes) items ≡ true) × (management_path probes ≡ true)
  unfolding validate_probe_coverage
  coverage_ok items probes h = (ground arith, ground arith)
