-- ===== src/NetworkPolicy/ChangeMachine/Committed.antt =====
-- What the commit of a network change is worth, by internal/networkpolicy/change_plan.go and
-- change_machine.go together.
use control_center_stable.Prelude.{
  ℕ, ◌≡◌, ap, List, [], ◌∷◌, true, arith, eq_iff, ok, inl, inr, ◌⊎◌, Result-cases,
}
use mathlib.Core.List.{Memᴰ}
use mathlib.Core.List.Memᴰ
use control_center_stable.Prelude.Time.{Time}
use control_center_stable.Prelude.Sorting.{listed}
use control_center_stable.NetworkPolicy.ChangeEvents.{ChangeEvent, EventLibrary}
use control_center_stable.NetworkPolicy.ChangePlan.{
  ChangePlan, PlanLibrary, ConnectivityProbe, InterfaceIntent, control_plane,
}
use control_center_stable.NetworkPolicy.ChangePlan.Build.{build_change_plan}
use control_center_stable.NetworkPolicy.ChangePlan.Equal.{deep_equal_lem}
use control_center_stable.NetworkPolicy.ChangePlan.Safe.{IsSafe, build_change_plan-IsSafe}
use control_center_stable.NetworkPolicy.ChangeMachine.{
  committed, ChangeMachine, new_change_machine, intact, request_of, probe_ids,
}
use control_center_stable.NetworkPolicy.ChangeMachine.Window.{run_events}
use control_center_stable.NetworkPolicy.ChangeMachine.Probes.{committed_passed}

-- A plan that is what would be built again is safe.
intact-IsSafe : (lib : PlanLibrary) (plan : ChangePlan) → intact lib plan ≡ true → IsSafe plan
unfolding intact
intact-IsSafe lib plan h = elim (Result-cases (build_change_plan lib (request_of plan))) [
  | inr (e, q) ↦ ground arith
  | inl (validated, q) ↦
      rw (← deep_equal_lem validated plan (ground arith))
        (build_change_plan-IsSafe lib (request_of plan) validated q)
]

-- Only a safe plan gets a machine.
new_change_machine-IsSafe :
    (lib : PlanLibrary) (plan : ChangePlan) (now : Time) (m : ChangeMachine)
    → new_change_machine lib plan now ≡ ok m
    → IsSafe plan
unfolding new_change_machine
new_change_machine-IsSafe lib plan now m h = intact-IsSafe lib plan (ground arith)

Mem-probe_ids :
    (probe : ConnectivityProbe) (probes : List ConnectivityProbe)
    → Memᴰ probe probes
    → listed probe.id (probe_ids probes) ≡ true
unfolding probe_ids listed
Mem-probe_ids probe [] m = absurd (Memᴰ.not-nil m)
Mem-probe_ids probe (first ∷ rest) m = elim (Memᴰ.cases_cons m) [
  | inl q ↦ ground (arith, ap (λ p. p.id) q, eq_iff first.id probe.id)
  | inr n ↦ ground (arith, Mem-probe_ids probe rest n)
]

-- A new network change that events commit has passed a probe of each interface that it changed, and
-- a probe of the control plane in the zone MANAGEMENT or LAN.
pub committed_reachable :
    (lib : EventLibrary) (plan_lib : PlanLibrary) (plan : ChangePlan) (now : Time)
    (m : ChangeMachine) (es : List (ChangeEvent × ℕ)) (item : InterfaceIntent)
    → new_change_machine plan_lib plan now ≡ ok m
    → (run_events lib es m).snapshot.state ≡ committed
    → Memᴰ item plan.interfaces
    → item.is_changed ≡ true
    → ((probe : ConnectivityProbe) × Memᴰ probe plan.probes
        × (probe.interface_id ≡ item.interface_id)
        × (listed probe.id (run_events lib es m).passed ≡ true))
      × ((probe : ConnectivityProbe) × Memᴰ probe plan.probes
          × (probe.kind ≡ control_plane)
          × ((probe.zone ≡ "MANAGEMENT") ⊎ (probe.zone ≡ "LAN"))
          × (listed probe.id (run_events lib es m).passed ≡ true))
committed_reachable lib plan_lib plan now m es item made done mem changed =
    let safe = new_change_machine-IsSafe plan_lib plan now m made in
    let passed : (probe : ConnectivityProbe)
        → Memᴰ probe plan.probes
        → listed probe.id (run_events lib es m).passed ≡ true =
      λ probe n.
        committed_passed lib plan_lib plan now m es probe.id made done
          (Mem-probe_ids probe plan.probes n) in
    let (probe, n, same) = safe.probed item mem changed in
    let (path, k, kind, zone) = safe.managed in
    ((probe, n, same, passed probe n), (path, k, kind, zone, passed path k))
