-- ===== src/NetworkPolicy/ChangePlan/Build.antt =====
-- `BuildChangePlan` of internal/networkpolicy/change_plan.go.
use control_center_stable.Prelude.{List, [], ◌∷◌, true, Result, ok}
use control_center_stable.Prelude.Fallible.{◌>>=◌, ◌>>◌}
use control_center_stable.NetworkPolicy.ChangePlan.{
  commit_or_rollback, decision, run_connectivity_probes, probes, open_temporary_window,
  apply_window, authorize_forwarding, validate_management_path, validate_network_contract,
  preflight, capture_recovery_snapshot, snapshot, ChangePlan, ChangePlanRequest, ChangeStep,
  PlanLibrary, PlanError, validate_timeouts, normalize_identifier, change_plan_id,
}
use control_center_stable.NetworkPolicy.ChangePlan.Builder.{
  canonical_interfaces, canonical_forwarding, canonical_probes, validate_probe_coverage,
}

-- The steps of every plan.
abbrev pub change_steps : List ChangeStep
change_steps =
    record { order = 1; stage = snapshot; action = capture_recovery_snapshot }
    ∷ record { order = 2; stage = preflight; action = validate_network_contract }
    ∷ record { order = 3; stage = preflight; action = validate_management_path }
    ∷ record { order = 4; stage = preflight; action = authorize_forwarding }
    ∷ record { order = 5; stage = apply_window; action = open_temporary_window }
    ∷ record { order = 6; stage = probes; action = run_connectivity_probes }
    ∷ record { order = 7; stage = decision; action = commit_or_rollback }
    ∷ []

unfoldable pub build_change_plan : PlanLibrary → ChangePlanRequest → Result PlanError ChangePlan
unfolding normalize_identifier validate_timeouts canonical_interfaces canonical_forwarding
    canonical_probes validate_probe_coverage change_plan_id
build_change_plan lib request = do
  node_id ← normalize_identifier lib "node_id" request.node_id
  revision_id ← normalize_identifier lib "revision_id" request.revision_id
  validate_timeouts request.timeouts
  interfaces ← canonical_interfaces lib request.interfaces
  forwarding ← canonical_forwarding lib request.forwarding interfaces.1
  checks ← canonical_probes lib request.probes interfaces.1
  validate_probe_coverage interfaces.0 checks
  let plan : ChangePlan = record {
    schema_version = "network.change.plan/v1";
    plan_id = "";
    node_id = node_id;
    revision_id = revision_id;
    interfaces = interfaces.0;
    forwarding = forwarding;
    forwarding_default_deny = true;
    probes = checks;
    timeouts = request.timeouts;
    steps = change_steps;
  } in
      ok (record plan { plan_id = change_plan_id lib plan })
