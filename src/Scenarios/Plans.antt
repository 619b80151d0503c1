-- ===== src/Scenarios/Plans.antt =====
-- The theorem on network change plans, at a plan of two interfaces and one probe.
use control_center_stable.Prelude.{◌≡◌, refl, [], ◌∷◌, true, false, ok}
use control_center_stable.Prelude.Map.{lookup, insert}
use control_center_stable.Prelude.Time.{pos}
use control_center_stable.Prelude.Library.{text_before}
use control_center_stable.Prelude.Sorting.{listed}
use control_center_stable.NetworkPolicy.Forwarding.{
  ForwardingIntent, zone_valid, authorize_forwarding,
}
use control_center_stable.NetworkPolicy.ChangePlan.{
  ChangePlan, ChangePlanRequest, ConnectivityProbe, InterfaceIntent, PlanLibrary, control_plane,
}
use control_center_stable.NetworkPolicy.ChangePlan.Build.{build_change_plan, change_steps}
use control_center_stable.NetworkPolicy.ChangePlan.Safe.{IsSafe, build_change_plan-IsSafe}

abbrev pub plan_lib : PlanLibrary
plan_lib = record {
  trim_space = λ s. s;
  to_upper = λ s. s;
  marshal_plan = λ p. p.node_id;
  sha256_hex = λ s. s;
}

abbrev pub lan : InterfaceIntent
lan = record { interface_id = "eth0"; zone = "LAN"; is_changed = true }

abbrev wan : InterfaceIntent
wan = record { interface_id = "eth1"; zone = "WAN"; is_changed = false }

abbrev probe : ConnectivityProbe
probe = record { id = "p1"; kind = control_plane; interface_id = "eth0"; zone = "LAN" }

abbrev outbound : ForwardingIntent
outbound = record {
  source = "LAN";
  destination = "WAN";
  explicitly_enabled = true;
  edge_gateway_assigned = true;
}

abbrev request : ChangePlanRequest
request = record {
  node_id = "n1";
  revision_id = "r1";
  interfaces = wan ∷ lan ∷ [];
  forwarding = outbound ∷ [];
  probes = probe ∷ [];
  timeouts = record {
    snapshot = pos 50;
    preflight = pos 50;
    apply_window = pos 100;
    probe = pos 90;
    rollback = pos 50;
  };
}

-- The interfaces are sorted by ID.
abbrev pub plan : ChangePlan
plan = record {
  schema_version = "network.change.plan/v1";
  plan_id = "sha256:n1";
  node_id = "n1";
  revision_id = "r1";
  interfaces = lan ∷ wan ∷ [];
  forwarding = outbound ∷ [];
  forwarding_default_deny = true;
  probes = probe ∷ [];
  timeouts = request.timeouts;
  steps = change_steps;
}

plan_built : build_change_plan plan_lib request ≡ ok plan
unfolding build_change_plan lookup insert text_before listed zone_valid authorize_forwarding
plan_built = refl

build_change_plan-IsSafe_example : IsSafe plan
build_change_plan-IsSafe_example = build_change_plan-IsSafe plan_lib request plan plan_built
