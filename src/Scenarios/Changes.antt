-- ===== src/Scenarios/Changes.antt =====
-- The theorems on approvals, changes, the preflight and network changes, at one change.
use control_center_stable.Prelude.{
  ℕ, ◌≤◌, String, ◌≡◌, refl, some, List, [], ◌∷◌, ok, true, false, ◌⊎◌, ◌↔◌, length,
}
use control_center_stable.Prelude.Map.{lookup, insert, empty}
use control_center_stable.Prelude.Time.{pos}
use control_center_stable.Prelude.Sorting.{listed}
use control_center_stable.Orchestration.Policy.{
  ApprovalRequirement, Approval, Decision, allow, check_approvals, high, validate_decision,
}
use control_center_stable.Orchestration.Policy.Approvals.{
  Distinct, All, GaveOne, check_approvals_sound,
}
use control_center_stable.Orchestration.Config.{Revision}
use control_center_stable.Orchestration.Change.{
  Snapshot, pending_approval, approved, queued, cancelled, new, approve, transition,
}
use control_center_stable.Orchestration.Change.Authorized.{
  IsApproved, Step, approves, moves, run, run-IsApproved, run-final,
}
use control_center_stable.Orchestration.ExecutionGuard.{Input, evaluate, admission_of}
use control_center_stable.Orchestration.ExecutionGuard.Eligible.{
  IsAdmissible, evaluate-IsAdmissible,
}
use control_center_stable.NetworkPolicy.ChangeEvents.{
  snapshot_captured, preflight_passed, ChangeEvent, EventLibrary, temporary_applied, probe_passed,
}
use control_center_stable.NetworkPolicy.ChangeMachine.{
  snapshot_pending, new_change_machine, probe_ids, ChangeMachine, apply_window, committed, apply,
}
use control_center_stable.NetworkPolicy.ChangeMachine.Graph.{Steps, apply-Steps}
use control_center_stable.NetworkPolicy.ChangeMachine.Probes.{committed_passed}
use control_center_stable.NetworkPolicy.ChangeMachine.Window.{run_events, commit_in_window}
use control_center_stable.Prelude.Library.{sort_slice, text_before}
use mathlib.Core.List.{Memᴰ}
use native.Mathlib.Decide.{ℕ_discrete}
use control_center_stable.Prelude.Library.{text_before}
use control_center_stable.NetworkPolicy.ChangePlan.{ConnectivityProbe, control_plane}
use control_center_stable.NetworkPolicy.ChangeMachine.Committed.{committed_reachable}
use control_center_stable.NetworkPolicy.Forwarding.{zone_valid, authorize_forwarding}
use control_center_stable.Scenarios.Plans.{plan, plan_lib, lan}
use control_center_stable.Scenarios.Setup.{lib}

abbrev requirement : ApprovalRequirement
requirement = record {
  minimum = pos 1;
  permission = "approve";
  distinct_actors = true;
  prohibit_requester = true;
}

abbrev approval : Approval
approval = record { actor = "ann"; permissions = "approve" ∷ []; approved_at = 7 }

enough : check_approvals lib "bob" requirement (approval ∷ []) ≡ ok tt
unfolding check_approvals sort_slice text_before
enough = refl

check_approvals_sound_example :
    (actors : List String) × (1 ≤ length actors)
    × Distinct actors
    × All (GaveOne lib "bob" requirement (approval ∷ [])) actors
check_approvals_sound_example =
    check_approvals_sound lib "bob" requirement refl 1 (approval ∷ []) refl enough

abbrev decision : Decision
decision = record {
  effect = allow;
  risk = high;
  reason = "risk threshold policy satisfied";
  requirement = requirement;
  policy_id = "p1";
}

abbrev revision : Revision
revision = record { id = "r1"; sequence = 1; created_at = 4; content = "{}"; digest = "d1" }

abbrev pending : Snapshot
pending = record {
  id = "c1";
  action = "restart";
  requester = "bob";
  revision_id = "r1";
  risk = high;
  state = pending_approval;
  decision = decision;
  approvals = [];
  version = 1;
  updated_at = 5;
}

pending_made : new lib "c1" "restart" "bob" revision decision 5 ≡ ok pending
unfolding new validate_decision
pending_made = refl

abbrev steps : List Step
steps = approves approval 1 8 ∷ moves queued 2 9 ∷ []

steps_queue : (run lib steps pending).state ≡ queued
unfolding run approve transition check_approvals sort_slice text_before
steps_queue = refl

run-IsApproved_example : IsApproved lib (run lib steps pending)
unfolding run approve transition check_approvals sort_slice text_before
run-IsApproved_example =
    run-IsApproved lib "c1" "restart" "bob" revision decision 5 pending steps pending_made refl

abbrev stopped : Snapshot
stopped = record pending { state = cancelled }

run-final_example : run lib steps stopped ≡ stopped
run-final_example = run-final lib steps stopped refl

abbrev input : Input
input = record {
  change = record pending { state = approved; approvals = approval ∷ [] };
  revision = revision;
  current_revision_id = "r1";
  require_maintenance_window = true;
  maintenance_window = some (record { starts_at = 10; ends_at = 3600000000010 });
  now = 20;
}

evaluated : evaluate lib input ≡ ok (admission_of lib input)
unfolding evaluate validate_decision
evaluated = refl

evaluate-IsAdmissible_example :
    (((admission_of lib input).eligible ≡ true) ↔ IsAdmissible lib input)
    × ((admission_of lib input).execution_authorized ≡ false)
    × ((admission_of lib input).change_id ≡ input.change.id)
    × ((admission_of lib input).change_version ≡ input.change.version)
    × ((admission_of lib input).revision_id ≡ revision.id)
    × ((admission_of lib input).revision_digest ≡ revision.digest)
evaluate-IsAdmissible_example = evaluate-IsAdmissible lib input (admission_of lib input) evaluated

abbrev event_lib : EventLibrary
event_lib = record { trim_space = λ s. s; event_digest = λ e. e.id }

-- A network change in its apply window, with one probe.
abbrev machine : ChangeMachine
machine = record {
  plan = plan;
  snapshot = record {
    plan_id = plan.plan_id;
    snapshot_id = "s1";
    state = apply_window;
    version = 3;
    deadline = 120;
    passed_probe_ids = [];
    reason_code = "";
    updated_at = 20;
  };
  passed = [];
  processed_events = empty;
}

abbrev applied : ChangeEvent
applied = record {
  id = "e3";
  kind = temporary_applied;
  snapshot_id = "";
  probe_id = "";
  reason_code = "";
  at = 30;
}

abbrev probed : ChangeEvent
probed = record {
  id = "e4";
  kind = probe_passed;
  snapshot_id = "";
  probe_id = "p1";
  reason_code = "";
  at = 110;
}

apply-Steps_example : Steps machine (apply event_lib applied 3 machine).1
apply-Steps_example = apply-Steps event_lib applied 3 machine

commits :
    (run_events event_lib ((applied, 3) ∷ (probed, 4) ∷ []) machine).snapshot.state ≡ committed
unfolding run_events apply lookup insert listed probe_ids
commits = refl

commit_in_window_example :
    (run_events event_lib ((applied, 3) ∷ (probed, 4) ∷ []) machine).snapshot.updated_at ≤ 120
commit_in_window_example =
    commit_in_window event_lib ((applied, 3) ∷ (probed, 4) ∷ []) machine refl commits

abbrev captured : ChangeEvent
captured = record applied { id = "e1"; kind = snapshot_captured; snapshot_id = "s1"; at = 10 }

abbrev checked : ChangeEvent
checked = record applied { id = "e2"; kind = preflight_passed; at = 20 }

abbrev new_machine : ChangeMachine
new_machine = record machine {
  snapshot = record (machine.snapshot) {
    snapshot_id = "";
    state = snapshot_pending;
    version = 1;
    deadline = 55;
    updated_at = 5;
  };
}

machine_made : new_change_machine plan_lib plan 5 ≡ ok new_machine
unfolding new_change_machine lookup insert text_before listed zone_valid authorize_forwarding
    ℕ_discrete
machine_made = refl

abbrev all_events : List (ChangeEvent × ℕ)
all_events = (captured, 1) ∷ (checked, 2) ∷ (applied, 3) ∷ (probed, 4) ∷ []

all_commit : (run_events event_lib all_events new_machine).snapshot.state ≡ committed
unfolding run_events apply lookup insert listed probe_ids
all_commit = refl

committed_passed_example : listed "p1" (run_events event_lib all_events new_machine).passed ≡ true
committed_passed_example =
    committed_passed event_lib plan_lib plan 5 new_machine all_events "p1" machine_made all_commit
      (unfold listed probe_ids in refl)

committed_reachable_example :
    ((probe : ConnectivityProbe) × Memᴰ probe plan.probes
      × (probe.interface_id ≡ lan.interface_id)
      × (listed probe.id (run_events event_lib all_events new_machine).passed ≡ true))
    × ((probe : ConnectivityProbe) × Memᴰ probe plan.probes
        × (probe.kind ≡ control_plane)
        × ((probe.zone ≡ "MANAGEMENT") ⊎ (probe.zone ≡ "LAN"))
        × (listed probe.id (run_events event_lib all_events new_machine).passed ≡ true))
committed_reachable_example =
    committed_reachable event_lib plan_lib plan 5 new_machine all_events lan machine_made all_commit
      (Memᴰ.head refl) refl
