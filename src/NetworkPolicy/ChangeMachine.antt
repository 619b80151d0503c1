-- ===== src/NetworkPolicy/ChangeMachine.antt =====
-- internal/networkpolicy/change_machine.go: the safety state machine of a network change. A method takes the machine and returns its error beside the machine
-- that it leaves; the mutex makes it one step. The set `passed` is a list without repetition.
pub mod Graph
pub mod Window
pub mod Probes
pub mod Committed
use control_center_stable.Prelude.{
  ℕ, suc, ◌+◌, String, Option, none, some, List, [], ◌∷◌, Bool, true, false, not, ◌&&◌, ◌||◌, ltb,
  leb, nat_eq, ◌==◌, if◌then◌else◌, length, Result, ok, err,
}
use control_center_stable.Prelude.Map.{Map, empty, lookup, insert}
use control_center_stable.Prelude.Time.{
  Time, Duration, is_zero, before, after, is_positive, add, pos, next_u64,
}
use control_center_stable.Prelude.Library.{codes}
use control_center_stable.Prelude.Sorting.{listed}
use control_center_stable.NetworkPolicy.ChangeEvents.{
  ChangeError, ChangeEvent, ChangeEventType, EventLibrary, bool_eq, change_version_conflict,
  event_detail, event_idempotency_conflict, identifier_tail, invalid_change_plan,
  invalid_change_transition, is_alphanumeric, is_capture, is_failure, is_inner, is_probe_event,
  is_timeout, is_unknown, matches_identifier, message, not_identifier, phase_timed_out,
  preflight_failed, preflight_passed, probe_failed, probe_passed, rollback_failed,
  rollback_succeeded, snapshot_captured, snapshot_failed, temporary_applied, unknown,
  validate_and_digest_event,
}
use control_center_stable.NetworkPolicy.ChangePlan.{
  ChangePlan, ChangePlanRequest, ConnectivityProbe, PlanLibrary,
}
use control_center_stable.NetworkPolicy.ChangePlan.Build.{build_change_plan}
use control_center_stable.NetworkPolicy.ChangePlan.Equal.{deep_equal}

pub data ChangeState : Type 0 where
  snapshot_pending preflight apply_window probing rollback_pending : ChangeState
  committed rolled_back failed_closed : ChangeState

-- `ChangeState.Terminal`
abbrev pub is_terminal : ChangeState → Bool
is_terminal committed = true
is_terminal rolled_back = true
is_terminal failed_closed = true
is_terminal _ = false

pub record ChangeSnapshot : Type 0 where
  pub plan_id : String
  pub snapshot_id : String
  pub state : ChangeState
  pub version : ℕ
  pub deadline : Time
  pub passed_probe_ids : List String
  pub reason_code : String
  pub updated_at : Time

pub record ChangeMachine : Type 0 where
  pub plan : ChangePlan
  pub snapshot : ChangeSnapshot
  pub passed : List String
  pub processed_events : Map String

-- `enter`
abbrev pub enter : ChangeState → Time → Duration → String → ChangeMachine → ChangeMachine
enter state at timeout reason m = record m {
  snapshot = record (m.snapshot) {
    state = state;
    reason_code = reason;
    deadline = if is_positive timeout then add at timeout else 0;
  };
}

-- `hasProbe` and `Snapshot` read the IDs of the plan's probes.
unfoldable pub probe_ids : List ConnectivityProbe → List String
probe_ids [] = []
probe_ids (probe ∷ rest) = probe.id ∷ probe_ids rest

abbrev pub request_of : ChangePlan → ChangePlanRequest
request_of plan = record {
  node_id = plan.node_id;
  revision_id = plan.revision_id;
  interfaces = plan.interfaces;
  forwarding = plan.forwarding;
  probes = plan.probes;
  timeouts = plan.timeouts;
}

-- A plan is intact if it is what would be built again from its parts.
unfoldable pub intact : PlanLibrary → ChangePlan → Bool
unfolding build_change_plan deep_equal
intact lib plan = elim (build_change_plan lib (request_of plan)) [
  | err e ↦ false
  | ok validated ↦ deep_equal validated plan
]

-- `NewChangeMachine`
unfoldable pub new_change_machine :
    PlanLibrary → ChangePlan → Time → Result ChangeError ChangeMachine
unfolding intact
new_change_machine lib plan now =
    if is_zero now
    then err (message "network change start time is required")
    else if not (intact lib plan)
    then err invalid_change_plan
    else ok (record {
      plan = plan;
      snapshot = record {
        plan_id = plan.plan_id;
        snapshot_id = "";
        state = snapshot_pending;
        version = 1;
        deadline = add now plan.timeouts.snapshot;
        passed_probe_ids = [];
        reason_code = "";
        updated_at = now;
      };
      passed = [];
      processed_events = empty;
    })

abbrev pub Moved : Type 0
Moved = Result ChangeError (Unit {0}) × ChangeMachine

-- `EventTemporaryApplied`: the probes get their own timeout, within the apply window.
abbrev pub start_probing : ChangeEvent → ChangeMachine → ChangeMachine
start_probing e m =
    let own = add e.at m.plan.timeouts.probe in
    record m {
      snapshot = record (m.snapshot) {
        state = probing;
        deadline = if after own m.snapshot.deadline then m.snapshot.deadline else own;
        reason_code = "";
      };
    }

abbrev pub commit_if_complete : ChangeEvent → ChangeMachine → ChangeMachine
commit_if_complete e m =
    if nat_eq (length m.passed) (length m.plan.probes) then enter committed e.at (pos 0) "" m else m

-- `EventProbePassed`
unfoldable pub pass_probe : ChangeEvent → ChangeMachine → Moved
pass_probe e m =
    if not (listed e.probe_id (probe_ids m.plan.probes))
    then (err invalid_change_transition, m)
    else if listed e.probe_id m.passed
    then (err invalid_change_transition, m)
    else (ok tt, commit_if_complete e (record m { passed = e.probe_id ∷ m.passed }))

abbrev pub start_rollback : ChangeEvent → String → ChangeMachine → ChangeMachine
start_rollback e fallback m =
    enter rollback_pending e.at m.plan.timeouts.rollback (event_detail e fallback) m

-- `transition`, by the state and the type of the event
unfoldable pub dispatch : ChangeState → ChangeEventType → ChangeEvent → ChangeMachine → Moved
unfolding pass_probe
dispatch snapshot_pending snapshot_captured e m = (
  ok tt,
  enter preflight e.at m.plan.timeouts.preflight ""
      (record m { snapshot = record (m.snapshot) { snapshot_id = e.snapshot_id } }),
)
dispatch snapshot_pending snapshot_failed e m =
    (ok tt, enter failed_closed e.at (pos 0) (event_detail e "snapshot_not_available") m)
dispatch snapshot_pending phase_timed_out e m =
    (ok tt, enter failed_closed e.at (pos 0) (event_detail e "snapshot_not_available") m)
dispatch preflight preflight_passed e m =
    (ok tt, enter apply_window e.at m.plan.timeouts.apply_window "" m)
dispatch preflight preflight_failed e m =
    (ok tt, enter failed_closed e.at (pos 0) (event_detail e "preflight_not_safe") m)
dispatch preflight phase_timed_out e m =
    (ok tt, enter failed_closed e.at (pos 0) (event_detail e "preflight_not_safe") m)
dispatch apply_window temporary_applied e m = (ok tt, start_probing e m)
dispatch apply_window phase_timed_out e m = (ok tt, start_rollback e "apply_window_timeout" m)
dispatch probing probe_passed e m = pass_probe e m
dispatch probing probe_failed e m =
    if not (listed e.probe_id (probe_ids m.plan.probes))
    then (err invalid_change_transition, m)
    else (ok tt, start_rollback e "connectivity_validation_failed" m)
dispatch probing phase_timed_out e m = (ok tt, start_rollback e "connectivity_validation_failed" m)
dispatch rollback_pending rollback_succeeded e m =
    (ok tt, enter rolled_back e.at (pos 0) m.snapshot.reason_code m)
dispatch rollback_pending rollback_failed e m =
    (ok tt, enter failed_closed e.at (pos 0) (event_detail e "rollback_not_confirmed") m)
dispatch rollback_pending phase_timed_out e m =
    (ok tt, enter failed_closed e.at (pos 0) (event_detail e "rollback_not_confirmed") m)
dispatch _ _ e m = (err invalid_change_transition, m)

-- The end of `Apply`, when the transition was made.
abbrev pub record_event : ChangeEvent → String → Moved → Moved
record_event e digest (err x, m) = (err x, m)
record_event e digest (ok u, m) = (
  ok tt,
  record m {
    processed_events = insert e.id digest m.processed_events;
    snapshot = record (m.snapshot) { version = next_u64 m.snapshot.version; updated_at = e.at };
  },
)

-- `Apply` on an event that was not processed, at the version that the caller expects.
unfoldable pub apply_new : ChangeEvent → String → ℕ → ChangeMachine → Moved
unfolding dispatch
apply_new e digest expected_version m =
    if not (nat_eq m.snapshot.version expected_version)
    then (err change_version_conflict, m)
    else if is_terminal m.snapshot.state
    then (err invalid_change_transition, m)
    else if before e.at m.snapshot.updated_at
    then (err invalid_change_transition, m)
    else if is_timeout e.kind && before e.at m.snapshot.deadline
    then (err invalid_change_transition, m)
    else if not (is_timeout e.kind) && after e.at m.snapshot.deadline
    then (err invalid_change_transition, m)
    else record_event e digest (dispatch m.snapshot.state e.kind e m)

unfoldable pub apply_digested : ChangeEvent → String → ℕ → ChangeMachine → Moved
unfolding apply_new
apply_digested e digest expected_version m = elim (lookup e.id m.processed_events) [
  | some previous ↦
      if not (previous == digest) then (err event_idempotency_conflict, m) else (ok tt, m)
  | none ↦ apply_new e digest expected_version m
]

-- `Apply`; the snapshot that it returns is `copy_snapshot` of the machine that it leaves.
unfoldable pub apply : EventLibrary → ChangeEvent → ℕ → ChangeMachine → Moved
unfolding validate_and_digest_event apply_digested
apply lib e expected_version m = elim (validate_and_digest_event lib e) [
  | err x ↦ (err x, m)
  | ok digest ↦ apply_digested e digest expected_version m
]

unfoldable pub passed_of : List String → List String → List String
passed_of passed [] = []
passed_of passed (p ∷ probes) =
    let rest = passed_of passed probes in if listed p passed then p ∷ rest else rest

-- `copySnapshot`
unfoldable pub copy_snapshot : ChangeMachine → ChangeSnapshot
unfolding passed_of
copy_snapshot m = record (m.snapshot) {
  passed_probe_ids = passed_of m.passed (probe_ids m.plan.probes);
}
