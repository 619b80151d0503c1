-- ===== src/Nodes/Lifecycle.antt =====
-- internal/nodelifecycle/lifecycle.go: the states of a node, the evidence that a transition needs and
-- the checks of a stored object, of a new one and of a transition.
mod Checked
pub mod History
use control_center_stable.Prelude.{
  ℕ, String, List, [], ◌∷◌, ◌++◌, Option, none, some, Bool, true, false, not, ◌&&◌, ◌||◌, ltb,
  nat_eq, ◌==◌, if◌then◌else◌, Result, ok, err, length,
}
use control_center_stable.Prelude.Fallible.{◌>>=◌, ◌>>◌}
use control_center_stable.Prelude.Time.{Time, is_zero, before, after}
use control_center_stable.Prelude.Library.{codes}
use control_center_stable.Prelude.Sorting.{listed}
use control_center_stable.Nodes.Metadata.{
  TextLibrary, ContractError, invalid_lifecycle, invalid_evidence, invalid_transition,
  ObjectMetadata, ObjectPrecondition, Check, refuse_if, told_as, any_code, validate_metadata,
  validate_against, validate_successor,
}

-- A Go string type: a value that is no constant is `unknown`.
pub data State : Type 0 where
  discovered enrolling ready degraded draining maintenance : State
  updating replacing removing offline recovering retired : State
  unknown : String → State

-- The text of a state, by which states are compared.
abbrev pub state_text : State → String
state_text discovered = "discovered"
state_text enrolling = "enrolling"
state_text ready = "ready"
state_text degraded = "degraded"
state_text draining = "draining"
state_text maintenance = "maintenance"
state_text updating = "updating"
state_text replacing = "replacing"
state_text removing = "removing"
state_text offline = "offline"
state_text recovering = "recovering"
state_text retired = "retired"
state_text (unknown s) = s

-- `State.Valid`
abbrev pub state_valid : State → Bool
state_valid (unknown s) = false
state_valid _ = true

pub data TransitionType : Type 0 where
  desired observation : TransitionType
  other : String → TransitionType

abbrev pub type_valid : TransitionType → Bool
type_valid (other s) = false
type_valid _ = true

abbrev pub is_desired : TransitionType → Bool
is_desired desired = true
is_desired _ = false

-- `request.Type == rule.typeOf`, of valid types
abbrev pub same_type : TransitionType → TransitionType → Bool
same_type desired desired = true
same_type observation observation = true
same_type _ _ = false

-- A Go string type; the constants are these texts.
abbrev pub EvidenceCheck : Type 0
EvidenceCheck = String

abbrev pub known_checks : List EvidenceCheck
known_checks =
    "enrollment-authorized" ∷ "identity-verified" ∷ "readiness-passed"
    ∷ "maintenance-preflight-passed" ∷ "scheduling-disabled" ∷ "scheduling-enabled"
    ∷ "drain-complete" ∷ "no-active-jobs" ∷ "no-active-placements" ∷ "stateful-workloads-safe"
    ∷ "operation-approved" ∷ "operation-cancelled" ∷ "rollback-verified" ∷ "update-verified"
    ∷ "replacement-node-ready" ∷ "state-synchronized" ∷ "switchover-verified"
    ∷ "replacement-health-verified" ∷ "removal-approved" ∷ "removal-verified" ∷ "recovery-started"
    ∷ "recovery-verified" ∷ "retirement-approved" ∷ "no-managed-state" ∷ []

pub record NodeLifecycle : Type 0 where
  pub metadata : ObjectMetadata
  pub state : State
  pub state_changed_at : Time
  pub reason : String

pub record TransitionRequest : Type 0 where
  pub target : State
  pub kind : TransitionType
  pub reason : String
  pub precondition : ObjectPrecondition
  -- The passed checks of the evidence.
  pub evidence : List EvidenceCheck

pub record TransitionRule : Type 0 where
  pub type_of : TransitionType
  pub required_checks : List EvidenceCheck

abbrev pub drain_checks : List EvidenceCheck
drain_checks =
    "maintenance-preflight-passed" ∷ "scheduling-disabled" ∷ "drain-complete" ∷ "no-active-jobs"
    ∷ "no-active-placements" ∷ "stateful-workloads-safe" ∷ []

abbrev observed : List EvidenceCheck → Option TransitionRule
observed checks = some (record { type_of = observation; required_checks = checks })

abbrev wanted : List EvidenceCheck → Option TransitionRule
wanted checks = some (record { type_of = desired; required_checks = checks })

-- `transitionRuleFor`, with the table `transitionRules`
unfoldable pub transition_rule_for : State → State → Option TransitionRule
transition_rule_for discovered enrolling = wanted ("enrollment-authorized" ∷ [])
transition_rule_for discovered retired = wanted ("retirement-approved" ∷ "no-managed-state" ∷ [])
transition_rule_for enrolling ready = observed ("identity-verified" ∷ "readiness-passed" ∷ [])
transition_rule_for enrolling degraded = observed []
transition_rule_for enrolling offline = observed []
transition_rule_for enrolling retired = wanted ("retirement-approved" ∷ "no-managed-state" ∷ [])
transition_rule_for ready degraded = observed []
transition_rule_for ready draining =
    wanted ("maintenance-preflight-passed" ∷ "scheduling-disabled" ∷ [])
transition_rule_for ready offline = observed []
transition_rule_for degraded ready = observed ("readiness-passed" ∷ [])
transition_rule_for degraded draining =
    wanted ("maintenance-preflight-passed" ∷ "scheduling-disabled" ∷ [])
transition_rule_for degraded offline = observed []
transition_rule_for degraded recovering = observed ("recovery-started" ∷ [])
transition_rule_for draining maintenance = observed drain_checks
transition_rule_for draining ready =
    wanted ("operation-cancelled" ∷ "scheduling-enabled" ∷ "readiness-passed" ∷ [])
transition_rule_for draining degraded = observed []
transition_rule_for draining offline = observed []
transition_rule_for maintenance ready = wanted ("scheduling-enabled" ∷ "readiness-passed" ∷ [])
transition_rule_for maintenance updating =
    wanted ("operation-approved" ∷ "maintenance-preflight-passed" ∷ [])
transition_rule_for maintenance replacing =
    wanted ("operation-approved" ∷ "replacement-node-ready" ∷ "state-synchronized" ∷ [])
transition_rule_for maintenance removing =
    wanted ("operation-approved" ∷ "removal-approved" ∷ drain_checks)
transition_rule_for maintenance degraded = observed []
transition_rule_for maintenance offline = observed []
transition_rule_for updating ready =
    observed ("update-verified" ∷ "scheduling-enabled" ∷ "readiness-passed" ∷ [])
transition_rule_for updating maintenance = observed ("update-verified" ∷ [])
transition_rule_for updating degraded = observed []
transition_rule_for updating offline = observed []
transition_rule_for replacing retired = observed (
    "replacement-node-ready" ∷ "state-synchronized" ∷ "switchover-verified"
    ∷ "replacement-health-verified" ∷ [])
transition_rule_for replacing maintenance =
    wanted ("operation-cancelled" ∷ "rollback-verified" ∷ [])
transition_rule_for replacing degraded = observed []
transition_rule_for replacing offline = observed []
transition_rule_for removing retired = observed ("removal-verified" ∷ "retirement-approved" ∷ [])
transition_rule_for removing maintenance = wanted ("operation-cancelled" ∷ "rollback-verified" ∷ [])
transition_rule_for removing degraded = observed []
transition_rule_for removing offline = observed []
transition_rule_for offline recovering = observed ("identity-verified" ∷ "recovery-started" ∷ [])
transition_rule_for offline retired =
    wanted ("retirement-approved" ∷ "no-managed-state" ∷ "stateful-workloads-safe" ∷ [])
transition_rule_for recovering ready = observed ("recovery-verified" ∷ "readiness-passed" ∷ [])
transition_rule_for recovering degraded = observed []
transition_rule_for recovering offline = observed []
transition_rule_for recovering draining =
    wanted ("maintenance-preflight-passed" ∷ "scheduling-disabled" ∷ [])
transition_rule_for _ _ = none

-- The two loops of `TransitionEvidence.validate`
unfoldable pub collect_checks : List EvidenceCheck → List EvidenceCheck → Check
unfolding listed
collect_checks [] passed = ok tt
collect_checks (check ∷ rest) passed =
    let others = collect_checks rest (check ∷ passed) in
    if not (listed check known_checks)
    then err (invalid_evidence "unsupported check")
    else if listed check passed
    then err (invalid_evidence "duplicate check")
    else others

unfoldable pub all_passed : List EvidenceCheck → List EvidenceCheck → Bool
unfolding listed
all_passed [] passed = true
all_passed (check ∷ rest) passed = listed check passed && all_passed rest passed

-- `TransitionEvidence.validate`
unfoldable pub validate_evidence : List EvidenceCheck → List EvidenceCheck → Check
unfolding collect_checks all_passed
validate_evidence evidence required = do
  collect_checks evidence []
  refuse_if (not (all_passed required evidence)) (invalid_evidence "required check did not pass")

abbrev pub reason_required : State → Bool
reason_required degraded = true
reason_required offline = true
reason_required recovering = true
reason_required retired = true
reason_required _ = false

module _ (lib : TextLibrary) where
  -- `validateReason`; a text is valid UTF-8
  unfoldable pub validate_reason : State → String → Check
  unfolding any_code
  validate_reason state reason = do
    refuse_if (not (lib.trim_space reason == reason))
        (invalid_lifecycle "reason must not have surrounding whitespace")
    refuse_if (ltb 512 (length (codes reason))) (invalid_lifecycle "reason exceeds 512 characters")
    refuse_if (any_code lib.is_control (codes reason))
        (invalid_lifecycle "reason contains control characters")
    refuse_if (reason_required state && reason == "") (invalid_lifecycle "state requires a reason")
    refuse_if (not (reason_required state) && not (reason == ""))
        (invalid_lifecycle "state must clear the incident reason")

  -- `Validate`
  unfoldable pub validate : NodeLifecycle → Check
  unfolding validate_metadata validate_reason
  validate n = do
    told_as (invalid_lifecycle "metadata") (validate_metadata lib n.metadata)
    refuse_if (not (state_valid n.state)) (invalid_lifecycle "unsupported state")
    refuse_if (is_zero n.state_changed_at) (invalid_lifecycle "state_changed_at is required")
    refuse_if (before n.state_changed_at n.metadata.created_at)
        (invalid_lifecycle "state_changed_at precedes created_at")
    refuse_if (after n.state_changed_at n.metadata.updated_at)
        (invalid_lifecycle "state_changed_at follows updated_at")
    validate_reason n.state n.reason

  -- `ValidateInitial`
  unfoldable pub validate_initial : NodeLifecycle → Check
  unfolding validate
  validate_initial n = do
    validate n
    refuse_if (not (state_text n.state == "discovered"))
        (invalid_lifecycle "initial state must be discovered")
    refuse_if (not (nat_eq n.metadata.generation 1))
        (invalid_lifecycle "initial generation must be 1")
    refuse_if
        (not (nat_eq n.metadata.created_at n.metadata.updated_at)
          || not (nat_eq n.state_changed_at n.metadata.created_at))
        (invalid_lifecycle "initial timestamps must be equal")

  -- What a rule asks of a transition.
  unfoldable pub validate_rule :
      NodeLifecycle → NodeLifecycle → TransitionRequest → TransitionRule → Check
  unfolding validate_evidence validate_successor
  validate_rule current next request rule = do
    refuse_if (not (same_type request.kind rule.type_of)) (invalid_transition "transition type")
    refuse_if
        (not (current.metadata.scope_id == next.metadata.scope_id)
          || not (current.metadata.owner_scope == next.metadata.owner_scope))
        (invalid_transition "lifecycle transition cannot change scope ownership")
    refuse_if (not (nat_eq next.state_changed_at next.metadata.updated_at))
        (invalid_transition "successor state_changed_at must equal updated_at")
    refuse_if (not (after next.state_changed_at current.state_changed_at))
        (invalid_transition "successor state_changed_at must advance")
    validate_evidence request.evidence rule.required_checks
    validate_successor lib current.metadata next.metadata (is_desired request.kind)

  -- `ValidateTransition`
  unfoldable pub validate_transition : NodeLifecycle → NodeLifecycle → TransitionRequest → Check
  unfolding validate validate_against transition_rule_for validate_rule
  validate_transition current next request = do
    validate current
    validate next
    refuse_if (not (state_valid request.target)) (invalid_transition "unsupported target state")
    refuse_if (not (type_valid request.kind)) (invalid_transition "unsupported transition type")
    refuse_if (not (state_text request.target == state_text next.state))
        (invalid_transition "request target differs from next state")
    refuse_if (not (request.reason == next.reason))
        (invalid_transition "request reason differs from the stored successor")
    validate_against lib request.precondition current.metadata
    elim (transition_rule_for current.state next.state) [
      | none ↦ err (invalid_transition "node lifecycle")
      | some rule ↦ validate_rule current next request rule
    ]
