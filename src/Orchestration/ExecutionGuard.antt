-- ===== src/Orchestration/ExecutionGuard.antt =====
-- internal/orchestration/executionguard/preflight.go: the last check of a change before a job is
-- admitted. Every error is `ErrInvalidInput` with a text.
pub mod Eligible
use control_center_stable.Prelude.{
  ℕ, ◌-◌, ◌*◌, String, Option, none, some, List, [], ◌∷◌, ◌++◌, Bool, true, false, not, ◌&&◌, ◌||◌,
  ltb, nat_eq, ◌==◌, if◌then◌else◌, Result, ok, err,
}
use control_center_stable.Prelude.Time.{Time, is_zero, before, after, minute, hour}
use control_center_stable.Prelude.Library.{Library}
use control_center_stable.Orchestration.Policy.{
  Risk, risk_valid, is_allow, validate_decision, check_approvals,
}
use control_center_stable.Orchestration.Config.{Revision}
use control_center_stable.Orchestration.Change.{Snapshot, State, approved, is_ok}

pub record MaintenanceWindow : Type 0 where
  pub starts_at : Time
  pub ends_at : Time

pub record Input : Type 0 where
  pub change : Snapshot
  pub revision : Revision
  pub current_revision_id : String
  pub require_maintenance_window : Bool
  pub maintenance_window : Option MaintenanceWindow
  pub now : Time

pub data Blocker : Type 0 where
  change_not_approved policy_denied revision_binding_mismatch : Blocker
  revision_is_no_longer_current approval_requirement_not_satisfied : Blocker
  maintenance_window_not_started maintenance_window_closed maintenance_window_required : Blocker

pub record Admission : Type 0 where
  pub contract_version : String
  pub eligible : Bool
  pub execution_authorized : Bool
  pub change_id : String
  pub change_version : ℕ
  pub revision_id : String
  pub revision_digest : String
  pub evaluated_at : Time
  pub maintenance_window : Option MaintenanceWindow
  pub blockers : List Blocker

abbrev pub is_approved : State → Bool
is_approved approved = true
is_approved _ = false

abbrev pub is_blank : Library → String → Bool
is_blank lib s = lib.trim_space s == ""

abbrev pub not_trimmed : Library → String → Bool
not_trimmed lib s = not (s == lib.trim_space s)

-- `validateChange`
unfoldable pub validate_change : Library → Snapshot → Result String (Unit {0})
validate_change lib s =
    if is_blank lib s.id
      || is_blank lib s.action
      || is_blank lib s.requester
      || is_blank lib s.revision_id
    then err "change identity, action, requester and revision are required"
    else if not_trimmed lib s.id
        || not_trimmed lib s.action
        || not_trimmed lib s.requester
        || not_trimmed lib s.revision_id
    then err "change identifiers must be canonical"
    else if nat_eq s.version 0 || is_zero s.updated_at
    then err "change version and timestamp are required"
    else if not (risk_valid s.risk)
    then err "change risk is invalid"
    else ok tt

-- `normalizeWindow`
unfoldable pub normalize_window : MaintenanceWindow → Result String MaintenanceWindow
normalize_window w =
    if is_zero w.starts_at || is_zero w.ends_at || not (after w.ends_at w.starts_at)
    then err "maintenance window is invalid"
    else if ltb (w.ends_at - w.starts_at) minute || ltb (7 * (24 * hour)) (w.ends_at - w.starts_at)
    then err "maintenance window must be between one minute and seven days"
    else ok w

-- The test of a blocker, and the blockers that are found next.
abbrev pub block : Bool → Blocker → List Blocker → List Blocker
block true b rest = b ∷ rest
block false b rest = rest

abbrev pub risk_eq : Risk → Risk → Bool
risk_eq Risk.low Risk.low = true
risk_eq Risk.medium Risk.medium = true
risk_eq Risk.high Risk.high = true
risk_eq Risk.critical Risk.critical = true
risk_eq (Risk.other s) (Risk.other t) = s == t
risk_eq _ _ = false

-- The blockers of the maintenance window.
abbrev pub window_blockers : Input → List Blocker
window_blockers q = elim q.maintenance_window [
  | none ↦ block q.require_maintenance_window maintenance_window_required []
  | some w ↦
      block (before q.now w.starts_at) maintenance_window_not_started
        (block (not (before q.now w.ends_at)) maintenance_window_closed [])
]

abbrev pub blockers_of : Library → Input → List Blocker
blockers_of lib q = block (not (is_approved q.change.state)) change_not_approved (
    block (not (is_allow q.change.decision.effect)) policy_denied (
      block (not (q.change.revision_id == q.revision.id)) revision_binding_mismatch (
        block (not (q.current_revision_id == q.change.revision_id)) revision_is_no_longer_current (
          block
            (not (
              is_ok (
                check_approvals lib q.change.requester q.change.decision.requirement
                  q.change.approvals)))
            approval_requirement_not_satisfied (window_blockers q)))))

abbrev pub is_empty : List Blocker → Bool
is_empty [] = true
is_empty (b ∷ rest) = false

-- `normalizeWindow` on an optional window
unfoldable pub checked_window : Option MaintenanceWindow → Result String (Unit {0})
unfolding normalize_window
checked_window none = ok tt
checked_window (some w) = elim (normalize_window w) [ ok n ↦ ok tt | err e ↦ err e ]

abbrev pub then_check {ℓ} :
    {A : Type ℓ} → Result String (Unit {0}) → Result String A → Result String A
then_check (ok u) rest = rest
then_check (err e) rest = err e

abbrev pub refuse {ℓ} : {A : Type ℓ} → Bool → String → Result String A → Result String A
refuse true e rest = err e
refuse false e rest = rest

-- The checks of `Evaluate` that end it with an error.
unfoldable pub check_input : Library → Input → Result String (Unit {0})
unfolding validate_change checked_window
check_input lib q = refuse (is_zero q.now) "evaluation time is required" (
    refuse (is_blank lib q.current_revision_id || not_trimmed lib q.current_revision_id)
      "current revision id must be canonical"
      (then_check (validate_change lib q.change) (
        refuse (q.revision.id == "" || q.revision.digest == "")
          "exact immutable revision is required"
          (refuse (after q.change.updated_at q.now) "change evidence is newer than evaluation time"
            (then_check (validate_decision lib q.change.decision) (
              refuse (not (risk_eq q.change.risk q.change.decision.risk))
                "change risk does not match policy risk" (checked_window q.maintenance_window)))))))

abbrev pub admission_of : Library → Input → Admission
admission_of lib q = record {
  contract_version = "orchestration.execution-preflight/v1";
  eligible = is_empty (blockers_of lib q);
  execution_authorized = false;
  change_id = q.change.id;
  change_version = q.change.version;
  revision_id = q.revision.id;
  revision_digest = q.revision.digest;
  evaluated_at = q.now;
  maintenance_window = q.maintenance_window;
  blockers = blockers_of lib q;
}

-- `Evaluate`
unfoldable pub evaluate : Library → Input → Result String Admission
unfolding check_input
evaluate lib q = then_check (check_input lib q) (ok (admission_of lib q))
