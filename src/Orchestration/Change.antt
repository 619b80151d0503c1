-- ===== src/Orchestration/Change.antt =====
-- internal/orchestration/change/change.go: the state machine of a change. A method takes the
-- snapshot of the machine and returns it changed, beside its error; the mutex makes it one step.
pub mod Authorized
use control_center_stable.Prelude.{
  ℕ, suc, ◌+◌, String, Option, none, some, List, [], ◌∷◌, ◌++◌, Bool, true, false, not, ◌&&◌, ◌||◌,
  nat_eq, ◌==◌, if◌then◌else◌, Result, ok, err,
}
use control_center_stable.Prelude.Time.{Time, is_positive, is_zero, next_u64}
use control_center_stable.Prelude.Library.{Library}
use control_center_stable.Orchestration.Policy.{
  Risk, Decision, Approval, is_allow, validate_decision, check_approvals,
}
use control_center_stable.Orchestration.Config.{Revision}

pub data State : Type 0 where
  pending_approval approved queued executing verifying succeeded failed cancelled rejected : State
  other : String → State

pub data ChangeError : Type 0 where
  invalid_transition version_conflict : ChangeError
  message : String → ChangeError

pub record Snapshot : Type 0 where
  pub id : String
  pub action : String
  pub requester : String
  pub revision_id : String
  pub risk : Risk
  pub state : State
  pub decision : Decision
  pub approvals : List Approval
  pub version : ℕ
  pub updated_at : Time

abbrev pub is_pending : State → Bool
is_pending pending_approval = true
is_pending _ = false

abbrev pub first_state : Decision → State
first_state d =
    if is_allow d.effect
    then if is_positive d.requirement.minimum then pending_approval else approved
    else rejected

-- `New`
unfoldable pub new :
    Library → String → String → String → Revision → Decision → Time → Result ChangeError Snapshot
new lib id action requester revision decision now =
    if id == "" || action == "" || requester == ""
    then err (message "change id, action, and requester are required")
    else if is_zero now
    then err (message "change time is required")
    else elim (validate_decision lib decision) [
      | err text ↦ err (message text)
      | ok u ↦ ok (record {
        id = id;
        action = action;
        requester = requester;
        revision_id = revision.id;
        risk = decision.risk;
        state = first_state decision;
        decision = decision;
        approvals = [];
        version = 1;
        updated_at = now;
      })
    ]

abbrev pub is_ok : Result String (Unit {0}) → Bool
is_ok (ok u) = true
is_ok (err e) = false

-- The snapshot after an approval was appended.
abbrev pub with_approval : Library → Approval → Time → Snapshot → Snapshot
with_approval lib approval now s =
    let approvals = s.approvals ++ approval ∷ [] in
    record s {
      approvals = approvals;
      state =
          if is_ok (check_approvals lib s.requester s.decision.requirement approvals)
          then approved
          else s.state;
      version = next_u64 s.version;
      updated_at = now;
    }

-- `Approve`
unfoldable pub approve :
    Library → Approval → ℕ → Time → Snapshot → Result ChangeError (Unit {0}) × Snapshot
approve lib approval expected_version now s =
    if not (nat_eq s.version expected_version)
    then (err version_conflict, s)
    else if not (is_pending s.state)
    then (err invalid_transition, s)
    else (ok tt, with_approval lib approval now s)

-- `allowed`
unfoldable pub allowed : State → State → Bool
allowed pending_approval cancelled = true
allowed pending_approval rejected = true
allowed approved queued = true
allowed approved cancelled = true
allowed queued executing = true
allowed queued cancelled = true
allowed queued failed = true
allowed executing verifying = true
allowed executing failed = true
allowed executing cancelled = true
allowed verifying succeeded = true
allowed verifying failed = true
allowed _ _ = false

-- `Transition`
unfoldable pub transition : State → ℕ → Time → Snapshot → Result ChangeError (Unit {0}) × Snapshot
unfolding allowed
transition target expected_version now s =
    if not (nat_eq s.version expected_version)
    then (err version_conflict, s)
    else if not (allowed s.state target)
    then (err invalid_transition, s)
    else (ok tt, record s { state = target; version = next_u64 s.version; updated_at = now })
