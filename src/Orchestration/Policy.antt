-- ===== src/Orchestration/Policy.antt =====
-- internal/orchestration/policy/policy.go: policy decisions and the approvals that they require.
-- A Go string type is a data type whose constructor `other` is a value that is no constant; an
-- error is its text.
pub mod Approvals
mod Permissions
use control_center_stable.Prelude.{
  ℕ, suc, ◌+◌, String, Option, none, some, List, [], ◌∷◌, Bool, true, false, not, ◌&&◌, ◌||◌, ltb,
  ◌==◌, if◌then◌else◌, Result, ok, err,
}
use control_center_stable.Prelude.Map.{Map, lookup}
use control_center_stable.Prelude.Time.{Time, ℤ, pos, negsuc, is_positive, is_zero}
use control_center_stable.Prelude.Library.{Library, text_before, sort_slice}

pub data Risk : Type 0 where
  low medium high critical : Risk
  other : String → Risk

-- `Risk.Valid`
abbrev pub risk_valid : Risk → Bool
risk_valid (other s) = false
risk_valid _ = true

pub data Effect : Type 0 where
  allow deny : Effect
  other : String → Effect

pub record ApprovalRequirement : Type 0 where
  pub minimum : ℤ
  pub permission : String
  pub distinct_actors : Bool
  pub prohibit_requester : Bool

abbrev pub is_negative : ℤ → Bool
is_negative (pos n) = false
is_negative (negsuc n) = true

-- `ApprovalRequirement.Validate`
unfoldable pub validate_requirement : Library → ApprovalRequirement → Result String (Unit {0})
validate_requirement lib r =
    if is_negative r.minimum
    then err "minimum approvals cannot be negative"
    else if not (r.permission == lib.trim_space r.permission)
    then err "approval permission must be canonical"
    else if is_positive r.minimum && r.permission == ""
    then err "approval permission is required"
    else ok tt

pub record Decision : Type 0 where
  pub effect : Effect
  pub risk : Risk
  pub reason : String
  pub requirement : ApprovalRequirement
  pub policy_id : String

abbrev pub is_allow : Effect → Bool
is_allow allow = true
is_allow _ = false

abbrev pub is_deny : Effect → Bool
is_deny deny = true
is_deny _ = false

-- `Decision.Validate`
unfoldable pub validate_decision : Library → Decision → Result String (Unit {0})
unfolding validate_requirement
validate_decision lib d =
    if not (is_allow d.effect) && not (is_deny d.effect)
    then err "invalid policy effect"
    else if not (risk_valid d.risk)
    then err "invalid risk"
    else if d.policy_id == "" || d.reason == ""
    then err "policy id and reason are required"
    else validate_requirement lib d.requirement

pub record EvaluationInput : Type 0 where
  pub action : String
  pub requester : String
  pub risk : Risk
  pub permissions : List String

pub record ThresholdEvaluator : Type 0 where
  pub policy_id : String
  pub approval_permission : String
  pub denied_actions : Map String

-- The approvals that a risk requires.
abbrev pub required_for : Risk → ℕ
required_for high = 1
required_for critical = 2
required_for _ = 0

abbrev pub no_requirement : ApprovalRequirement
no_requirement = record {
  minimum = pos 0;
  permission = "";
  distinct_actors = false;
  prohibit_requester = false;
}

abbrev pub threshold_decision : ThresholdEvaluator → EvaluationInput → Decision
threshold_decision e q = record {
  effect = allow;
  risk = q.risk;
  reason = "risk threshold policy satisfied";
  requirement = record {
    minimum = pos (required_for q.risk);
    permission = e.approval_permission;
    distinct_actors = true;
    prohibit_requester = ltb 0 (required_for q.risk);
  };
  policy_id = e.policy_id;
}

-- `ThresholdEvaluator.Evaluate`
unfoldable pub evaluate : Library → ThresholdEvaluator → EvaluationInput → Result String Decision
unfolding validate_decision
evaluate lib e q =
    if q.action == "" || q.requester == "" || not (risk_valid q.risk)
    then err "action, requester, and valid risk are required"
    else elim (lookup q.action e.denied_actions) [
      | some reason ↦ ok (record {
        effect = deny;
        risk = q.risk;
        reason = reason;
        requirement = no_requirement;
        policy_id = e.policy_id;
      })
      | none ↦ elim (validate_decision lib (threshold_decision e q)) [
        | ok u ↦ ok (threshold_decision e q)
        | err text ↦ err text
      ]
    ]

pub record Approval : Type 0 where
  pub actor : String
  pub permissions : List String
  pub approved_at : Time

-- `sort.SearchStrings`, and the test at the index: the first element that is not before.
unfoldable pub search_strings : List String → String → Option String
search_strings [] wanted = none
search_strings (s ∷ rest) wanted =
    let later = search_strings rest wanted in if text_before s wanted then later else some s

-- `contains`, on a sorted copy
unfoldable pub contains : List String → String → Bool
unfolding search_strings
contains values wanted = elim (search_strings (sort_slice text_before values) wanted) [
  | none ↦ false
  | some found ↦ found == wanted
]

-- `_, duplicate := seen[actor]`
unfoldable pub seen_before : String → List String → Bool
seen_before actor [] = false
seen_before actor (a ∷ seen) = a == actor || seen_before actor seen

-- The approval has a canonical actor and a time, and the actor may approve.
unfoldable pub may_count : Library → String → ApprovalRequirement → Approval → Bool
may_count lib requester r a =
    not (
      lib.trim_space a.actor == ""
      || not (a.actor == lib.trim_space a.actor)
      || is_zero a.approved_at)
    && not (r.prohibit_requester && a.actor == requester)

unfoldable pub has_permission : ApprovalRequirement → Approval → Bool
unfolding contains
has_permission r a = r.permission == "" || contains a.permissions r.permission

-- The loop of `CheckApprovals`: `valid` at its end, from the actors seen so far.
unfoldable pub count_approvals :
    Library → String → ApprovalRequirement → List String → List Approval → ℕ
unfolding may_count seen_before has_permission
count_approvals lib requester r seen [] = 0
count_approvals lib requester r seen (a ∷ rest) =
    let skipped = count_approvals lib requester r seen rest in
    let marked =
      count_approvals lib requester r (if r.distinct_actors then a.actor ∷ seen else seen) rest in
    if not (may_count lib requester r a)
    then skipped
    else if r.distinct_actors && seen_before a.actor seen
    then skipped
    else if not (has_permission r a)
    then marked
    else suc marked

-- `valid < minimum`
abbrev pub below : ℕ → ℤ → Bool
below n (pos m) = ltb n m
below n (negsuc m) = false

-- `CheckApprovals`
unfoldable pub check_approvals :
    Library → String → ApprovalRequirement → List Approval → Result String (Unit {0})
unfolding validate_requirement count_approvals
check_approvals lib requester r approvals = elim (validate_requirement lib r) [
  | err text ↦ err text
  | ok u ↦
      if r.prohibit_requester
        && (lib.trim_space requester == "" || not (requester == lib.trim_space requester))
      then err "canonical requester is required for requester-prohibited approval policy"
      else if below (count_approvals lib requester r [] approvals) r.minimum
      then err "insufficient approvals"
      else ok tt
]
