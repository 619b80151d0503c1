-- ===== src/NetworkPolicy/ChangePlan.antt =====
-- internal/networkpolicy/change_plan.go: the plan of a network change and the request that it is
-- built from.
pub mod Builder
pub mod Equal
pub mod Build
mod Loops
mod Checks
pub mod Safe
use control_center_stable.Prelude.{
  ◌*◌, [], ◌∷◌, ℕ, String, List, Bool, true, false, not, ◌&&◌, ◌||◌, ◌==◌, if◌then◌else◌, Result,
  ok, err, nat_eq, ltb,
}
use control_center_stable.Prelude.Time.{Duration, pos, is_positive, exceeds, minute}
use control_center_stable.Prelude.Library.{codes, concat}
use control_center_stable.NetworkPolicy.ChangeEvents.{matches_identifier}
use control_center_stable.NetworkPolicy.Forwarding.{Zone, ForwardingIntent}

pub data ChangeStage : Type 0 where
  snapshot preflight apply_window probes decision : ChangeStage

pub data ChangeAction : Type 0 where
  capture_recovery_snapshot validate_network_contract validate_management_path : ChangeAction
  authorize_forwarding open_temporary_window run_connectivity_probes : ChangeAction
  commit_or_rollback : ChangeAction

-- A Go string type: a value that is no constant is `unknown_kind`.
pub data ProbeKind : Type 0 where
  link_state zone_reachability control_plane : ProbeKind
  unknown_kind : String → ProbeKind

-- `ProbeKind.valid`
abbrev pub kind_valid : ProbeKind → Bool
kind_valid (unknown_kind s) = false
kind_valid _ = true

abbrev pub is_control_plane : ProbeKind → Bool
is_control_plane control_plane = true
is_control_plane _ = false

pub record InterfaceIntent : Type 0 where
  pub interface_id : String
  pub zone : Zone
  pub is_changed : Bool

pub record ConnectivityProbe : Type 0 where
  pub id : String
  pub kind : ProbeKind
  pub interface_id : String
  pub zone : Zone

pub record TimeoutPolicy : Type 0 where
  pub snapshot : Duration
  pub preflight : Duration
  pub apply_window : Duration
  pub probe : Duration
  pub rollback : Duration

pub record ChangePlanRequest : Type 0 where
  pub node_id : String
  pub revision_id : String
  pub interfaces : List InterfaceIntent
  pub forwarding : List ForwardingIntent
  pub probes : List ConnectivityProbe
  pub timeouts : TimeoutPolicy

pub record ChangeStep : Type 0 where
  pub order : ℕ
  pub stage : ChangeStage
  pub action : ChangeAction

pub record ChangePlan : Type 0 where
  pub schema_version : String
  pub plan_id : String
  pub node_id : String
  pub revision_id : String
  pub interfaces : List InterfaceIntent
  pub forwarding : List ForwardingIntent
  pub forwarding_default_deny : Bool
  pub probes : List ConnectivityProbe
  pub timeouts : TimeoutPolicy
  pub steps : List ChangeStep

-- What the builder is given of the standard library: `strings.TrimSpace`, `strings.ToUpper`, the
-- JSON of a plan and the SHA-256 of a text in hexadecimal.
pub record PlanLibrary : Type 0 where
  pub trim_space : String → String
  pub to_upper : String → String
  pub marshal_plan : ChangePlan → String
  pub sha256_hex : String → String

-- `ErrInvalidChangePlan` with the fixed part of its text.
pub data PlanError : Type 0 where
  invalid_plan : String → PlanError

-- `maxPhaseTimeout`
abbrev pub max_phase_timeout : Duration
max_phase_timeout = pos (15 * minute)

abbrev pub bad_timeout : Duration → Bool
bad_timeout d = not (is_positive d) || exceeds d max_phase_timeout

-- `validateTimeouts`
unfoldable pub validate_timeouts : TimeoutPolicy → Result PlanError (Unit {0})
validate_timeouts t =
    if bad_timeout t.snapshot
      || bad_timeout t.preflight
      || bad_timeout t.apply_window
      || bad_timeout t.probe
      || bad_timeout t.rollback
    then err (invalid_plan "timeout must be greater than zero and at most 15m0s")
    else if exceeds t.probe t.apply_window
    then err (invalid_plan "probe timeout must not exceed apply window")
    else ok tt

-- `normalizeIdentifier`
unfoldable pub normalize_identifier : PlanLibrary → String → String → Result PlanError String
unfolding matches_identifier
normalize_identifier lib name value =
    let trimmed = lib.trim_space value in
    if not (matches_identifier (codes trimmed)) then err (invalid_plan name) else ok trimmed

-- `changePlanID`
unfoldable pub change_plan_id : PlanLibrary → ChangePlan → String
unfolding concat
change_plan_id lib plan =
    concat ("sha256:" ∷ lib.sha256_hex (lib.marshal_plan (record plan { plan_id = "" })) ∷ [])
