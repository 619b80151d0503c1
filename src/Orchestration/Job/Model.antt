-- ===== src/Orchestration/Job/Model.antt =====
-- internal/orchestration/job/job.go: the data of a job.
-- Identifiers and raw JSON are strings; `int` counters are natural numbers (a negative
-- `MaxAttempts` is refused like 0, and `Attempt` only grows); versions are uint64.
use control_center_stable.Prelude.{
  ℕ, String, Option, none, some, Bool, true, false, ContextError, ◌==◌,
}
use control_center_stable.Prelude.Time.{Time, Duration}
use control_center_stable.Orchestration.Events.{Output}

-- The sentinel errors, and a message for the other ones.
pub data Error : Type 0 where
  not_found lease_lost idempotency_conflict version_conflict : Error
  manual_retry_source_not_failed manual_retry_source_already_retried : Error
  manual_retry_admission_conflict manual_retry_lineage_not_found : Error
  timeline_conflict : Error
  invalid_timeline_entry : String → Error
  context : ContextError → Error
  message : String → Error

-- A Go string type: a value that is no constant is `other`.
pub data Status : Type 0 where
  queued running retry_wait cancel_requested cancelled succeeded failed : Status
  other : String → Status

-- `Status.Terminal`
abbrev pub is_terminal : Status → Bool
is_terminal cancelled = true
is_terminal succeeded = true
is_terminal failed = true
is_terminal _ = false

abbrev pub status_eq : Status → Status → Bool
status_eq queued queued = true
status_eq running running = true
status_eq retry_wait retry_wait = true
status_eq cancel_requested cancel_requested = true
status_eq cancelled cancelled = true
status_eq succeeded succeeded = true
status_eq failed failed = true
status_eq (other s) (other t) = s == t
status_eq _ _ = false

pub record Lease : Type 0 where
  pub token : String
  pub worker_id : String
  pub expires_at : Time

pub record Job : Type 0 where
  pub id : String
  pub change_id : String
  pub action_name : String
  pub input : String
  pub idempotency_key : String
  pub status : Status
  pub attempt : ℕ
  pub max_attempts : ℕ
  pub next_attempt_at : Time
  pub lease : Option Lease
  pub output : Option Output
  pub last_error : String
  pub created_at : Time
  pub updated_at : Time
  pub version : ℕ

-- `Job{}`, which a read of a missing key gives
abbrev pub zero_job : Job
zero_job = record {
  id = "";
  change_id = "";
  action_name = "";
  input = "";
  idempotency_key = "";
  status = other "";
  attempt = 0;
  max_attempts = 0;
  next_attempt_at = 0;
  lease = none;
  output = none;
  last_error = "";
  created_at = 0;
  updated_at = 0;
  version = 0;
}

abbrev pub or_zero : Option Job → Job
or_zero none = zero_job
or_zero (some j) = j

pub record CreateRequest : Type 0 where
  pub id : String
  pub change_id : String
  pub action_name : String
  pub input : String
  pub idempotency_key : String
  pub max_attempts : ℕ
  pub now : Time

pub record RetryPolicy : Type 0 where
  pub base_delay : Duration
  pub max_delay : Duration

pub record Filter : Type 0 where
  pub change_id : String
  pub status : Status
