-- ===== src/Orchestration/Job/Lifecycle.antt =====
-- What a job is between two operations of internal/orchestration/job/memory.go, and the lifecycle
-- that the operations follow, stated without their code.
use control_center_stable.Prelude.{
  ℕ, ◌+◌, ◌≤◌, ◌<◌, String, ◌≡◌, refl, Option, none, some, Bool, true, false, arith, ok,
}
use control_center_stable.Prelude.Time.{Time, Duration, next_u64}
use control_center_stable.Prelude.Library.{Library}
use control_center_stable.Orchestration.Events.{Output}
use control_center_stable.Orchestration.Job.Model.{
  Status, queued, running, retry_wait, cancel_requested, cancelled, succeeded, failed, other,
  is_terminal, Job, CreateRequest, RetryPolicy,
}
use control_center_stable.Orchestration.Job.Steps.{
  created_job, visit, write, claim_it, check_lease, renew, complete, record_failure, request_stop,
}

abbrev pub holds_lease : Status → Bool
holds_lease running = true
holds_lease cancel_requested = true
holds_lease _ = false

abbrev pub is_some {ℓ} : {A : Type ℓ} → Option A → Bool
is_some none = false
is_some (some a) = true

-- The bounds on the attempts that a status implies.
abbrev pub AttemptFits : Status → ℕ → ℕ → Type 0
AttemptFits queued attempt limit = attempt ≡ 0
AttemptFits running attempt limit = 0 < attempt
AttemptFits retry_wait attempt limit = (0 < attempt) × (attempt < limit)
AttemptFits cancel_requested attempt limit = 0 < attempt
AttemptFits cancelled attempt limit = Unit
AttemptFits succeeded attempt limit = 0 < attempt
AttemptFits failed attempt limit = attempt ≡ limit
AttemptFits (other s) attempt limit = ⊥

-- A job is leased exactly while it runs, has started no more attempts than it may, and has a
-- number of attempts that fits its status.
pub record IsWellFormed (j : Job) : Type 0 where
  pub leased : is_some j.lease ≡ holds_lease j.status
  pub positive : 0 < j.max_attempts
  pub within : j.attempt ≤ j.max_attempts
  pub fits : AttemptFits j.status j.attempt j.max_attempts

-- The edges of the lifecycle, with the attempts before and after.
pub data Edge : Status → ℕ → Status → ℕ → Type 0 where
  start : {n m : ℕ} → m ≡ n + 1 → Edge queued n running m
  retry : {n m : ℕ} → m ≡ n + 1 → Edge retry_wait n running m
  take_over : {n m : ℕ} → m ≡ n + 1 → Edge running n running m
  keep_running : {n m : ℕ} → m ≡ n → Edge running n running m
  keep_stopping : {n m : ℕ} → m ≡ n → Edge cancel_requested n cancel_requested m
  finish : {n m : ℕ} → m ≡ n → Edge running n succeeded m
  back_off : {n m : ℕ} → m ≡ n → Edge running n retry_wait m
  give_up : {n m : ℕ} → m ≡ n → Edge running n failed m
  ask_stop : {n m : ℕ} → m ≡ n → Edge running n cancel_requested m
  stop_queued : {n m : ℕ} → m ≡ n → Edge queued n cancelled m
  stop_waiting : {n m : ℕ} → m ≡ n → Edge retry_wait n cancelled m
  stop_running : {n m : ℕ} → m ≡ n → Edge cancel_requested n cancelled m

-- What one operation at time `now` may make of a job.
pub record Evolves (now : Time) (j k : Job) : Type 0 where
  pub same_id : k.id ≡ j.id
  pub same_change : k.change_id ≡ j.change_id
  pub same_action : k.action_name ≡ j.action_name
  pub same_input : k.input ≡ j.input
  pub same_key : k.idempotency_key ≡ j.idempotency_key
  pub same_limit : k.max_attempts ≡ j.max_attempts
  pub same_creation : k.created_at ≡ j.created_at
  pub next_version : k.version ≡ next_u64 j.version
  pub stamped : k.updated_at ≡ now
  pub edge : Edge j.status j.attempt k.status k.attempt

pub ruleset edges = (
  start, retry, take_over, keep_running, keep_stopping, finish, back_off, give_up, ask_stop,
  stop_queued, stop_waiting, stop_running,
)

-- A created job is well-formed.
pub created_job-IsWellFormed :
    (request : CreateRequest) → 0 < request.max_attempts → IsWellFormed (created_job request)
created_job-IsWellFormed request h = ground arith

module _ (lib : Library) (worker_id : String) (now : Time) (ttl : Duration) where
  pub visit_write-IsWellFormed :
      (j k : Job) → IsWellFormed j → visit lib worker_id now ttl j ≡ write k → IsWellFormed k
  unfolding visit
  visit_write-IsWellFormed j k w e = ground arith

  pub visit_claim-IsWellFormed :
      (j k : Job) → IsWellFormed j → visit lib worker_id now ttl j ≡ claim_it k → IsWellFormed k
  unfolding visit
  visit_claim-IsWellFormed j k w e = ground arith

  pub visit_write-Evolves :
      (j k : Job) → IsWellFormed j → visit lib worker_id now ttl j ≡ write k → Evolves now j k
  unfolding visit
  visit_write-Evolves j k w e = grind (arith, edges)

  pub visit_claim-Evolves :
      (j k : Job) → IsWellFormed j → visit lib worker_id now ttl j ≡ claim_it k → Evolves now j k
  unfolding visit
  visit_claim-Evolves j k w e = grind (arith, edges)

-- What an operation that needs the job's lease does to a job that passes its check.
module _ (j f : Job) (token : String) (now : Time) (held : check_lease j token now ≡ ok f) where
  pub check_lease_same : f ≡ j
  unfolding check_lease
  check_lease_same = ground arith

  pub check_lease-holds_lease : holds_lease j.status ≡ true
  unfolding check_lease
  check_lease-holds_lease = ground arith

module _ (j : Job) (now : Time) (w : IsWellFormed j) (held : holds_lease j.status ≡ true) where
  pub renew-IsWellFormed : (ttl : Duration) → IsWellFormed (renew j now ttl)
  renew-IsWellFormed ttl = ground arith

  pub renew-Evolves : (ttl : Duration) → Evolves now j (renew j now ttl)
  renew-Evolves ttl = grind (arith, edges)

  pub complete-IsWellFormed : (output : Output) → IsWellFormed (complete j output now)
  complete-IsWellFormed output = ground arith

  pub complete-Evolves : (output : Output) → Evolves now j (complete j output now)
  complete-Evolves output = grind (arith, edges)

  pub record_failure-IsWellFormed :
      (text : String) (output : Output) (policy : RetryPolicy)
      → IsWellFormed (record_failure j text output policy now)
  record_failure-IsWellFormed text output policy = ground arith

  pub record_failure-Evolves :
      (text : String) (output : Output) (policy : RetryPolicy)
      → Evolves now j (record_failure j text output policy now)
  record_failure-Evolves text output policy = grind (arith, edges)

module _ (j : Job) (now : Time) (w : IsWellFormed j) (live : is_terminal j.status ≡ false) where
  pub request_stop-IsWellFormed : IsWellFormed (request_stop j now)
  request_stop-IsWellFormed = ground arith

  pub request_stop-Evolves : Evolves now j (request_stop j now)
  request_stop-Evolves = grind (arith, edges)

-- No edge leaves a terminal status.
pub Evolves-not_terminal : {now : Time} {j k : Job} → Evolves now j k → is_terminal j.status ≡ false
Evolves-not_terminal {j = j} e = source e.edge
  where
    source : {s t : Status} {n m : ℕ} → Edge s n t m → is_terminal s ≡ false
    source (start h) = refl
    source (retry h) = refl
    source (take_over h) = refl
    source (keep_running h) = refl
    source (keep_stopping h) = refl
    source (finish h) = refl
    source (back_off h) = refl
    source (give_up h) = refl
    source (ask_stop h) = refl
    source (stop_queued h) = refl
    source (stop_waiting h) = refl
    source (stop_running h) = refl
