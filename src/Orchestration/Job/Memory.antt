-- ===== src/Orchestration/Job/Memory.antt =====
-- internal/orchestration/job/memory.go and cancel_version.go: the in-memory job repository.
-- An operation takes the repository and returns its result beside the repository that it leaves;
-- the mutex makes each operation one step.
use control_center_stable.Prelude.{
  ℕ, String, Option, none, some, List, [], ◌∷◌, Bool, true, false, not, ◌&&◌, ◌||◌, ltb, nat_eq,
  ◌==◌, if◌then◌else◌, ok, err, Exec, Context, ◌>>=◌, ◌>>◌, pure, lift, gets, reject_if, modify,
  check_context, or_error,
}
use control_center_stable.Prelude.Map.{Map, empty, lookup, insert}
use control_center_stable.Prelude.Time.{Time, Duration, is_zero, before, is_positive}
use control_center_stable.Prelude.Library.{Library, text_before, sort_slice}
use control_center_stable.Orchestration.Events.{Output}
use control_center_stable.Orchestration.Job.Model.{
  Error, not_found, idempotency_conflict, version_conflict, context, message, other, is_terminal,
  status_eq, Job, or_zero, CreateRequest, RetryPolicy, Filter,
}
use control_center_stable.Orchestration.Job.Steps.{
  fingerprint, created_job, skip, write, claim_it, visit, check_lease, renew, complete,
  record_failure, request_stop,
}

pub record IdempotencyRecord : Type 0 where
  pub job_id : String
  pub fingerprint : String

-- `MemoryRepository`
pub record Repository : Type 0 where
  pub jobs : Map Job
  pub idempotency : Map IdempotencyRecord

abbrev pub new_repository : Repository
new_repository = record { jobs = empty; idempotency = empty }

abbrev pub Op : Type 0 → Type 0
Op A = Exec Error Repository A

-- `r.jobs[id] = j`
abbrev pub save : String → Job → Repository → Repository
save id j r = record r { jobs = insert id j r.jobs }

-- The checks of `Create` before it takes the lock.
abbrev pub lacks_identity : CreateRequest → Bool
lacks_identity request =
    request.id == ""
    || request.change_id == ""
    || request.action_name == ""
    || request.idempotency_key == ""

abbrev pub lacks_input : Library → CreateRequest → Bool
lacks_input lib request = request.input == "" || not (lib.json_valid request.input)

abbrev pub lacks_schedule : CreateRequest → Bool
lacks_schedule request = ltb request.max_attempts 1 || is_zero request.now

unfoldable pub check_create : Library → CreateRequest → Op (Unit {0})
check_create lib request = do
  reject_if (lacks_identity request)
      (message "job id, change id, action, and idempotency key are required")
  reject_if (lacks_input lib request) (message "job input must be valid JSON")
  reject_if (lacks_schedule request) (message "max attempts and creation time are required")

unfoldable pub store_new : Library → CreateRequest → Op (Job × Bool)
store_new lib request r = elim (lookup request.id r.jobs) [
  | some j ↦ (err (message "job id already exists"), r)
  | none ↦ (
    ok (created_job request, true),
    record {
      jobs = insert request.id (created_job request) r.jobs;
      idempotency =
          insert request.idempotency_key
            (record { job_id = request.id; fingerprint = fingerprint lib request }) r.idempotency;
    },
  )
]

unfoldable pub create_locked : Library → CreateRequest → Op (Job × Bool)
unfolding store_new
create_locked lib request r = elim (lookup request.idempotency_key r.idempotency) [
  | some known ↦
      if not (known.fingerprint == fingerprint lib request)
      then (err idempotency_conflict, r)
      else (ok (or_zero (lookup known.job_id r.jobs), false), r)
  | none ↦ store_new lib request r
]

-- `Create`: the job, and whether the call created it.
unfoldable pub create : Library → Context → CreateRequest → Op (Job × Bool)
unfolding check_create create_locked
create lib ctx request = do
  check_context ctx context
  check_create lib request
  create_locked lib request

-- `Get`
unfoldable pub get : Context → String → Op Job
get ctx id = do
  check_context ctx context
  found ← gets (λ r. lookup id r.jobs)
  lift (or_error found not_found)

-- The order of `List` and `Claim`: by creation time, then by ID.
unfoldable pub created_earlier : Job → Job → Bool
created_earlier a b =
    if nat_eq a.created_at b.created_at
    then text_before a.id b.id
    else before a.created_at b.created_at

-- The filter of `List`.
unfoldable pub matches : Filter → Job → Bool
matches filter candidate =
    (filter.change_id == "" || candidate.change_id == filter.change_id)
    && (status_eq filter.status (other "") || status_eq candidate.status filter.status)

unfoldable pub matching : Filter → Map Job → List Job
matching filter [] = []
matching filter ((id, candidate) ∷ rest) =
    let tail = matching filter rest in if matches filter candidate then candidate ∷ tail else tail

-- `List`
unfoldable pub list : Context → Filter → Op (List Job)
unfolding matching matches created_earlier
list ctx filter = do
  check_context ctx context
  gets (λ r. sort_slice created_earlier (matching filter r.jobs))

unfoldable pub claim_loop : Library → String → Time → Duration → List String → Op (Option Job)
unfolding visit
claim_loop lib worker_id now ttl [] r = (ok none, r)
claim_loop lib worker_id now ttl (id ∷ ids) r =
    elim (visit lib worker_id now ttl (or_zero (lookup id r.jobs))) [
      | skip ↦ claim_loop lib worker_id now ttl ids r
      | write j ↦ claim_loop lib worker_id now ttl ids (save id j r)
      | claim_it j ↦ (ok (some j), save id j r)
    ]

unfoldable pub keys : Map Job → List String
keys [] = []
keys ((id, j) ∷ rest) = id ∷ keys rest

-- The comparison of `Claim`, which reads the jobs of two IDs.
unfoldable pub id_earlier : Map Job → String → String → Bool
unfolding created_earlier
id_earlier jobs a b = created_earlier (or_zero (lookup a jobs)) (or_zero (lookup b jobs))

-- The IDs, the earliest created job first.
unfoldable pub claim_order : Map Job → List String
unfolding keys id_earlier sort_slice
claim_order jobs = sort_slice (id_earlier jobs) (keys jobs)

-- `Claim`: the job that the worker is to run, if there is one.
unfoldable pub claim : Library → Context → String → Time → Duration → Op (Option Job)
unfolding claim_loop claim_order
claim lib ctx worker_id now ttl = do
  check_context ctx context
  reject_if (worker_id == "" || is_zero now || not (is_positive ttl))
      (message "worker id, current time, and positive lease ttl are required")
  ids ← gets (λ r. claim_order r.jobs)
  claim_loop lib worker_id now ttl ids

-- `leased`
unfoldable pub leased : String → String → Time → Op Job
unfolding check_lease
leased id token now = do
  found ← gets (λ r. lookup id r.jobs)
  job ← lift (or_error found not_found)
  lift (check_lease job token now)

-- `r.jobs[id] = found; return clone(found), nil`
abbrev pub commit : String → Job → Op Job
commit id j = do modify (save id j); pure j

-- `RenewLease`
unfoldable pub renew_lease : Context → String → String → Time → Duration → Op Job
unfolding leased
renew_lease ctx id token now ttl = do
  check_context ctx context
  reject_if (not (is_positive ttl)) (message "lease ttl must be positive")
  found ← leased id token now
  commit id (renew found now ttl)

-- `Succeed`
unfoldable pub succeed : Context → String → String → Output → Time → Op Job
unfolding leased
succeed ctx id token output now = do
  check_context ctx context
  found ← leased id token now
  commit id (complete found output now)

-- `Fail`
unfoldable pub fail : Context → String → String → String → Output → RetryPolicy → Time → Op Job
unfolding leased
fail ctx id token text output policy now = do
  check_context ctx context
  reject_if (text == "") (message "failure message is required")
  found ← leased id token now
  commit id (record_failure found text output policy now)

abbrev pub stop_unless_terminal : String → Job → Time → Op Job
stop_unless_terminal id found now =
    if is_terminal found.status then pure found else commit id (request_stop found now)

-- `RequestCancel`
unfoldable pub request_cancel : Context → String → Time → Op Job
request_cancel ctx id now = do
  check_context ctx context
  entry ← gets (λ r. lookup id r.jobs)
  found ← lift (or_error entry not_found)
  stop_unless_terminal id found now

-- `RequestCancelIfVersion`
unfoldable pub request_cancel_if_version : Context → String → ℕ → Time → Op Job
request_cancel_if_version ctx id expected_version now = do
  check_context ctx context
  reject_if (nat_eq expected_version 0) (message "expected job version is required")
  entry ← gets (λ r. lookup id r.jobs)
  found ← lift (or_error entry not_found)
  reject_if (not (nat_eq found.version expected_version)) version_conflict
  stop_unless_terminal id found now
