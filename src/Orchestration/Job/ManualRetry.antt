-- ===== src/Orchestration/Job/ManualRetry.antt =====
-- internal/orchestration/job/manual_retry_memory.go and
-- manual_retry_lookup_memory.go: a fresh job from one exact failed version of a job.
-- The repository of lineages shares the mutex of the job repository, so a call is one step.
pub mod Safety
pub mod Roots
pub mod Once
use control_center_stable.Prelude.{
  ℕ, suc, ◌+◌, String, Option, none, some, List, [], ◌∷◌, Bool, true, false, not, ◌&&◌, ◌||◌, ltb,
  leb, nat_eq, ◌==◌, if◌then◌else◌, length, Result, ok, err, Exec, Context, ◌>>=◌, ◌>>◌, pure, lift,
  gets, reject_if, check_context, or_error,
}
use control_center_stable.Prelude.Map.{Map, empty, lookup, insert}
use control_center_stable.Prelude.Time.{Time, is_zero, before}
use control_center_stable.Prelude.Library.{
  Library, byte_length, codes, concat, nul, text_before, sort_slice,
}
use control_center_stable.Orchestration.Job.Model.{
  Error, not_found, version_conflict, idempotency_conflict, manual_retry_source_not_failed,
  manual_retry_source_already_retried, manual_retry_admission_conflict,
  manual_retry_lineage_not_found, context, message, Status, failed, Job, CreateRequest,
}
use control_center_stable.Orchestration.Job.Steps.{created_job, fingerprint}
use control_center_stable.Orchestration.Job.Memory.{IdempotencyRecord, Repository, new_repository}
use control_center_stable.Orchestration.Job.RetryRequest.{
  ManualRetryLineage, ManualRetryRequest, after_prefix, all_hex, not_identifier, reject,
  request_digest, request_fingerprint, terminated, valid_digest, validate_manual_retry_request,
  validate_retry_digests,
}

pub record RetryRecord : Type 0 where
  pub fingerprint : String
  pub lineage : ManualRetryLineage

-- `MemoryManualRetryRepository`
pub record RetryRepository : Type 0 where
  pub jobs : Repository
  pub by_admission : Map RetryRecord
  pub by_retry_job : Map ManualRetryLineage
  pub by_source : Map ManualRetryLineage

abbrev pub new_retry_repository : RetryRepository
new_retry_repository = record {
  jobs = new_repository;
  by_admission = empty;
  by_retry_job = empty;
  by_source = empty;
}

-- `manualRetrySourceKey`
unfoldable pub source_key : Library → String → ℕ → String
source_key lib job_id version = concat (job_id ∷ nul ∷ lib.decimal version ∷ [])

abbrev pub is_failed : Status → Bool
is_failed failed = true
is_failed _ = false

abbrev pub is_some {ℓ} : {A : Type ℓ} → Option A → Bool
is_some none = false
is_some (some a) = true

-- The request by which the retry job is made.
abbrev pub retry_create_request : ManualRetryRequest → Job → CreateRequest
retry_create_request q source = record {
  id = q.retry_job_id;
  change_id = source.change_id;
  action_name = source.action_name;
  input = source.input;
  idempotency_key = q.retry_idempotency_key;
  max_attempts = source.max_attempts;
  now = q.requested_at;
}

abbrev pub root_of : String → Option ManualRetryLineage → String
root_of id none = id
root_of id (some parent) = parent.root_job_id

abbrev pub make_lineage : ManualRetryRequest → Job → String → ManualRetryLineage
make_lineage q source root = record {
  root_job_id = root;
  source_job_id = source.id;
  source_job_version = source.version;
  retry_job_id = q.retry_job_id;
  retry_idempotency_key = q.retry_idempotency_key;
  reviewed_admission_id = q.reviewed_admission_id;
  revalidation_admission_id = q.revalidation_admission_id;
  revision_id = q.revision_id;
  revision_digest = q.revision_digest;
  policy_id = q.policy_id;
  policy_digest = q.policy_digest;
  retry_history_digest = q.retry_history_digest;
  approval_evidence_digest = q.approval_evidence_digest;
  requested_at = q.requested_at;
}

-- The retry, its lineage and whether the call created it.
pub record Outcome : Type 0 where
  pub retry : Job
  pub lineage : ManualRetryLineage
  pub created : Bool

abbrev pub RetryOp : Type 0 → Type 0
RetryOp A = Exec Error RetryRepository A

-- A job and an index entry for it, as `Create` and the manual retry store them.
abbrev pub add_job : Library → CreateRequest → Repository → Repository
add_job lib request r = record {
  jobs = insert request.id (created_job request) r.jobs;
  idempotency =
      insert request.idempotency_key
        (record { job_id = request.id; fingerprint = fingerprint lib request }) r.idempotency;
}

abbrev pub lineage_for : ManualRetryRequest → Job → RetryRepository → ManualRetryLineage
lineage_for q source r = make_lineage q source (root_of source.id (lookup source.id r.by_retry_job))

-- The writes of `CreateManualRetry`.
abbrev pub store_retry :
    Library → ManualRetryRequest → String → Job → RetryRepository → RetryRepository
store_retry lib q print source r =
    let lineage = lineage_for q source r in
    record {
      jobs = add_job lib (retry_create_request q source) r.jobs;
      by_admission =
          insert q.reviewed_admission_id (record { fingerprint = print; lineage = lineage })
            r.by_admission;
      by_retry_job = insert q.retry_job_id lineage r.by_retry_job;
      by_source = insert (source_key lib source.id source.version) lineage r.by_source;
    }

-- The checks of `CreateManualRetry` on the source, and its writes.
unfoldable pub retry_source : Library → ManualRetryRequest → String → Job → RetryOp Outcome
retry_source lib q print source r =
    if not (nat_eq source.version q.expected_source_version)
    then (err version_conflict, r)
    else if not (is_failed source.status)
        || ltb source.attempt source.max_attempts
        || is_some source.lease
    then (err manual_retry_source_not_failed, r)
    else if is_some (lookup (source_key lib source.id source.version) r.by_source)
    then (err manual_retry_source_already_retried, r)
    else if is_some (lookup q.retry_job_id r.jobs.jobs)
    then (err (message "retry job id already exists"), r)
    else if is_some (lookup q.retry_idempotency_key r.jobs.idempotency)
    then (err idempotency_conflict, r)
    else (
      ok (record {
        retry = created_job (retry_create_request q source);
        lineage = lineage_for q source r;
        created = true;
      }),
      store_retry lib q print source r,
    )

abbrev pub replay : String → RetryRecord → RetryOp Outcome
replay print existing r =
    if not (existing.fingerprint == print)
    then (err manual_retry_admission_conflict, r)
    else elim (lookup existing.lineage.retry_job_id r.jobs.jobs) [
      | none ↦ (err (message "manual retry lineage references missing retry job"), r)
      | some retry ↦ (ok (record { retry = retry; lineage = existing.lineage; created = false }), r)
    ]

unfoldable pub retry_locked : Library → ManualRetryRequest → String → RetryOp Outcome
unfolding retry_source
retry_locked lib q print r = elim (lookup q.reviewed_admission_id r.by_admission) [
  | some existing ↦ replay print existing r
  | none ↦ elim (lookup q.source_job_id r.jobs.jobs) [
    | none ↦ (err not_found, r)
    | some source ↦ retry_source lib q print source r
  ]
]

-- `CreateManualRetry`
unfoldable pub create_manual_retry : Library → Context → ManualRetryRequest → RetryOp Outcome
unfolding request_fingerprint retry_locked
create_manual_retry lib ctx q = do
  check_context ctx context
  print ← lift (request_fingerprint lib q)
  retry_locked lib q print

-- `GetManualRetryLineageByAdmission` and `GetManualRetryLineageByRetryJob`
unfoldable pub get_lineage_by_admission : Context → String → RetryOp ManualRetryLineage
get_lineage_by_admission ctx id = do
  check_context ctx context
  found ← gets (λ r. lookup id r.by_admission)
  known ← lift (or_error found manual_retry_lineage_not_found)
  pure known.lineage

unfoldable pub get_lineage_by_retry_job : Context → String → RetryOp ManualRetryLineage
get_lineage_by_retry_job ctx id = do
  check_context ctx context
  found ← gets (λ r. lookup id r.by_retry_job)
  lift (or_error found manual_retry_lineage_not_found)

unfoldable pub requested_earlier : ManualRetryLineage → ManualRetryLineage → Bool
requested_earlier a b =
    if nat_eq a.requested_at b.requested_at
    then text_before a.retry_job_id b.retry_job_id
    else before a.requested_at b.requested_at

unfoldable pub of_root : String → Map RetryRecord → List ManualRetryLineage
of_root root [] = []
of_root root ((id, entry) ∷ rest) =
    let tail = of_root root rest in
    if entry.lineage.root_job_id == root then entry.lineage ∷ tail else tail

-- `ListManualRetryLineage`
unfoldable pub list_lineage : Library → Context → String → RetryOp (List ManualRetryLineage)
unfolding of_root requested_earlier
list_lineage lib ctx root = do
  check_context ctx context
  reject_if (not_identifier lib root) (message "canonical root job id is required")
  gets (λ r. sort_slice requested_earlier (of_root root r.by_admission))
