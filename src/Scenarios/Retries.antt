-- ===== src/Scenarios/Retries.antt =====
-- The theorems on manual retries, at one failed job.
use control_center_stable.Prelude.{
  String, ◌≡◌, refl, none, some, ok, err, true, false, List, [], ◌∷◌,
}
use control_center_stable.Prelude.Time.{pos}
use control_center_stable.Prelude.Map.{empty, lookup, insert}
use control_center_stable.Prelude.Library.{concat}
use control_center_stable.Orchestration.Job.Model.{manual_retry_source_already_retried}
use control_center_stable.Orchestration.Job.Steps.{created_job, lease_token}
use control_center_stable.Orchestration.Job.Memory.{create, claim, fail}
use control_center_stable.Orchestration.Job.History.{creates, claims, fails, run, step}
use control_center_stable.Orchestration.Job.RetryRequest.{
  ManualRetryRequest, ManualRetryLineage, request_fingerprint, request_digest,
  validate_manual_retry_request,
}
use control_center_stable.Orchestration.Job.ManualRetry.{
  RetryRepository, Outcome, create_manual_retry, source_key, is_some, retry_create_request,
  make_lineage,
}
use control_center_stable.Orchestration.Job.ManualRetry.Safety.{retry_replay}
use control_center_stable.Orchestration.Job.ManualRetry.Once.{
  RetryCall, of_jobs, of_retries, run_retries, retry_once,
}
use control_center_stable.Orchestration.Job.ManualRetry.Roots.{
  IsRooted, create_manual_retry-IsRooted,
}
use control_center_stable.Scenarios.Setup.{
  lib, request, output, policy, failed_job, with_failed, failed-IsConsistent,
}

abbrev zeros : String
zeros = "sha256:0000000000000000000000000000000000000000000000000000000000000000"

abbrev ones : String
ones = "sha256:1111111111111111111111111111111111111111111111111111111111111111"

abbrev retry_request : ManualRetryRequest
retry_request = record {
  source_job_id = "j1";
  expected_source_version = 3;
  retry_job_id = "j2";
  retry_idempotency_key = "k2";
  reviewed_admission_id = zeros;
  revalidation_admission_id = zeros;
  revision_id = "r1";
  revision_digest = zeros;
  policy_id = "p1";
  policy_digest = zeros;
  retry_history_digest = zeros;
  approval_evidence_digest = "";
  requested_at = 30;
}

abbrev with_source : RetryRepository
with_source = record {
  jobs = with_failed;
  by_admission = empty;
  by_retry_job = empty;
  by_source = empty;
}

abbrev first_retry : Outcome
first_retry = record {
  retry = created_job (retry_create_request retry_request failed_job);
  lineage = make_lineage retry_request failed_job "j1";
  created = true;
}

first_made : (create_manual_retry lib none retry_request with_source).0 ≡ ok first_retry
unfolding create_manual_retry run create claim fail lookup insert lease_token concat
    validate_manual_retry_request
first_made = refl

-- Another reviewed admission of the same version of the same job.
abbrev second_request : ManualRetryRequest
second_request = record retry_request {
  retry_job_id = "j3";
  retry_idempotency_key = "k3";
  reviewed_admission_id = ones;
}

second_print : request_fingerprint lib second_request ≡ ok (request_digest lib second_request)
unfolding request_fingerprint validate_manual_retry_request
second_print = refl

-- Between the two, another job is created, fails and is retried.
abbrev twos : String
twos = "sha256:2222222222222222222222222222222222222222222222222222222222222222"

abbrev other_retry : ManualRetryRequest
other_retry = record retry_request {
  source_job_id = "j5";
  retry_job_id = "j6";
  retry_idempotency_key = "k6";
  reviewed_admission_id = twos;
  requested_at = 60;
}

abbrev between : List RetryCall
between =
    of_jobs (creates none (record request { id = "j5"; idempotency_key = "k5"; now = 6 }))
    ∷ of_jobs (claims none "w1" 40 (pos 100))
    ∷ of_jobs (fails none "j5" "j5:w1:2:3" "no answer" output policy 50)
    ∷ of_retries none other_retry
    ∷ []

abbrev after_first : RetryRepository
after_first = (create_manual_retry lib none retry_request with_source).1

abbrev after_other : RetryRepository
after_other = run_retries lib between after_first

other_made : is_some (lookup "j6" after_other.jobs.jobs) ≡ true
unfolding run_retries step create_manual_retry run create claim fail lookup insert lease_token
    concat validate_manual_retry_request source_key
other_made = refl

second_unreviewed : lookup ones after_other.by_admission ≡ none
unfolding run_retries step create_manual_retry run create claim fail lookup insert lease_token
    concat validate_manual_retry_request source_key
second_unreviewed = refl

-- The same admission, replayed later.
abbrev replay_request : ManualRetryRequest
replay_request = record retry_request { revalidation_admission_id = ones; requested_at = 99 }

replay_print : request_fingerprint lib replay_request ≡ request_fingerprint lib retry_request
unfolding request_fingerprint validate_manual_retry_request request_digest
replay_print = refl

source-IsRooted : IsRooted with_source
unfolding lookup
source-IsRooted = record {
  retry_is_job = λ id l h. absurd (no_lineage id l h);
  root_is_job = λ id l h. absurd (no_lineage id l h);
  root_is_first = λ id l h. absurd (no_lineage id l h);
}
  where
    no_lineage :
        (id : String) (l : ManualRetryLineage) → lookup id (with_source.by_retry_job) ≡ some l → ⊥
    no_lineage id l h = cc

retry_once_example :
    create_manual_retry lib none second_request after_other
    ≡ (err manual_retry_source_already_retried, after_other)
retry_once_example =
    retry_once lib retry_request with_source first_retry failed-IsConsistent first_made refl between
      second_request (request_digest lib second_request) second_print refl refl second_unreviewed

retry_replay_example :
    create_manual_retry lib none replay_request
      (create_manual_retry lib none retry_request with_source).1
    ≡ (
      ok (record first_retry { created = false }),
      (create_manual_retry lib none retry_request with_source).1,
    )
retry_replay_example =
    retry_replay lib retry_request with_source first_retry first_made refl replay_request
      replay_print refl

create_manual_retry-IsRooted_example :
    IsRooted (create_manual_retry lib none retry_request with_source).1
create_manual_retry-IsRooted_example =
    create_manual_retry-IsRooted lib none retry_request with_source failed-IsConsistent
      source-IsRooted
