-- ===== src/Orchestration/Job/ManualRetry/Once.antt =====
-- Histories of the repository of manual retries (internal/orchestration/job/manual_retry_memory.go)
-- and of the job repository under it (memory.go): calls of both, in any order, with any arguments,
-- the failing ones included.
use control_center_stable.Prelude.{
  String, ◌≡◌, none, some, List, [], ◌∷◌, true, inl, inr, arith, eq_iff, ok, err, Context,
}
use control_center_stable.Prelude.Map.{lookup, map_laws}
use control_center_stable.Prelude.Library.{Library}
use control_center_stable.Orchestration.Job.Model.{Job, failed, manual_retry_source_already_retried}
use control_center_stable.Orchestration.Job.Consistent.{
  IsConsistent, Moves, Moves-IsConsistent, Moves-terminal,
}
use control_center_stable.Orchestration.Job.History
use control_center_stable.Orchestration.Job.History.{step-Moves}
use control_center_stable.Orchestration.Job.RetryRequest.{
  ManualRetryRequest, ManualRetryLineage, request_fingerprint,
}
use control_center_stable.Orchestration.Job.ManualRetry.{
  RetryRepository, Outcome, create_manual_retry, source_key, lineage_for,
}
use control_center_stable.Orchestration.Job.ManualRetry.Safety.{
  Retried, retried, source_kept, second_refused, eq_iff_self, create_manual_retry-Cases,
  create_manual_retry-Moves,
}

-- A call that may change the repositories: one of the job repository, or a manual retry.
pub data RetryCall : Type 0 where
  of_jobs : History.Call → RetryCall
  of_retries : Context → ManualRetryRequest → RetryCall

pub retry_step : Library → RetryCall → RetryRepository → RetryRepository
retry_step lib (of_jobs call) r = record r { jobs = History.step lib call r.jobs }
retry_step lib (of_retries ctx q) r = (create_manual_retry lib ctx q r).1

unfoldable pub run_retries : Library → List RetryCall → RetryRepository → RetryRepository
unfolding retry_step
run_retries lib [] r = r
run_retries lib (call ∷ calls) r = run_retries lib calls (retry_step lib call r)

retry_step-Moves :
    (lib : Library) (call : RetryCall) (r : RetryRepository)
    → IsConsistent lib r.jobs
    → Moves lib r.jobs (retry_step lib call r).jobs
unfolding retry_step
retry_step-Moves lib (of_jobs call) r c = step-Moves lib call r.jobs c
retry_step-Moves lib (of_retries ctx q) r c = create_manual_retry-Moves lib ctx q r c

-- A key among the retried sources stays there, with its lineage.
source_stays :
    (lib : Library) (call : RetryCall) (r : RetryRepository) (key : String)
    (known : ManualRetryLineage)
    → lookup key r.by_source ≡ some known
    → lookup key (retry_step lib call r).by_source ≡ some known
unfolding retry_step
source_stays lib (of_jobs call) r key known there = there
source_stays lib (of_retries ctx q) r key known there =
    elim (create_manual_retry-Cases lib q r ctx) [
      | inr (same, no_new) ↦ rw same there
      | inl t ↦ rw t.stored (
          simp map_laws (
            ground (
              arith,
              there,
              t.accepted.unretried,
              eq_iff (source_key lib t.source.id t.source.version) key,
            )))
    ]

-- The failed source stands in a consistent job repository, and its version is retried.
record IsSettled (lib : Library) (id : String) (source : Job) (known : ManualRetryLineage)
    (r : RetryRepository) : Type 0 where
  consistent : IsConsistent lib r.jobs
  at : lookup id r.jobs.jobs ≡ some source
  there : lookup (source_key lib source.id source.version) r.by_source ≡ some known

run_retries-IsSettled :
    (lib : Library) (id : String) (source : Job) (known : ManualRetryLineage)
    (calls : List RetryCall) (r : RetryRepository)
    → source.status ≡ failed
    → IsSettled lib id source known r
    → IsSettled lib id source known (run_retries lib calls r)
unfolding run_retries
run_retries-IsSettled lib id source known [] r over h = h
run_retries-IsSettled lib id source known (call ∷ calls) r over h =
    let ms = retry_step-Moves lib call r h.consistent in
    run_retries-IsSettled lib id source known calls (retry_step lib call r) over (record {
      consistent = Moves-IsConsistent h.consistent ms;
      at = Moves-terminal id source ms h.at (ground arith);
      there = source_stays lib call r (source_key lib source.id source.version) known h.there;
    })

module _ (lib : Library) (q : ManualRetryRequest) (r : RetryRepository) (o : Outcome)
    (c : IsConsistent lib r.jobs) (done : (create_manual_retry lib none q r).0 ≡ ok o)
    (made : o.created ≡ true) where
  create_manual_retry-IsSettled :
      (t : Retried lib q r (create_manual_retry lib none q r))
      → IsSettled lib q.source_job_id t.source
          (lineage_for q t.source r)
          (create_manual_retry lib none q r).1
  create_manual_retry-IsSettled t = record {
    consistent = Moves-IsConsistent c (create_manual_retry-Moves lib none q r c);
    at = source_kept lib q r o done made t;
    there =
        rw t.stored (
          simp map_laws
            (ground (arith, eq_iff_self (source_key lib t.source.id t.source.version))));
  }

  -- Where a call on a consistent job repository created a retry, no other admission gets a second
  -- retry of the same version of the same source job, after any calls in between, of the job
  -- repository and of manual retries: a valid request, whose context is not cancelled and whose
  -- reviewed admission is not known by then, is refused with
  -- `ErrManualRetrySourceAlreadyRetried`, and changes nothing.
  pub retry_once :
      (calls : List RetryCall) (q' : ManualRetryRequest) (print' : String)
      → request_fingerprint lib q' ≡ ok print'
      → q'.source_job_id ≡ q.source_job_id
      → q'.expected_source_version ≡ q.expected_source_version
      → lookup q'.reviewed_admission_id
          (run_retries lib calls (create_manual_retry lib none q r).1).by_admission
        ≡ none
      → create_manual_retry lib none q' (run_retries lib calls (create_manual_retry lib none q r).1)
        ≡ (
          err manual_retry_source_already_retried,
          run_retries lib calls (create_manual_retry lib none q r).1,
        )
  retry_once calls q' print' printed same version unreviewed =
      let t = retried lib q r o done made in
      let later = run_retries lib calls (create_manual_retry lib none q r).1 in
      let s =
        run_retries-IsSettled lib q.source_job_id t.source (lineage_for q t.source r) calls
          (create_manual_retry lib none q r).1 t.accepted.is_over
          (create_manual_retry-IsSettled t) in
      second_refused lib q' print' t.source later printed unreviewed (rw same s.at)
        (rw version t.accepted.version) t.accepted.is_over t.accepted.spent t.accepted.unleased
        (lineage_for q t.source r) s.there
