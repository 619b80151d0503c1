-- ===== src/Orchestration/Job/ManualRetry/Roots.antt =====
-- Lineages of manual retries (internal/orchestration/job/manual_retry_memory.go): a retry of a
-- retry keeps the root.
use control_center_stable.Prelude.{
  String, ◌≡◌, ◌≢◌, ap, ◌∙◌, none, some, arith, eq_iff, Context, inl, inr, Option-cases,
}
use control_center_stable.Prelude.Map.{lookup, map_laws}
use control_center_stable.Prelude.Library.{Library}
use control_center_stable.Orchestration.Job.Model.{Job}
use control_center_stable.Orchestration.Job.Consistent.{IsConsistent}
use control_center_stable.Orchestration.Job.RetryRequest.{ManualRetryRequest, ManualRetryLineage}
use control_center_stable.Orchestration.Job.ManualRetry.{
  RetryRepository, create_manual_retry, store_retry, root_of,
}
use control_center_stable.Orchestration.Job.ManualRetry.Safety.{create_manual_retry-Cases}

-- Every retry is a job, and the root of its lineage is a job that is no retry itself.
pub record IsRooted (r : RetryRepository) : Type 0 where
  pub retry_is_job :
      (id : String) (l : ManualRetryLineage)
      → lookup id r.by_retry_job ≡ some l
      → lookup id r.jobs.jobs ≢ none
  pub root_is_job :
      (id : String) (l : ManualRetryLineage)
      → lookup id r.by_retry_job ≡ some l
      → lookup l.root_job_id r.jobs.jobs ≢ none
  pub root_is_first :
      (id : String) (l : ManualRetryLineage)
      → lookup id r.by_retry_job ≡ some l
      → lookup l.root_job_id r.by_retry_job ≡ none

module _ (lib : Library) (q : ManualRetryRequest) (r : RetryRepository) (h : IsRooted r) where
  -- The root of the next lineage of a source job.
  root_of_is_job :
      (id : String) (j : Job)
      → lookup id r.jobs.jobs ≡ some j
      → lookup (root_of id (lookup id r.by_retry_job)) r.jobs.jobs ≢ none
  root_of_is_job id j at = elim (Option-cases (lookup id r.by_retry_job)) [
    | inl first ↦ rw first (λ e. cc)
    | inr (l, e) ↦ rw e (h.root_is_job id l e)
  ]

  root_of_is_first :
      (id : String) → lookup (root_of id (lookup id r.by_retry_job)) r.by_retry_job ≡ none
  root_of_is_first id = elim (Option-cases (lookup id r.by_retry_job)) [
    | inl first ↦ rw first first
    | inr (l, e) ↦ rw e (h.root_is_first id l e)
  ]

  store_retry-IsRooted :
      (print : String) (source : Job)
      → lookup source.id r.jobs.jobs ≡ some source
      → lookup q.retry_job_id r.jobs.jobs ≡ none
      → IsRooted (store_retry lib q print source r)
  store_retry-IsRooted print source at fresh =
      let root = root_of source.id (lookup source.id r.by_retry_job) in
      let is_job = root_of_is_job source.id source at in
      let is_first = root_of_is_first source.id in
      record {
        retry_is_job =
            λ id l. simp map_laws (ground (arith, h.retry_is_job id l, eq_iff q.retry_job_id id));
        root_is_job = λ id l. simp map_laws (ground (arith, h.root_is_job id l, is_job));
        root_is_first = λ id l. simp map_laws (
            ground (
              arith,
              h.root_is_first id l,
              h.root_is_job id l,
              is_job,
              is_first,
              fresh,
              eq_iff q.retry_job_id root,
              eq_iff q.retry_job_id l.root_job_id,
            ));
      }

-- A manual retry, whatever it returns, keeps that every retry is a job and that the root of its
-- lineage is a job which is no retry itself.
pub create_manual_retry-IsRooted :
    (lib : Library) (ctx : Context) (q : ManualRetryRequest) (r : RetryRepository)
    → IsConsistent lib r.jobs
    → IsRooted r
    → IsRooted (create_manual_retry lib ctx q r).1
create_manual_retry-IsRooted lib ctx q r c h = elim (create_manual_retry-Cases lib q r ctx) [
  | inr (same, no_new) ↦ rw same h
  | inl t ↦
      let named : t.source.id ≡ q.source_job_id = c.named q.source_job_id t.source t.at in
      rw t.stored (
        store_retry-IsRooted lib q r h t.print t.source
          (ap (λ (i : String). lookup i r.jobs.jobs) named ∙ t.at) t.accepted.fresh)
]
