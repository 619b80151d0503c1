-- ===== src/Orchestration/Job/ManualRetry/Safety.antt =====
-- What `CreateManualRetry` of internal/orchestration/job/manual_retry_memory.go promises.
use control_center_stable.Prelude.{
  ◌≤◌, String, ◌≡◌, refl, Option, none, some, Bool, true, false, not, ◌||◌, arith, eq_iff, ok, err,
  Context, nat_eq, ltb, ◌==◌, Bool-cases, Option-cases, Result-cases, inl, inr, ◌⊎◌, Result,
}
use control_center_stable.Prelude.Map.{lookup, map_laws}
use control_center_stable.Prelude.Library.{Library}
use control_center_stable.Orchestration.Job.Model.{
  Error, failed, Job, version_conflict, manual_retry_source_already_retried, message,
  manual_retry_source_not_failed, idempotency_conflict,
}
use control_center_stable.Orchestration.Job.Steps.{created_job}
use control_center_stable.Orchestration.Job.Consistent.{IsConsistent, Moves, here, next, admit}
use control_center_stable.Orchestration.Job.RetryRequest.{
  ManualRetryRequest, ManualRetryLineage, request_fingerprint,
}
use control_center_stable.Orchestration.Job.ManualRetry.{
  RetryRecord, RetryRepository, Outcome, create_manual_retry, retry_locked, retry_source, replay,
  source_key, store_retry, lineage_for, retry_create_request, is_failed, is_some,
}

-- The source and the identifiers of a request allow a retry.
pub record Accepted (lib : Library) (q : ManualRetryRequest) (source : Job) (r : RetryRepository)
    : Type 0 where
  pub version : source.version ≡ q.expected_source_version
  pub is_over : source.status ≡ failed
  pub spent : source.max_attempts ≤ source.attempt
  pub unleased : source.lease ≡ none
  pub unretried : lookup (source_key lib source.id source.version) r.by_source ≡ none
  pub fresh : lookup q.retry_job_id r.jobs.jobs ≡ none
  pub unused : lookup q.retry_idempotency_key r.jobs.idempotency ≡ none

abbrev result_of : ManualRetryRequest → Job → RetryRepository → Outcome
result_of q source r = record {
  retry = created_job (retry_create_request q source);
  lineage = lineage_for q source r;
  created = true;
}

is_some-none {ℓ} : {A : Type ℓ} (o : Option A) → is_some o ≡ false → o ≡ none
is_some-none none h = refl
is_some-none (some a) h = absurd (true_false h)
  where
    true_false : true ≡ false → ⊥
    true_false e = cc

abbrev not_retryable : Job → Bool
not_retryable source =
    not (is_failed source.status) || ltb source.attempt source.max_attempts || is_some source.lease

failed_of : (j : Job) → not_retryable j ≡ false → j.status ≡ failed
failed_of j h = ground arith

spent_of : (j : Job) → not_retryable j ≡ false → j.max_attempts ≤ j.attempt
spent_of j h = ground arith

unleased_of : (j : Job) → not_retryable j ≡ false → j.lease ≡ none
unleased_of j h = ground arith

module _ (lib : Library) (q : ManualRetryRequest) (print : String) (source : Job)
    (r : RetryRepository) where
  -- The checks on the source and the identifiers decide the call: it stores the retry, or it is an
  -- error and changes nothing.
  retry_source_cases :
      (Accepted lib q source r
        × (retry_source lib q print source r
            ≡ (ok (result_of q source r), store_retry lib q print source r)))
      ⊎ ((e : Error) × (retry_source lib q print source r ≡ (err e, r)))
  unfolding retry_source
  retry_source_cases = elim (Bool-cases (nat_eq source.version q.expected_source_version)) [
    | inr stale ↦ inr (version_conflict, rw stale)
    | inl current ↦ elim (Bool-cases (not_retryable source)) [
      | inl busy ↦ inr (manual_retry_source_not_failed, rw (current, busy))
      | inr over ↦
          elim (Bool-cases
            (is_some (lookup (source_key lib source.id source.version) r.by_source))) [
              | inl again ↦ inr (manual_retry_source_already_retried, rw (current, over, again))
              | inr first ↦ elim (Bool-cases (is_some (lookup q.retry_job_id r.jobs.jobs))) [
                | inl taken ↦
                    inr (message "retry job id already exists", rw (current, over, first, taken))
                | inr free ↦
                    elim (Bool-cases
                      (is_some (lookup q.retry_idempotency_key r.jobs.idempotency))) [
                        | inl used ↦
                            inr (idempotency_conflict, rw (current, over, first, free, used))
                        | inr unused ↦ inl (
                          record {
                            version = ground arith;
                            is_over = failed_of source over;
                            spent = spent_of source over;
                            unleased = unleased_of source over;
                            unretried = is_some-none _ first;
                            fresh = is_some-none _ free;
                            unused = is_some-none _ unused;
                          },
                          rw (current, over, first, free, unused),
                        )
                      ]
              ]
            ]
    ]
  ]

-- A call that made a retry, and what it did.
pub record Retried (lib : Library) (q : ManualRetryRequest) (r : RetryRepository)
    (call : Result Error Outcome × RetryRepository) : Type 0 where
  pub print : String
  pub printed : request_fingerprint lib q ≡ ok print
  pub unreviewed : lookup q.reviewed_admission_id r.by_admission ≡ none
  pub source : Job
  pub at : lookup q.source_job_id r.jobs.jobs ≡ some source
  pub accepted : Accepted lib q source r
  pub returned : call.0 ≡ ok (result_of q source r)
  pub stored : call.1 ≡ store_retry lib q print source r

module _ (lib : Library) (q : ManualRetryRequest) (r : RetryRepository) where
  abbrev call : Result Error Outcome × RetryRepository
  call = create_manual_retry lib none q r

  -- A call makes a retry, or it changes nothing and creates nothing.
  abbrev Cases : Result Error Outcome × RetryRepository → Type 0
  Cases c = Retried lib q r c ⊎ ((c.1 ≡ r) × ((o : Outcome) → c.0 ≡ ok o → o.created ≡ false))

  replay-Cases : (print : String) (existing : RetryRecord) → Cases (replay print existing r)
  replay-Cases print existing = elim (Bool-cases (existing.fingerprint == print)) [
    | inr differs ↦ rw differs (inr (refl, λ o h. cc))
    | inl same ↦ rw same (elim (Option-cases (lookup existing.lineage.retry_job_id r.jobs.jobs)) [
      | inl gone ↦ rw gone (inr (refl, λ o h. cc))
      | inr (j, e) ↦ rw e (inr (refl, λ o h. ground arith))
    ])
  ]

  pub create_manual_retry-Cases : (ctx : Context) → Cases (create_manual_retry lib ctx q r)
  unfolding create_manual_retry retry_locked
  create_manual_retry-Cases (some e) = inr (refl, λ o h. cc)
  create_manual_retry-Cases none = elim (Result-cases (request_fingerprint lib q)) [
    | inr (e, refused) ↦ rw refused (inr (refl, λ o h. cc))
    | inl (print, printed) ↦
        rw printed (elim (Option-cases (lookup q.reviewed_admission_id r.by_admission)) [
          | inr (existing, e) ↦ rw (e, retry_locked) (replay-Cases print existing)
          | inl unreviewed ↦
              rw (unreviewed, retry_locked)
                (elim (Option-cases (lookup q.source_job_id r.jobs.jobs)) [
                  | inl gone ↦ rw gone (inr (refl, λ o h. cc))
                  | inr (source, at) ↦ rw at (elim (retry_source_cases lib q print source r) [
                    | inr (e, refused) ↦ rw refused (inr (refl, λ o h. cc))
                    | inl (accepted, result) ↦ rw result (
                        inl (record {
                          print = print;
                          printed = printed;
                          unreviewed = unreviewed;
                          source = source;
                          at = at;
                          accepted = accepted;
                          returned = refl;
                          stored = refl;
                        }))
                  ])
                ])
        ])
  ]

-- On a consistent job repository a manual retry, whatever it returns, admits a job or changes
-- nothing, so the repository stays consistent; and the source job, like every other terminal job,
-- is left as it is.
pub create_manual_retry-Moves :
    (lib : Library) (ctx : Context) (q : ManualRetryRequest) (r : RetryRepository)
    → IsConsistent lib r.jobs
    → Moves lib r.jobs (create_manual_retry lib ctx q r).1.jobs
create_manual_retry-Moves lib ctx q r c = elim (create_manual_retry-Cases lib q r ctx) [
  | inr (same, no_new) ↦ rw same here
  | inl t ↦
      let w = c.well_formed q.source_job_id t.source t.at in
      rw t.stored (
        next here (
          admit (retry_create_request q t.source) t.accepted.fresh t.accepted.unused w.positive
            refl))
]

true_not_false : (b : Bool) → b ≡ true → b ≡ false → ⊥
true_not_false b h k = cc

pub eq_iff_self : (s : String) → (s == s) ≡ true
eq_iff_self s = (eq_iff s s).1 refl

-- A request for a version of a source that has its retry is refused.
pub second_refused :
    (lib : Library) (q : ManualRetryRequest) (print : String) (source : Job) (r : RetryRepository)
    → request_fingerprint lib q ≡ ok print
    → lookup q.reviewed_admission_id r.by_admission ≡ none
    → lookup q.source_job_id r.jobs.jobs ≡ some source
    → source.version ≡ q.expected_source_version
    → source.status ≡ failed
    → source.max_attempts ≤ source.attempt
    → source.lease ≡ none
    → (known : ManualRetryLineage)
    → lookup (source_key lib source.id source.version) r.by_source ≡ some known
    → create_manual_retry lib none q r ≡ (err manual_retry_source_already_retried, r)
unfolding create_manual_retry retry_locked retry_source
second_refused lib q print source r printed unreviewed at version over spent unleased known there =
    rw (printed, unreviewed, retry_locked) (rw (at, there, unleased) (ground arith))

outcome_of : {p o : Outcome} (c : Result Error Outcome) → c ≡ ok p → c ≡ ok o → p ≡ o
outcome_of c h k = cc

replayed :
    (lib : Library) (q : ManualRetryRequest) (print : String) (r : RetryRepository) (retry : Job)
    (lineage : ManualRetryLineage)
    → request_fingerprint lib q ≡ ok print
    → lookup q.reviewed_admission_id r.by_admission
      ≡ some (record { fingerprint = print; lineage = lineage })
    → lookup lineage.retry_job_id r.jobs.jobs ≡ some retry
    → create_manual_retry lib none q r
      ≡ (ok (record { retry = retry; lineage = lineage; created = false }), r)
unfolding create_manual_retry retry_locked
replayed lib q print r retry lineage printed there at =
    rw (printed, there, retry_locked) (rw (eq_iff_self print, at))

module _ (lib : Library) (q : ManualRetryRequest) (r : RetryRepository) (o : Outcome)
    (done : (create_manual_retry lib none q r).0 ≡ ok o) (made : o.created ≡ true) where
  -- A call that says that it created a retry did so.
  pub retried : Retried lib q r (create_manual_retry lib none q r)
  retried = elim (create_manual_retry-Cases lib q r none) [
    | inl t ↦ t
    | inr (same, no_new) ↦ absurd (true_not_false o.created made (no_new o done))
  ]

  -- The source job of a retry stands in the job repository as before.
  pub source_kept :
      (t : Retried lib q r (create_manual_retry lib none q r))
      → lookup q.source_job_id (create_manual_retry lib none q r).1.jobs.jobs ≡ some t.source
  source_kept t = rw t.stored (
      simp map_laws (ground (arith, eq_iff q.retry_job_id q.source_job_id, t.at, t.accepted.fresh)))

  -- The same reviewed admission with the same fingerprint, which leaves out the time and the
  -- revalidation, is a replay: it returns the retry and the lineage that were created, as not
  -- created, and changes nothing.
  pub retry_replay :
      (q' : ManualRetryRequest)
      → request_fingerprint lib q' ≡ request_fingerprint lib q
      → q'.reviewed_admission_id ≡ q.reviewed_admission_id
      → create_manual_retry lib none q' (create_manual_retry lib none q r).1 ≡ (
        ok (record { retry = o.retry; lineage = o.lineage; created = false }),
        (create_manual_retry lib none q r).1,
      )
  retry_replay q' same admission =
      let t = retried in
      let p : result_of q t.source r ≡ o =
        outcome_of (create_manual_retry lib none q r).0 t.returned done in
      rw (← p) (
        replayed lib q' t.print (create_manual_retry lib none q r).1
          (created_job (retry_create_request q t.source)) (lineage_for q t.source r)
          (rw same t.printed)
          (rw (admission, t.stored) (simp map_laws (rw (eq_iff_self q.reviewed_admission_id))))
          (rw t.stored (simp map_laws (rw (eq_iff_self q.retry_job_id)))))
