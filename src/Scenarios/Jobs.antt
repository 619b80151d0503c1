-- ===== src/Scenarios/Jobs.antt =====
-- The theorems on the job repository, its timeline and its delays, at a job that one worker runs.
use Prim.Native.Nat.{min}
use control_center_stable.Prelude.{
  ◌+◌, ◌-◌, ◌*◌, ◌^◌, String, ◌≡◌, ◌≢◌, refl, none, some, [], ◌∷◌, false, arith, ok, err,
}
use control_center_stable.Prelude.Map.{lookup, insert}
use control_center_stable.Prelude.Time.{pos, negsuc}
use control_center_stable.Prelude.Library.{concat, text_before}
use control_center_stable.Orchestration.Job.Model.{
  Job, CreateRequest, cancelled, idempotency_conflict, invalid_timeline_entry,
}
use control_center_stable.Orchestration.Job.Steps.{
  visit, complete, record_failure, request_stop, renew, start_attempt, lease_token, fingerprint,
  retry_delay,
}
use control_center_stable.Orchestration.Job.Memory.{
  new_repository, create, claim, succeed, fail, request_cancel, request_cancel_if_version, save,
}
use control_center_stable.Orchestration.Job.Lifecycle.{
  IsWellFormed, Evolves, visit_claim-Evolves, renew-IsWellFormed, renew-Evolves,
  request_stop-IsWellFormed,
}
use control_center_stable.Orchestration.Job.Consistent.{IsConsistent, request_of}
use control_center_stable.Orchestration.Job.History.{
  creates, claims, cancels, run, run-IsConsistent, run-terminal, run-Follows, Follows,
}
use control_center_stable.Orchestration.Job.Claims.{
  claimable, HandsOut, claim-HandsOut, claim-leased,
}
use control_center_stable.Orchestration.Job.Leases.{
  Holds, Fenced, leased_calls-Fenced, takeover-Fenced, cancel_wins, cancel_version,
}
use control_center_stable.Orchestration.Job.Idempotence.{IsValid, create_repeated, create_conflict}
use control_center_stable.Orchestration.Job.Delay.{retry_delay-min, retry_delay_overflow}
use control_center_stable.Orchestration.Job.TimelineEntries.{
  created, attempt_started, validate_timeline_entry, not_canonical,
}
use control_center_stable.Orchestration.Job.Timeline.{
  TimelineRepository, timeline_entry, entry_from_transition, append,
}
use control_center_stable.Orchestration.Job.Timeline.Evidence.{
  entry_from_transition-evidence, entry_from_transition-stopping,
}
use control_center_stable.Orchestration.Job.Timeline.AppendOnly.{
  entry_at, Appended, append-Appended,
}
use control_center_stable.Scenarios.Setup.{
  lib, request, output, policy, queued_job, running_job, failed_job, token, with_queued,
  with_running, with_failed, queued-IsConsistent, running-IsConsistent, failed-IsConsistent,
  queued_found, running_found, failed_found, texts_differ,
}

run-IsConsistent_example :
    IsConsistent lib (run lib (creates none request ∷ cancels none "j1" 9 ∷ []) new_repository)
run-IsConsistent_example = run-IsConsistent lib (creates none request ∷ cancels none "j1" 9 ∷ [])

run-terminal_example :
    lookup "j1" (run lib (cancels none "j1" 30 ∷ []) with_failed).jobs ≡ some failed_job
run-terminal_example =
    run-terminal lib (cancels none "j1" 30 ∷ []) with_failed "j1" failed_job failed-IsConsistent
      failed_found refl

run-Follows_example :
    Follows queued_job (lookup "j1" (run lib (claims none "w1" 10 (pos 100) ∷ []) with_queued).jobs)
run-Follows_example =
    run-Follows lib (claims none "w1" 10 (pos 100) ∷ []) with_queued "j1" queued_job
      queued-IsConsistent queued_found

named : ◌≢◌ {A = String} "w1" ""
named = texts_differ "w1" "" refl

nonempty : ◌≢◌ {A = String} "no answer" ""
nonempty = texts_differ "no answer" "" refl

claim-HandsOut_example :
    HandsOut lib "w1" 10
      (pos 100)
      with_queued
      queued_job
      (claim lib none "w1" 10 (pos 100) with_queued)
unfolding claimable
claim-HandsOut_example =
    claim-HandsOut lib "w1" 10 (pos 100) with_queued "j1" queued_job named (omega arith) refl
      queued_found refl

claim-leased_example :
    lookup "j1" (claim lib none "w2" 50 (pos 100) with_running).1.jobs ≡ some running_job
claim-leased_example =
    claim-leased lib "w2" 50 (pos 100) none with_running "j1" running_job
      (record { token = token; worker_id = "w1"; expires_at = 110 }) running_found refl
      (unfold lease_token concat in refl) (omega arith)

running_held : Holds running_job token 50
unfolding lease_token concat
running_held = (refl, (refl, omega arith))

not_held : ¬ Holds running_job "stale" 50
unfolding lease_token concat
not_held h = texts_differ token "stale" refl h.1.0

leased_calls-Fenced_example :
    Fenced with_running "j1" "stale" 50 (pos 100) output "no answer" policy
leased_calls-Fenced_example =
    leased_calls-Fenced with_running "j1" running_job running_found "stale" 50 (pos 100) output
      "no answer" policy refl nonempty not_held

abbrev handed :
    HandsOut lib "w1" 10
      (pos 100)
      with_queued
      queued_job
      (claim lib none "w1" 10 (pos 100) with_queued)
unfolding run create claim lookup insert text_before claimable
handed = record {
  holder = "j1";
  found = queued_job;
  at = refl;
  was_claimable = refl;
  oldest = refl;
  returned = refl;
  stored = refl;
}

other_token : lease_token lib (start_attempt queued_job 10) "w1" 10 ≢ "stale"
unfolding lease_token concat
other_token = texts_differ token "stale" refl

takeover-Fenced_example :
    Fenced
      (claim lib none "w1" 10 (pos 100) with_queued).1
      "j1"
      "stale"
      20
      (pos 7)
      output
      "no answer"
      policy
unfolding handed
takeover-Fenced_example =
    takeover-Fenced lib "w1" "stale" 10 20 (pos 100) (pos 7) output "no answer" policy with_queued
      queued_job handed other_token refl nonempty

cancel_wins_example :
    let r' = (request_cancel none "j1" 40 with_running).1 in
    let k = complete (request_stop running_job 40) output 50 in
    let l = record_failure (request_stop running_job 40) "no answer" output policy 50 in
    (succeed none "j1" token output 50 r' ≡ (ok k, save "j1" k r'))
    × (fail none "j1" token "no answer" output policy 50 r' ≡ (ok l, save "j1" l r'))
    × (k.status ≡ cancelled)
    × (k.output ≡ none)
    × (l.status ≡ cancelled)
cancel_wins_example =
    cancel_wins with_running "j1" token running_job 40 50 output "no answer" policy running_found
      refl running_held nonempty

cancel_version_example :
    request_cancel_if_version none "j1" 2 40 with_running ≡ request_cancel none "j1" 40 with_running
cancel_version_example =
    cancel_version with_running "j1" running_job running_found 40 2 (omega arith)

claimed : Evolves 10 queued_job running_job
claimed =
    visit_claim-Evolves lib "w1" 10 (pos 100) queued_job running_job
      (queued-IsConsistent.well_formed "j1" queued_job queued_found) (unfold visit in refl)

IsValid-request : IsValid lib request
IsValid-request = record { identified = refl; filled = refl; scheduled = refl }

abbrev changed_request : CreateRequest
changed_request = record request { input = "[]" }

IsValid-changed : IsValid lib changed_request
IsValid-changed = record { identified = refl; filled = refl; scheduled = refl }

create_repeated_example :
    create lib none request with_running ≡ (ok (running_job, false), with_running)
create_repeated_example =
    create_repeated lib with_running running-IsConsistent request IsValid-request "j1" running_job
      running_found refl refl

other_fingerprint : fingerprint lib changed_request ≢ fingerprint lib (request_of running_job)
unfolding fingerprint concat
other_fingerprint =
    texts_differ (fingerprint lib changed_request) (fingerprint lib (request_of running_job)) refl

create_conflict_example :
    create lib none changed_request with_running ≡ (err idempotency_conflict, with_running)
create_conflict_example =
    create_conflict lib with_running running-IsConsistent changed_request IsValid-changed "j1"
      running_job running_found refl other_fingerprint

retry_delay-min_example :
    retry_delay 3 (record { base_delay = pos 1000000000; max_delay = pos 60000000000 })
    ≡ pos (min 60000000000 (1000000000 * 2 ^ (3 - 1)))
retry_delay-min_example =
    retry_delay-min 3 1000000000 60000000000 (omega arith) (omega arith) (omega arith)
      (λ k e. omega (arith, e))

retry_delay_overflow_example :
    retry_delay (4 + 2) (record { base_delay = pos 288230376151711744; max_delay = pos 1000 })
    ≡ negsuc 9223372036854775807
retry_delay_overflow_example = retry_delay_overflow 4 288230376151711744 (pos 1000) refl

canonical : not_canonical lib "j1" ≡ false
unfolding not_canonical
canonical = refl

entry_from_transition-evidence_example :
    entry_from_transition lib (some queued_job) running_job
    ≡ ok (some (timeline_entry running_job attempt_started))
entry_from_transition-evidence_example =
    entry_from_transition-evidence lib running_job canonical (omega arith) (omega arith) 10
      queued_job (running-IsConsistent.well_formed "j1" running_job running_found) claimed
      (omega arith) (omega arith) (omega arith) (λ e. cc)

abbrev stopping_job : Job
stopping_job = request_stop running_job 12

stopping-IsWellFormed : IsWellFormed stopping_job
stopping-IsWellFormed =
    request_stop-IsWellFormed running_job 12
      (running-IsConsistent.well_formed "j1" running_job running_found) refl

entry_from_transition-stopping_example :
    entry_from_transition lib (some stopping_job) (renew stopping_job 15 (pos 100))
    ≡ err (invalid_timeline_entry "cancel request requires a running attempt")
entry_from_transition-stopping_example =
    entry_from_transition-stopping lib (renew stopping_job 15 (pos 100)) canonical (omega arith)
      (omega arith) 15 stopping_job
      (renew-IsWellFormed stopping_job 15 stopping-IsWellFormed refl (pos 100))
      (renew-Evolves stopping_job 15 stopping-IsWellFormed refl (pos 100)) (omega arith)
      (omega arith) (omega arith) refl refl

abbrev recorded : TimelineRepository
recorded = record { entries = ("j1", (1, timeline_entry queued_job created) ∷ []) ∷ [] }

append-Appended_example :
    Appended recorded
      (timeline_entry running_job attempt_started)
      (entry_at recorded "j1" 2)
      (append lib none (timeline_entry running_job attempt_started) recorded)
append-Appended_example =
    append-Appended lib recorded (timeline_entry running_job attempt_started)
      (unfold validate_timeline_entry not_canonical in refl)
