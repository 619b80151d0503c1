-- ===== src/Orchestration/Job/Timeline/Evidence.antt =====
-- The lifecycle of internal/orchestration/job/memory.go against the evidence of
-- internal/orchestration/job/timeline_transition.go.
use control_center_stable.Prelude.{
  ℕ, ◌+◌, ◌<◌, ◌≤◌, ◌≡◌, ◌≢◌, refl, Option, none, some, Bool, true, false, arith, eq_iff, ok, err,
  nat_eq, if◌then◌else◌, ◌&&◌,
}
use control_center_stable.Prelude.Time.{Time}
use control_center_stable.Prelude.Library.{Library}
use control_center_stable.Orchestration.Job.Model.{
  Status, queued, running, retry_wait, cancel_requested, cancelled, succeeded, failed, other, Job,
  CreateRequest, invalid_timeline_entry,
}
use control_center_stable.Orchestration.Job.Steps.{created_job, is_running}
use control_center_stable.Orchestration.Job.Lifecycle.{
  IsWellFormed, Evolves, Edge, start, retry, take_over, keep_running, keep_stopping, finish,
  back_off, give_up, ask_stop, stop_queued, stop_waiting, stop_running,
}
use control_center_stable.Orchestration.Job.TimelineEntries.{
  TimelineEvent, created, attempt_started, retry_scheduled, cancel_asked, was_cancelled,
  was_succeeded, was_failed, observed, TimelineEntry, not_canonical,
}
use control_center_stable.Orchestration.Job.Timeline.{
  timeline_entry, validated, entry_from_transition, entry_between, transition_event, entry_of_event,
}

-- The event that the new status of a job stands for.
abbrev pub event_for : Status → TimelineEvent
event_for queued = created
event_for running = attempt_started
event_for retry_wait = retry_scheduled
event_for cancel_requested = cancel_asked
event_for cancelled = was_cancelled
event_for succeeded = was_succeeded
event_for failed = was_failed
event_for (other s) = observed

-- The evidence of an edge: none where a running job starts no attempt, and otherwise the event of
-- the new status, with the attempt, the version and the time of the job after it.
abbrev pub evidence : Job → Job → Option TimelineEntry
evidence j k =
    if is_running k.status && nat_eq k.attempt j.attempt
    then none
    else some (timeline_entry k (event_for k.status))

-- An edge that does not renew the lease of a job that is asked to stop has the event that its new
-- status stands for.
Edge-event :
    {s t : Status} {n m : ℕ}
    → Edge s n t m
    → (s ≡ cancel_requested → t ≢ cancel_requested)
    → transition_event s t (nat_eq m n) (nat_eq m (n + 1))
      ≡ ok (if is_running t && nat_eq m n then none else some (event_for t))
unfolding transition_event
Edge-event (start h) ne = ground arith
Edge-event (retry h) ne = ground arith
Edge-event (take_over h) ne = ground arith
Edge-event (keep_running h) ne = ground arith
Edge-event (keep_stopping h) ne = absurd (ne refl refl)
Edge-event (finish h) ne = ground arith
Edge-event (back_off h) ne = ground arith
Edge-event (give_up h) ne = ground arith
Edge-event (ask_stop h) ne = ground arith
Edge-event (stop_queued h) ne = ground arith
Edge-event (stop_waiting h) ne = ground arith
Edge-event (stop_running h) ne = ground arith

-- The statuses that an edge leads to.
abbrev is_begun : Status → Bool
is_begun queued = false
is_begun (other s) = false
is_begun _ = true

-- What an edge says of the attempts and of the new status.
record EdgeFacts (t : Status) (n m : ℕ) : Type 0 where
  begun : is_begun t ≡ true
  not_less : n ≤ m
  at_most_next : m ≤ n + 1

edge_facts : {s t : Status} {n m : ℕ} → Edge s n t m → EdgeFacts t n m
edge_facts (start h) = ground arith
edge_facts (retry h) = ground arith
edge_facts (take_over h) = ground arith
edge_facts (keep_running h) = ground arith
edge_facts (keep_stopping h) = ground arith
edge_facts (finish h) = ground arith
edge_facts (back_off h) = ground arith
edge_facts (give_up h) = ground arith
edge_facts (ask_stop h) = ground arith
edge_facts (stop_queued h) = ground arith
edge_facts (stop_waiting h) = ground arith
edge_facts (stop_running h) = ground arith

module _ (lib : Library) (k : Job) (canonical : not_canonical lib k.id ≡ false)
    (versioned : 0 < k.version) (timed : 0 < k.updated_at) where
  -- The entry of a complete job passes the validation.
  validated_entry :
      is_begun k.status ≡ true
      → validated lib (timeline_entry k (event_for k.status))
        ≡ ok (some (timeline_entry k (event_for k.status)))
  unfolding validated
  validated_entry begun = ground arith

  -- Where the job's ID is canonical (not empty, and with no space around it) and the job has a time
  -- before the edge and, after it, a version and a time, every edge of the lifecycle to a
  -- well-formed job, at a time no earlier than the job's last one and with a version that does not
  -- wrap, is accepted as evidence: the entry has the event that the new status stands for, and there
  -- is none where a running job starts no attempt. The one edge left out is the renewal of the lease
  -- of a job that is asked to stop.
  pub entry_from_transition-evidence :
      (now : Time) (j : Job)
      → IsWellFormed k
      → Evolves now j k
      → j.version < k.version
      → 0 < j.updated_at
      → j.updated_at ≤ now
      → (j.status ≡ cancel_requested → k.status ≢ cancel_requested)
      → entry_from_transition lib (some j) k ≡ ok (evidence j k)
  unfolding entry_from_transition entry_between entry_of_event
  entry_from_transition-evidence now j w e newer started ordered ne =
      let f = edge_facts e.edge in
      ground (
        arith,
        validated_entry f.begun,
        Edge-event e.edge ne,
        eq_iff j.id k.id,
        f.begun,
        f.not_less,
        f.at_most_next,
      )

  -- Under the same conditions (a canonical ID, a time before the edge, a version and a time after it,
  -- a well-formed job, no earlier time and no version that wraps) the renewal of the lease of a job
  -- that is asked to stop, which `RenewLease` makes, is refused as evidence, though it changes
  -- neither status nor attempt.
  pub entry_from_transition-stopping :
      (now : Time) (j : Job)
      → IsWellFormed k
      → Evolves now j k
      → j.version < k.version
      → 0 < j.updated_at
      → j.updated_at ≤ now
      → j.status ≡ cancel_requested
      → k.status ≡ cancel_requested
      → entry_from_transition lib (some j) k
        ≡ err (invalid_timeline_entry "cancel request requires a running attempt")
  unfolding entry_from_transition entry_between entry_of_event transition_event
  entry_from_transition-stopping now j w e newer started ordered from to =
      let f = edge_facts e.edge in ground (arith, eq_iff j.id k.id, f.not_less, f.at_most_next)

-- A created job with a time and a canonical ID has the evidence of its creation.
pub entry_from_transition-created :
    (lib : Library) (request : CreateRequest)
    → not_canonical lib request.id ≡ false
    → 0 < request.now
    → 0 < request.max_attempts
    → entry_from_transition lib none (created_job request)
      ≡ ok (some (timeline_entry (created_job request) created))
unfolding entry_from_transition entry_between validated
entry_from_transition-created lib request canonical timed positive = ground arith
