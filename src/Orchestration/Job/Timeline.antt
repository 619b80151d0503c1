-- ===== src/Orchestration/Job/Timeline.antt =====
-- internal/orchestration/job/timeline_transition.go and timeline_memory.go: lifecycle evidence of a
-- job.
-- `TimelineEntryFromTransition` returns an entry, whether there is one, and an error; an error
-- voids the entry, so the result is an error or an optional entry.
pub mod Evidence
pub mod AppendOnly
use control_center_stable.Prelude.{
  ℕ, suc, ◌+◌, String, Option, none, some, List, [], ◌∷◌, Bool, true, false, not, ◌&&◌, ◌||◌, ltb,
  leb, nat_eq, ◌==◌, if◌then◌else◌, Result, ok, err, Exec, Context, ◌>>=◌, ◌>>◌, pure, lift, gets,
  reject_if, modify, check_context,
}
use control_center_stable.Prelude.Map.{Map, empty, lookup, insert}
use control_center_stable.Prelude.Time.{Time, is_zero, before}
use control_center_stable.Prelude.Library.{Library, sort_slice}
use control_center_stable.Orchestration.Job.Model.{
  Error, timeline_conflict, invalid_timeline_entry, context, Status, queued, running, retry_wait,
  cancel_requested, cancelled, succeeded, failed, other, status_eq, Job,
}
use control_center_stable.Orchestration.Job.Steps.{is_queued, is_running}
use control_center_stable.Orchestration.Job.TimelineEntries.{
  TimelineEntry, TimelineEvent, attempt_started, cancel_asked, created, event_matches_status,
  is_creation, not_canonical, observed, retry_scheduled, unknown, valid_timeline_status,
  validate_timeline_entry, was_cancelled, was_failed, was_succeeded,
}

-- `timelineEntry`
abbrev pub timeline_entry : Job → TimelineEvent → TimelineEntry
timeline_entry source event = record {
  job_id = source.id;
  event = event;
  status = source.status;
  attempt = source.attempt;
  job_version = source.version;
  occurred_at = source.updated_at;
}

abbrev invalid : String → Result Error (Option TimelineEvent)
invalid text = err (invalid_timeline_entry text)

-- The `switch` on the status after the transition; `same` is whether the attempt is the same, and
-- `next` whether it is the next one.
unfoldable pub transition_event :
    Status → Status → Bool → Bool → Result Error (Option TimelineEvent)
transition_event source running same next =
    if not next
    then if is_running source && same
      then ok none
      else invalid "running transition must start exactly one attempt"
    else elim source [
      | queued ↦ ok (some attempt_started)
      | retry_wait ↦ ok (some attempt_started)
      | running ↦ ok (some attempt_started)
      | _ ↦ invalid "cannot start attempt"
    ]
transition_event source retry_wait same next =
    if not (is_running source) || not same
    then invalid "retry scheduling requires a running attempt"
    else ok (some retry_scheduled)
transition_event source cancel_requested same next =
    if not (is_running source) || not same
    then invalid "cancel request requires a running attempt"
    else ok (some cancel_asked)
transition_event source cancelled same next = elim source [
  | queued ↦ ok (some was_cancelled)
  | retry_wait ↦ ok (some was_cancelled)
  | running ↦ ok (some was_cancelled)
  | cancel_requested ↦ ok (some was_cancelled)
  | _ ↦ invalid "cannot cancel"
]
transition_event source succeeded same next =
    if not (is_running source) || not same
    then invalid "success requires the current running attempt"
    else ok (some was_succeeded)
transition_event source failed same next = elim source [
  | queued ↦ ok (some was_failed)
  | retry_wait ↦ ok (some was_failed)
  | running ↦ ok (some was_failed)
  | _ ↦ invalid "cannot fail"
]
transition_event source target same next =
    if status_eq target source
    then if not same then invalid "state-neutral transition changed attempt" else ok none
    else invalid "unsupported transition"

-- `return entry, true, ValidateTimelineEntry(entry)`
unfoldable pub validated : Library → TimelineEntry → Result Error (Option TimelineEntry)
unfolding validate_timeline_entry
validated lib entry = elim (validate_timeline_entry lib entry) [
  | ok u ↦ ok (some entry)
  | err e ↦ err e
]

unfoldable pub entry_of_event :
    Library → Job → Result Error (Option TimelineEvent) → Result Error (Option TimelineEntry)
entry_of_event lib target (err e) = err e
entry_of_event lib target (ok none) = ok none
entry_of_event lib target (ok (some event)) = validated lib (timeline_entry target event)

unfoldable pub entry_between : Library → Option Job → Job → Result Error (Option TimelineEntry)
entry_between lib none target =
    if not (is_queued target.status)
      || not (nat_eq target.attempt 0)
      || not (nat_eq target.version 1)
    then err (invalid_timeline_entry "first lifecycle evidence must be queued version 1")
    else validated lib (timeline_entry target created)
entry_between lib (some source) target =
    if not (source.id == target.id)
      || leb target.version source.version
      || is_zero source.updated_at
      || before target.updated_at source.updated_at
    then err (invalid_timeline_entry "transition identity, version or timestamp is inconsistent")
    else if ltb target.attempt source.attempt || ltb (source.attempt + 1) target.attempt
    then err (invalid_timeline_entry "attempt progression is inconsistent")
    else entry_of_event lib target (
        transition_event source.status target.status (nat_eq target.attempt source.attempt)
          (nat_eq target.attempt (source.attempt + 1)))

-- `TimelineEntryFromTransition`
unfoldable pub entry_from_transition :
    Library → Option Job → Job → Result Error (Option TimelineEntry)
entry_from_transition lib source target =
    if not_canonical lib target.id
    then err (invalid_timeline_entry "canonical job id is required")
    else if not (valid_timeline_status target.status)
        || nat_eq target.version 0
        || is_zero target.updated_at
        || ltb target.max_attempts 1
        || ltb target.max_attempts target.attempt
    then err (invalid_timeline_entry "incomplete Job state")
    else entry_between lib source target

abbrev pub Versions : Type 0
Versions = List (ℕ × TimelineEntry)

-- `MemoryTimelineRepository`: the entries of a job by version, by job.
pub record TimelineRepository : Type 0 where
  pub entries : Map Versions

unfoldable pub at_version : ℕ → Versions → Option TimelineEntry
at_version v [] = none
at_version v ((w, entry) ∷ rest) = if nat_eq w v then some entry else at_version v rest

abbrev pub event_eq : TimelineEvent → TimelineEvent → Bool
event_eq observed observed = true
event_eq created created = true
event_eq attempt_started attempt_started = true
event_eq retry_scheduled retry_scheduled = true
event_eq cancel_asked cancel_asked = true
event_eq was_cancelled was_cancelled = true
event_eq was_succeeded was_succeeded = true
event_eq was_failed was_failed = true
event_eq (unknown s) (unknown t) = s == t
event_eq _ _ = false

-- `a == b` on entries
unfoldable pub entry_eq : TimelineEntry → TimelineEntry → Bool
entry_eq a b =
    a.job_id == b.job_id
    && event_eq a.event b.event
    && status_eq a.status b.status
    && nat_eq a.attempt b.attempt
    && nat_eq a.job_version b.job_version
    && nat_eq a.occurred_at b.occurred_at

abbrev pub versions_or_empty : Option Versions → Versions
versions_or_empty none = []
versions_or_empty (some versions) = versions

unfoldable pub append_locked : TimelineEntry → Exec Error TimelineRepository Bool
append_locked entry r =
    let versions = versions_or_empty (lookup entry.job_id r.entries) in
    elim (at_version entry.job_version versions) [
      | some existing ↦
          if entry_eq existing entry then (ok false, r) else (err timeline_conflict, r)
      | none ↦ (
        ok true,
        record { entries = insert entry.job_id ((entry.job_version, entry) ∷ versions) r.entries },
      )
    ]

-- `Append`: whether the call created the entry.
unfoldable pub append : Library → Context → TimelineEntry → Exec Error TimelineRepository Bool
unfolding append_locked validate_timeline_entry
append lib ctx entry = do
  check_context ctx context
  lift (validate_timeline_entry lib entry)
  append_locked entry

unfoldable pub version_earlier : TimelineEntry → TimelineEntry → Bool
version_earlier a b =
    if not (nat_eq a.job_version b.job_version)
    then ltb a.job_version b.job_version
    else before a.occurred_at b.occurred_at

unfoldable pub values : Versions → List TimelineEntry
values [] = []
values ((v, entry) ∷ rest) = entry ∷ values rest

-- `List`
unfoldable pub list_timeline : Context → String → Exec Error TimelineRepository (List TimelineEntry)
unfolding version_earlier values
list_timeline ctx job_id = do
  check_context ctx context
  reject_if (job_id == "") (invalid_timeline_entry "")
  gets (λ r. sort_slice version_earlier (values (versions_or_empty (lookup job_id r.entries))))
