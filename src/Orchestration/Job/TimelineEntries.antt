-- ===== src/Orchestration/Job/TimelineEntries.antt =====
-- internal/orchestration/job/timeline.go: the entries of a timeline and their checks.
use control_center_stable.Prelude.{
  ℕ, String, Bool, true, false, not, ◌&&◌, ◌||◌, nat_eq, ◌==◌, if◌then◌else◌, Result, ok, err,
}
use control_center_stable.Prelude.Time.{Time, is_zero}
use control_center_stable.Prelude.Library.{Library}
use control_center_stable.Orchestration.Job.Model.{
  Error, invalid_timeline_entry, Status, queued, running, retry_wait, cancel_requested, cancelled,
  succeeded, failed, other, status_eq,
}
use control_center_stable.Orchestration.Job.Steps.{is_queued}

-- A Go string type: a value that is no constant is `unknown`.
pub data TimelineEvent : Type 0 where
  observed created attempt_started retry_scheduled : TimelineEvent
  cancel_asked was_cancelled was_succeeded was_failed : TimelineEvent
  unknown : String → TimelineEvent

pub record TimelineEntry : Type 0 where
  pub job_id : String
  pub event : TimelineEvent
  pub status : Status
  pub attempt : ℕ
  pub job_version : ℕ
  pub occurred_at : Time

-- `validTimelineStatus`
abbrev pub valid_timeline_status : Status → Bool
valid_timeline_status (other s) = false
valid_timeline_status _ = true

-- `timelineEventMatchesStatus`
abbrev pub event_matches_status : TimelineEvent → Status → Bool
event_matches_status observed status = valid_timeline_status status
event_matches_status created status = status_eq status queued
event_matches_status attempt_started status = status_eq status running
event_matches_status retry_scheduled status = status_eq status retry_wait
event_matches_status cancel_asked status = status_eq status cancel_requested
event_matches_status was_cancelled status = status_eq status cancelled
event_matches_status was_succeeded status = status_eq status succeeded
event_matches_status was_failed status = status_eq status failed
event_matches_status (unknown s) status = false

abbrev pub is_creation : TimelineEvent → Bool
is_creation created = true
is_creation observed = true
is_creation _ = false

-- `strings.TrimSpace(id) == "" || id != strings.TrimSpace(id)`
unfoldable pub not_canonical : Library → String → Bool
not_canonical lib id = lib.trim_space id == "" || not (id == lib.trim_space id)

-- `ValidateTimelineEntry`
unfoldable pub validate_timeline_entry : Library → TimelineEntry → Result Error (Unit {0})
validate_timeline_entry lib entry =
    if not_canonical lib entry.job_id
    then err (invalid_timeline_entry "canonical job id is required")
    else if nat_eq entry.job_version 0 || is_zero entry.occurred_at
    then err (invalid_timeline_entry "job version, timestamp and non-negative attempt are required")
    else if not (valid_timeline_status entry.status)
    then err (invalid_timeline_entry "unsupported status")
    else if not (event_matches_status entry.event entry.status)
    then err (invalid_timeline_entry "event is incompatible with status")
    else if is_creation entry.event && not (nat_eq entry.attempt 0) && is_queued entry.status
    then err (invalid_timeline_entry "queued creation evidence cannot have an attempt")
    else ok tt
