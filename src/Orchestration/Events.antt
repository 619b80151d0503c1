-- ===== src/Orchestration/Events.antt =====
-- internal/orchestration/events/events.go: what an action reports.
use control_center_stable.Prelude.{String, List}
use control_center_stable.Prelude.Time.{Time}

pub data ResourceState : Type 0 where
  present absent unknown : ResourceState
  other : String → ResourceState

pub record ActualState : Type 0 where
  pub resource_id : String
  pub kind : String
  pub state : ResourceState
  pub observed_at : Time
  pub revision : String
  pub details : String

pub data HealthStatus : Type 0 where
  healthy degraded failed unknown : HealthStatus
  other : String → HealthStatus

pub record Health : Type 0 where
  pub resource_id : String
  pub status : HealthStatus
  pub checked_at : Time
  pub message : String

pub record AuditEvent : Type 0 where
  pub id : String
  pub occurred_at : Time
  pub actor : String
  pub action : String
  pub resource_id : String
  pub outcome : String
  pub correlation_id : String
  pub details : String

pub record Output : Type 0 where
  pub actual_states : List ActualState
  pub health : List Health
  pub audit_events : List AuditEvent
