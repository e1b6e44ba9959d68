-- ===== src/Background.antt =====
-- Background jobs: their data, of crates/harness/src/background.rs and crates/contracts/src/lib.rs,
-- the table of jobs, and how a job is planned.
pub mod Jobs
pub mod Planning
use blue_lagoon.Base.{Bool, true, false, Option, List, Text}
use blue_lagoon.Contracts.Action.{Uuid, Instant, UnconsciousJobKind}
use blue_lagoon.Contracts.Ingress.{BackgroundExecutionBudget}

pub data BackgroundTriggerKind : Type 0 where
  time_schedule volume_threshold drift_or_anomaly_signal : BackgroundTriggerKind
  foreground_delegation external_passive_event maintenance_trigger : BackgroundTriggerKind

pub record BackgroundTrigger : Type 0 where
  pub trigger_id : Uuid
  pub trigger_kind : BackgroundTriggerKind
  pub requested_at : Instant
  pub reason_summary : Text
  pub payload_ref : Option Text

pub record UnconsciousScope : Type 0 where
  pub episode_ids : List Uuid
  pub memory_artifact_ids : List Uuid
  pub retrieval_artifact_ids : List Uuid
  pub self_model_artifact_id : Option Uuid
  pub internal_principal_ref : Option Text
  pub internal_conversation_ref : Option Text
  pub summary : Text

pub data BackgroundJobStatus : Type 0 where
  planned leased running completed failed suppressed cancelled : BackgroundJobStatus

pub record BackgroundJobRecord : Type 0 where
  pub background_job_id : Uuid
  pub trace_id : Uuid
  pub job_kind : UnconsciousJobKind
  pub trigger : BackgroundTrigger
  pub deduplication_key : Text
  pub scope : UnconsciousScope
  pub budget : BackgroundExecutionBudget
  pub status : BackgroundJobStatus
  pub available_at : Instant
  pub lease_expires_at : Option Instant
  pub last_started_at : Option Instant
  pub last_completed_at : Option Instant
  pub created_at : Instant
  pub updated_at : Instant

abbrev pub Jobs : Type 0
Jobs = List BackgroundJobRecord

-- `status IN ('planned', 'leased', 'running')`
abbrev pub is_active : BackgroundJobStatus → Bool
is_active planned = true
is_active leased = true
is_active running = true
is_active _ = false

abbrev pub is_planned : BackgroundJobStatus → Bool
is_planned planned = true
is_planned _ = false
