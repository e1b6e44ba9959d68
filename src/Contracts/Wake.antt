-- ===== src/Contracts/Wake.antt =====
-- Wake signals, of crates/contracts/src/lib.rs.
use blue_lagoon.Base.{Option, Text}
use blue_lagoon.Contracts.Action.{Uuid}

pub data WakeSignalReason : Type 0 where
  critical_conflict proactive_briefing_ready : WakeSignalReason
  self_state_anomaly maintenance_insight_ready : WakeSignalReason

pub data WakeSignalPriority : Type 0 where
  low normal high : WakeSignalPriority

pub record WakeSignal : Type 0 where
  pub signal_id : Uuid
  pub reason : WakeSignalReason
  pub priority : WakeSignalPriority
  pub reason_code : Text
  pub summary : Text
  pub payload_ref : Option Text

pub data WakeSignalDecisionKind : Type 0 where
  accepted rejected suppressed deferred : WakeSignalDecisionKind

pub record WakeSignalDecision (Reason : Type 0) : Type 0 where
  pub signal_id : Uuid
  pub decision : WakeSignalDecisionKind
  pub reason : Reason
