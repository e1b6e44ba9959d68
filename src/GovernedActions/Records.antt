-- ===== src/GovernedActions/Records.antt =====
-- The records of crates/harness/src/governed_actions.rs, and the row that a planned action starts
-- as. Of an audit event and of a causal link, the fields that hold no JSON.
use blue_lagoon.Base.{Bool, Option, none, some, List, Text}
use blue_lagoon.Contracts.Action.{
  Uuid, Instant, GovernedActionKind, GovernedActionRiskTier, GovernedActionStatus, CapabilityScope,
  GovernedActionFingerprint, GovernedActionPayload, GovernedActionProposal,
}
use blue_lagoon.GovernedActions.Shape.{ShapeError}

pub record GovernedActionPlanningRequest : Type 0 where
  pub governed_action_execution_id : Uuid
  pub trace_id : Uuid
  pub execution_id : Option Uuid
  pub proposal : GovernedActionProposal

pub record GovernedActionExecutionRecord : Type 0 where
  pub governed_action_execution_id : Uuid
  pub trace_id : Uuid
  pub execution_id : Option Uuid
  pub approval_request_id : Option Uuid
  pub action_proposal_id : Uuid
  pub action_fingerprint : GovernedActionFingerprint
  pub action_kind : GovernedActionKind
  pub risk_tier : GovernedActionRiskTier
  pub status : GovernedActionStatus
  pub capability_scope : CapabilityScope
  pub payload : GovernedActionPayload
  pub workspace_script_id : Option Uuid
  pub workspace_script_version_id : Option Uuid
  pub blocked_reason : Option Text
  pub output_ref : Option Text
  pub started_at : Option Instant
  pub completed_at : Option Instant
  pub created_at : Instant
  pub updated_at : Instant

-- The fields of an UPDATE; `none` keeps the column, but for `blocked_reason` and `completed_at`.
pub record GovernedActionExecutionUpdate : Type 0 where
  pub governed_action_execution_id : Uuid
  pub status : GovernedActionStatus
  pub execution_id : Option Uuid
  pub output_ref : Option Text
  pub blocked_reason : Option Text
  pub approval_request_id : Option Uuid
  pub started_at : Option Instant
  pub completed_at : Option Instant

pub record GovernedActionExecutionOutcome : Type 0 where
  pub status : GovernedActionStatus
  pub summary : Text
  pub fingerprint : Option GovernedActionFingerprint
  pub output_ref : Option Text

pub data GovernedActionPlanningOutcome : Type 0 where
  planned :
      (record_ : GovernedActionExecutionRecord) (requires_approval : Bool)
      → GovernedActionPlanningOutcome
  blocked :
      (record_ : GovernedActionExecutionRecord) (outcome : GovernedActionExecutionOutcome)
      → GovernedActionPlanningOutcome

pub record CausalLink : Type 0 where
  pub trace_id : Uuid
  pub source_kind : Text
  pub source_id : Uuid
  pub target_kind : Text
  pub target_id : Uuid
  pub edge_kind : Text

pub record ActionAuditEvent : Type 0 where
  pub event_kind : Text
  pub severity : Text
  pub trace_id : Uuid
  pub execution_id : Option Uuid
  pub governed_action_execution_id : Uuid
  pub status : GovernedActionStatus

pub record ActionStore : Type 0 where
  pub executions : List GovernedActionExecutionRecord
  pub causal_links : List CausalLink
  pub audit : List ActionAuditEvent

pub data StoreError : Type 0 where
  invalid_shape : ShapeError → StoreError
  execution_conflict execution_not_found update_conflict : StoreError
  unsupported_planning_status : StoreError

-- The script and the version that an action names.
unfoldable pub workspace_script_ids : GovernedActionPayload → Option Uuid × Option Uuid
workspace_script_ids (GovernedActionPayload.run_workspace_script action) =
    (some action.script_id, action.script_version_id)
workspace_script_ids (GovernedActionPayload.inspect_workspace_script action) =
    (some action.script_id, action.script_version_id)
workspace_script_ids (GovernedActionPayload.append_workspace_script_version action) =
    (some action.script_id, none)
workspace_script_ids (GovernedActionPayload.list_workspace_script_runs action) =
    (some action.script_id, none)
workspace_script_ids _ = (none, none)
