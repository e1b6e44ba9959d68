-- ===== src/GovernedActions/Store.antt =====
-- The table of governed action executions with its operations, of
-- crates/harness/src/governed_actions.rs. The table's primary key, the UNIQUE `execution_id` and
-- the CHECK on the times are tests of the INSERT and the UPDATE. `clock` is the database's `NOW()`.
pub mod Updates
pub mod History
use blue_lagoon.Base.{
  Bool, true, false, not, ◌&&◌, ◌||◌, Option, none, some, List, [], ◌∷◌, map, Text, codes, leb, ltb,
  ◌==◌, if◌then◌else◌, any, all, find, Result, ok, err,
}
use blue_lagoon.Base.State.{Action, lift, ◌>>=◌, ◌>>◌}
use blue_lagoon.Contracts.Action.{
  Uuid, Instant, GovernedActionRiskTier, GovernedActionStatus, GovernedActionFingerprint,
  ApprovalResolutionDecision,
}
use blue_lagoon.GovernedActions.Records.{
  GovernedActionPlanningRequest, GovernedActionExecutionRecord, GovernedActionExecutionUpdate,
  CausalLink, ActionAuditEvent, ActionStore, StoreError, execution_conflict, execution_not_found,
  update_conflict, workspace_script_ids,
}

abbrev pub ActionResult : Type 0 → Type 0
ActionResult A = Action ActionStore StoreError A

abbrev pub or_missing :
    Option GovernedActionExecutionRecord → Result StoreError GovernedActionExecutionRecord
or_missing none = err execution_not_found
or_missing (some row) = ok row

unfoldable pub get_governed_action_execution : Uuid → ActionResult GovernedActionExecutionRecord
unfolding find
get_governed_action_execution id s =
    (or_missing (find (λ row. row.governed_action_execution_id == id) s.executions), s)

-- `CHECK (completed_at IS NULL OR (started_at IS NOT NULL AND completed_at >= started_at))`
abbrev pub times_allowed : (started_at completed_at : Option Instant) → Bool
times_allowed started_at none = true
times_allowed none (some completed_at) = false
times_allowed (some started_at) (some completed_at) = leb started_at completed_at

abbrev pub shares_execution : Option Uuid → GovernedActionExecutionRecord → Bool
shares_execution none row = false
shares_execution (some id) row = elim row.execution_id [ none ↦ false | some other ↦ id == other ]

abbrev pub planned_row :
    (clock : Instant)
    → GovernedActionPlanningRequest
    → GovernedActionFingerprint
    → GovernedActionRiskTier
    → GovernedActionStatus
    → (blocked_reason : Option Text) → GovernedActionExecutionRecord
planned_row clock request fingerprint risk_tier status blocked_reason = record {
  governed_action_execution_id = request.governed_action_execution_id;
  trace_id = request.trace_id;
  execution_id = request.execution_id;
  approval_request_id = none;
  action_proposal_id = request.proposal.proposal_id;
  action_fingerprint = fingerprint;
  action_kind = request.proposal.action_kind;
  risk_tier = risk_tier;
  status = status;
  capability_scope = request.proposal.capability_scope;
  payload = request.proposal.payload;
  workspace_script_id = (workspace_script_ids request.proposal.payload).0;
  workspace_script_version_id = (workspace_script_ids request.proposal.payload).1;
  blocked_reason = blocked_reason;
  output_ref = none;
  started_at = none;
  completed_at = none;
  created_at = clock;
  updated_at = clock;
}

unfoldable pub persist_governed_action_execution :
    (clock : Instant)
    → GovernedActionPlanningRequest
    → GovernedActionFingerprint
    → GovernedActionRiskTier
    → GovernedActionStatus
    → (blocked_reason : Option Text) → ActionResult (Unit {0})
unfolding any workspace_script_ids
persist_governed_action_execution clock request fingerprint risk_tier status blocked_reason s =
    if any
      (λ row.
        row.governed_action_execution_id == request.governed_action_execution_id
        || shares_execution request.execution_id row)
      s.executions
    then (err execution_conflict, s)
    else (
      ok tt,
      record s {
        executions =
            planned_row clock request fingerprint risk_tier status blocked_reason ∷ s.executions;
      },
    )

-- `COALESCE(new, old)`
abbrev pub coalesce {ℓ} : {A : Type ℓ} → Option A → Option A → Option A
coalesce none old = old
coalesce (some new) old = some new

unfoldable pub updated :
    (clock : Instant)
    → GovernedActionExecutionUpdate
    → GovernedActionExecutionRecord
    → GovernedActionExecutionRecord
updated clock update row = record row {
  status = update.status;
  execution_id = coalesce update.execution_id row.execution_id;
  approval_request_id = coalesce update.approval_request_id row.approval_request_id;
  output_ref = coalesce update.output_ref row.output_ref;
  blocked_reason = update.blocked_reason;
  started_at = coalesce update.started_at row.started_at;
  completed_at = update.completed_at;
  updated_at = clock;
}

abbrev pub on_row :
    Uuid
    → (GovernedActionExecutionRecord → GovernedActionExecutionRecord)
    → GovernedActionExecutionRecord
    → GovernedActionExecutionRecord
on_row id f row = if row.governed_action_execution_id == id then f row else row

-- Whether the UPDATE would break the CHECK or the UNIQUE `execution_id`.
abbrev pub row_allowed : GovernedActionExecutionUpdate → GovernedActionExecutionRecord → Bool
row_allowed update row =
    if row.governed_action_execution_id == update.governed_action_execution_id
    then times_allowed (coalesce update.started_at row.started_at) update.completed_at
    else not (shares_execution update.execution_id row)

unfoldable pub update_governed_action_execution :
    (clock : Instant) → GovernedActionExecutionUpdate → ActionResult GovernedActionExecutionRecord
unfolding all updated get_governed_action_execution
update_governed_action_execution clock update s =
    if all (row_allowed update) s.executions
    then get_governed_action_execution update.governed_action_execution_id (record s {
      executions =
          map (on_row update.governed_action_execution_id (updated clock update)) s.executions;
    })
    else (err update_conflict, s)

abbrev pub approval_link : GovernedActionExecutionRecord → Uuid → CausalLink
approval_link row approval_request_id = record {
  trace_id = row.trace_id;
  source_kind = codes "governed_action_execution";
  source_id = row.governed_action_execution_id;
  target_kind = codes "approval_request";
  target_id = approval_request_id;
  edge_kind = codes "required_approval";
}

unfoldable pub insert_causal_link : CausalLink → ActionResult (Unit {0})
insert_causal_link link s = (ok tt, record s { causal_links = link ∷ s.causal_links })

abbrev pub attached :
    (clock : Instant) → Uuid → GovernedActionExecutionRecord → GovernedActionExecutionRecord
attached clock approval_request_id row = record row {
  approval_request_id = some approval_request_id;
  updated_at = clock;
}

unfoldable pub attach_row :
    (clock : Instant) (id approval_request_id : Uuid) → ActionResult (Unit {0})
attach_row clock id approval_request_id s = (
  ok tt,
  record s { executions = map (on_row id (attached clock approval_request_id)) s.executions },
)

unfoldable pub attach_approval_request :
    (clock : Instant) (id approval_request_id : Uuid) → ActionResult GovernedActionExecutionRecord
unfolding attach_row get_governed_action_execution insert_causal_link
attach_approval_request clock id approval_request_id = do
  attach_row clock id approval_request_id
  row ← get_governed_action_execution id
  insert_causal_link (approval_link row approval_request_id)
  lift (ok row)

unfoldable pub resolution_to_action_status : ApprovalResolutionDecision → GovernedActionStatus
resolution_to_action_status ApprovalResolutionDecision.approved = GovernedActionStatus.approved
resolution_to_action_status ApprovalResolutionDecision.rejected = GovernedActionStatus.rejected
resolution_to_action_status ApprovalResolutionDecision.expired = GovernedActionStatus.expired
resolution_to_action_status ApprovalResolutionDecision.invalidated =
    GovernedActionStatus.invalidated

abbrev pub resolution_update :
    Uuid
    → ApprovalResolutionDecision
    → (execution_id : Option Uuid) (reason : Option Text) → GovernedActionExecutionUpdate
resolution_update id decision execution_id reason = record {
  governed_action_execution_id = id;
  status = resolution_to_action_status decision;
  execution_id = execution_id;
  output_ref = none;
  blocked_reason = reason;
  approval_request_id = none;
  started_at = none;
  completed_at = none;
}

unfoldable pub sync_status_from_approval_resolution :
    (clock : Instant)
    → Uuid
    → ApprovalResolutionDecision
    → (execution_id : Option Uuid) (reason : Option Text)
    → ActionResult GovernedActionExecutionRecord
unfolding update_governed_action_execution resolution_to_action_status
sync_status_from_approval_resolution clock id decision execution_id reason =
    update_governed_action_execution clock (resolution_update id decision execution_id reason)

abbrev pub audit_event :
    GovernedActionExecutionRecord → (event_kind severity : Text) → ActionAuditEvent
audit_event row event_kind severity = record {
  event_kind = event_kind;
  severity = severity;
  trace_id = row.trace_id;
  execution_id = row.execution_id;
  governed_action_execution_id = row.governed_action_execution_id;
  status = row.status;
}

unfoldable pub write_governed_action_audit_event :
    GovernedActionExecutionRecord → (event_kind severity : Text) → ActionResult (Unit {0})
write_governed_action_audit_event row event_kind severity s =
    (ok tt, record s { audit = audit_event row event_kind severity ∷ s.audit })
