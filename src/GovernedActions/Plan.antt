-- ===== src/GovernedActions/Plan.antt =====
-- `plan_governed_action` and the policy check of `execute_governed_action`, of
-- crates/harness/src/governed_actions.rs. The boundaries of the active identity are an argument,
-- `none` where reading them fails; `message` gives the wording of an error, and `digest` and
-- `url_scheme` stand for the libraries behind the fingerprint and the check of a URL.
pub mod Outcome
pub mod Admission
use blue_lagoon.Base.{
  Bool, true, false, Option, none, some, List, [], ◌∷◌, ◌++◌, Text, codes, if◌then◌else◌, is_some,
  unwrap_or, Result, ok, err,
}
use blue_lagoon.Base.State.{lift, ◌>>=◌, ◌>>◌}
use blue_lagoon.Contracts.Action.{
  Uuid, Instant, GovernedActionStatus, proposed, awaiting_approval, GovernedActionProposal,
}
use blue_lagoon.Config.{RuntimeConfig}
use blue_lagoon.Policy.{
  DenialReason, PolicyDecision, allowed, denied, classify_governed_action_risk,
  governed_action_requires_approval,
}
use blue_lagoon.Policy.Boundaries.{evaluate_governed_action_identity_boundaries}
use blue_lagoon.GovernedActions.Shape.{ShapeError, validate_proposal_shape}
use blue_lagoon.GovernedActions.Scope.{ScopeError, validate_capability_scope}
use blue_lagoon.GovernedActions.Labels.{governed_action_kind_as_str}
use blue_lagoon.GovernedActions.Fingerprint.{
  CanonicalGovernedActionFingerprintInput, fingerprint_governed_action,
}
use blue_lagoon.GovernedActions.Records.{
  GovernedActionPlanningRequest, GovernedActionExecutionRecord, GovernedActionExecutionUpdate,
  GovernedActionExecutionOutcome, GovernedActionPlanningOutcome, planned, blocked, CausalLink,
  StoreError, invalid_shape, unsupported_planning_status,
}
use blue_lagoon.GovernedActions.Store.{
  ActionResult, get_governed_action_execution, persist_governed_action_execution,
  update_governed_action_execution, insert_causal_link, write_governed_action_audit_event,
}

pub data PolicyError : Type 0 where
  scope : ScopeError → PolicyError
  identity_unavailable : PolicyError
  boundary : DenialReason → PolicyError

abbrev pub as_result : PolicyDecision → Result PolicyError (Unit {0})
as_result allowed = ok tt
as_result (denied reason) = err (boundary reason)

abbrev pub within_boundaries :
    GovernedActionProposal → Option (List Text) → Result PolicyError (Unit {0})
within_boundaries proposal none = err identity_unavailable
within_boundaries proposal (some boundaries) =
    as_result (evaluate_governed_action_identity_boundaries proposal boundaries)

-- The error of a check, for `.err()`.
abbrev pub error_of : Result PolicyError (Unit {0}) → Option PolicyError
error_of (ok u) = none
error_of (err e) = some e

abbrev pub shape_checked : Result ShapeError (Unit {0}) → Result StoreError (Unit {0})
shape_checked (ok u) = ok tt
shape_checked (err e) = err (invalid_shape e)

abbrev pub planning_status : Option PolicyError → (requires_approval : Bool) → GovernedActionStatus
planning_status (some e) requires_approval = GovernedActionStatus.blocked
planning_status none true = awaiting_approval
planning_status none false = proposed

abbrev pub planning_event : GovernedActionStatus → Result StoreError (Text × Text)
planning_event GovernedActionStatus.blocked = ok (codes "governed_action_blocked", codes "warn")
planning_event awaiting_approval = ok (codes "governed_action_planned_for_approval", codes "info")
planning_event proposed = ok (codes "governed_action_planned", codes "info")
planning_event _ = err unsupported_planning_status

abbrev pub planning_link : GovernedActionExecutionRecord → (execution_id : Uuid) → CausalLink
planning_link row execution_id = record {
  trace_id = row.trace_id;
  source_kind = codes "execution_record";
  source_id = execution_id;
  target_kind = codes "governed_action_execution";
  target_id = row.governed_action_execution_id;
  edge_kind = codes "planned_action";
}

abbrev pub link_execution : Option Uuid → GovernedActionExecutionRecord → ActionResult (Unit {0})
link_execution none row = lift (ok tt)
link_execution (some execution_id) row = insert_causal_link (planning_link row execution_id)

abbrev pub blocked_outcome :
    GovernedActionExecutionRecord → (blocked_reason : Option Text) → GovernedActionExecutionOutcome
blocked_outcome row blocked_reason = record {
  status = GovernedActionStatus.blocked;
  summary = unwrap_or blocked_reason (codes "governed action was blocked");
  fingerprint = some row.action_fingerprint;
  output_ref = none;
}

abbrev pub planning_outcome :
    GovernedActionStatus
    → GovernedActionExecutionRecord
    → (requires_approval : Bool) (blocked_reason : Option Text)
    → Result StoreError GovernedActionPlanningOutcome
planning_outcome GovernedActionStatus.blocked row requires_approval blocked_reason =
    ok (blocked row (blocked_outcome row blocked_reason))
planning_outcome awaiting_approval row requires_approval blocked_reason =
    ok (planned row requires_approval)
planning_outcome proposed row requires_approval blocked_reason = ok (planned row requires_approval)
planning_outcome _ row requires_approval blocked_reason = err unsupported_planning_status

-- `Option::map`
abbrev pub reason_of : (PolicyError → Text) → Option PolicyError → Option Text
reason_of message none = none
reason_of message (some e) = some (message e)

unfoldable pub proposal_from_record :
    (id_text : Uuid → Text) → GovernedActionExecutionRecord → GovernedActionProposal
unfolding governed_action_kind_as_str
proposal_from_record id_text row = record {
  proposal_id = row.action_proposal_id;
  title =
      governed_action_kind_as_str row.action_kind
      ++ codes ":"
      ++ id_text row.governed_action_execution_id;
  rationale = row.blocked_reason;
  action_kind = row.action_kind;
  requested_risk_tier = some row.risk_tier;
  capability_scope = row.capability_scope;
  payload = row.payload;
}

module _ (url_scheme : Text → Option Text) (digest : CanonicalGovernedActionFingerprintInput → Text)
    (message : PolicyError → Text) where
  abbrev pub scope_checked : Result ScopeError (Unit {0}) → Result PolicyError (Unit {0})
  scope_checked (ok u) = ok tt
  scope_checked (err e) = err (scope e)

  abbrev then_boundaries :
      Result PolicyError (Unit {0})
      → GovernedActionProposal
      → Option (List Text)
      → Result PolicyError (Unit {0})
  then_boundaries (err e) proposal identity = err e
  then_boundaries (ok u) proposal identity = within_boundaries proposal identity

  unfoldable pub validate_governed_action_policy :
      RuntimeConfig
      → (boundaries : Option (List Text)) → GovernedActionProposal
      → Result PolicyError (Unit {0})
  unfolding validate_capability_scope evaluate_governed_action_identity_boundaries
  validate_governed_action_policy config boundaries proposal =
      then_boundaries (scope_checked (validate_capability_scope url_scheme config proposal))
        proposal boundaries

  -- What follows the check of the shape; `violation` is the error of the policy, if it has one.
  unfoldable pub plan_checked :
      (clock : Instant)
      → RuntimeConfig
      → (violation : Option PolicyError) → GovernedActionPlanningRequest
      → ActionResult GovernedActionPlanningOutcome
  unfolding fingerprint_governed_action classify_governed_action_risk
      governed_action_requires_approval persist_governed_action_execution
      get_governed_action_execution insert_causal_link write_governed_action_audit_event
  plan_checked clock config violation request = do
    let tier = classify_governed_action_risk request.proposal
    let requires_approval = governed_action_requires_approval config tier
    let status = planning_status violation requires_approval
    let blocked_reason = reason_of message violation
    persist_governed_action_execution clock request
        (fingerprint_governed_action digest request.proposal) tier status blocked_reason
    row ← get_governed_action_execution request.governed_action_execution_id
    link_execution request.execution_id row
    event ← lift (planning_event status)
    write_governed_action_audit_event row event.0 event.1
    lift (planning_outcome status row requires_approval blocked_reason)

  unfoldable pub plan_governed_action :
      (clock : Instant)
      → RuntimeConfig
      → (boundaries : Option (List Text)) → GovernedActionPlanningRequest
      → ActionResult GovernedActionPlanningOutcome
  unfolding validate_proposal_shape validate_governed_action_policy plan_checked
  plan_governed_action clock config boundaries request = do
    lift (shape_checked (validate_proposal_shape request.proposal))
    plan_checked clock config
        (error_of (validate_governed_action_policy config boundaries request.proposal)) request
