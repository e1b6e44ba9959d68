-- ===== src/GovernedActions/Plan/Outcome.antt =====
-- What planning a governed action writes and answers.
use blue_lagoon.Base.{
  ◌≡◌, refl, ◌∙◌, Bool, true, false, ◌||◌, Option, none, some, List, ◌∷◌, Text, any, ◌==◌, ==_refl,
  ok, err, find, codes,
}
use blue_lagoon.Base.State.{lift, bind_ok, bind_err, ◌>>=◌, ◌>>◌}
use blue_lagoon.Contracts.Action.{Uuid, Instant, GovernedActionStatus, awaiting_approval}
use blue_lagoon.Config.{RuntimeConfig}
use blue_lagoon.Policy.{classify_governed_action_risk, governed_action_requires_approval}
use blue_lagoon.GovernedActions.Shape.{ShapeError, validate_proposal_shape}
use blue_lagoon.GovernedActions.Fingerprint.{
  CanonicalGovernedActionFingerprintInput, fingerprint_governed_action,
}
use blue_lagoon.GovernedActions.Records.{
  GovernedActionPlanningRequest, GovernedActionExecutionRecord, GovernedActionPlanningOutcome,
  planned, blocked, ActionStore, CausalLink, invalid_shape, execution_conflict,
}
use blue_lagoon.GovernedActions.Store.{
  ActionResult, get_governed_action_execution, shares_execution, planned_row,
  persist_governed_action_execution, insert_causal_link, write_governed_action_audit_event,
  audit_event,
}
use blue_lagoon.GovernedActions.Plan.{
  PolicyError, error_of, planning_status, planning_link, link_execution, planning_event,
  planning_outcome, blocked_outcome, reason_of, validate_governed_action_policy, plan_checked,
  plan_governed_action,
}

-- The table has no row with the id of the request, nor one of its execution.
abbrev pub IsFresh : GovernedActionPlanningRequest → ActionStore → Type 0
IsFresh request s =
    any
      (λ row.
        row.governed_action_execution_id == request.governed_action_execution_id
        || shares_execution request.execution_id row)
      s.executions
    ≡ false

abbrev pub links_of :
    Option Uuid → GovernedActionExecutionRecord → List CausalLink → List CausalLink
links_of none row links = links
links_of (some execution_id) row links = planning_link row execution_id ∷ links

abbrev pub event_of : GovernedActionStatus → Text × Text
event_of GovernedActionStatus.blocked = (codes "governed_action_blocked", codes "warn")
event_of awaiting_approval = (codes "governed_action_planned_for_approval", codes "info")
event_of _ = (codes "governed_action_planned", codes "info")

abbrev pub answer :
    Option PolicyError
    → GovernedActionExecutionRecord
    → (requires_approval : Bool) (blocked_reason : Option Text) → GovernedActionPlanningOutcome
answer none row requires_approval blocked_reason = planned row requires_approval
answer (some e) row requires_approval blocked_reason =
    blocked row (blocked_outcome row blocked_reason)

module _ (url_scheme : Text → Option Text) (digest : CanonicalGovernedActionFingerprintInput → Text)
    (message : PolicyError → Text) (clock : Instant) (config : RuntimeConfig)
    (boundaries : Option (List Text)) (request : GovernedActionPlanningRequest) where
  abbrev pub violation : Option PolicyError
  violation =
      error_of (
        validate_governed_action_policy url_scheme digest message config boundaries
          request.proposal)

  abbrev pub needs_approval : Bool
  needs_approval =
      governed_action_requires_approval config (classify_governed_action_risk request.proposal)

  -- The row that planning inserts for an error of the policy, or for none.
  abbrev pub row_for : Option PolicyError → GovernedActionExecutionRecord
  row_for e =
      planned_row clock request (fingerprint_governed_action digest request.proposal)
        (classify_governed_action_risk request.proposal) (planning_status e needs_approval)
        (reason_of message e)

  abbrev pub store_for : Option PolicyError → ActionStore → ActionStore
  store_for e s = record {
    executions = row_for e ∷ s.executions;
    causal_links = links_of request.execution_id (row_for e) s.causal_links;
    audit =
        audit_event (row_for e) (event_of (planning_status e needs_approval)).0
          (event_of (planning_status e needs_approval)).1
        ∷ s.audit;
  }

  persist_lem :
      (e : Option PolicyError) (s : ActionStore)
      → IsFresh request s
      → persist_governed_action_execution clock request
          (fingerprint_governed_action digest request.proposal)
          (classify_governed_action_risk request.proposal)
          (planning_status e needs_approval)
          (reason_of message e)
          s
        ≡ (ok tt, record s { executions = row_for e ∷ s.executions })
  unfolding persist_governed_action_execution
  persist_lem e s fresh = rw fresh refl

  get_lem :
      (e : Option PolicyError) (s : ActionStore)
      → get_governed_action_execution request.governed_action_execution_id
          (record s { executions = row_for e ∷ s.executions })
        ≡ (ok (row_for e), record s { executions = row_for e ∷ s.executions })
  unfolding get_governed_action_execution find
  get_lem e s = rw (==_refl request.governed_action_execution_id) refl

  abbrev report :
      Option PolicyError
      → (execution_id : Option Uuid) (needs : Bool) (reason : Option Text)
      → GovernedActionExecutionRecord
      → ActionResult GovernedActionPlanningOutcome
  report e execution_id needs reason row = do
    link_execution execution_id row
    event ← lift (planning_event (planning_status e needs))
    write_governed_action_audit_event row event.0 event.1
    lift (planning_outcome (planning_status e needs) row needs reason)

  report_lem :
      (e : Option PolicyError) (execution_id : Option Uuid) (needs : Bool) (reason : Option Text)
      (row : GovernedActionExecutionRecord) (s : ActionStore)
      → report e execution_id needs reason row s ≡ (
        ok (answer e row needs reason),
        record s {
          causal_links = links_of execution_id row s.causal_links;
          audit =
              audit_event row
                (event_of (planning_status e needs)).0
                (event_of (planning_status e needs)).1
              ∷ s.audit;
        },
      )
  unfolding insert_causal_link write_governed_action_audit_event
  report_lem none none true reason row s = refl
  report_lem none none false reason row s = refl
  report_lem none (some id) true reason row s = refl
  report_lem none (some id) false reason row s = refl
  report_lem (some e) none needs reason row s = refl
  report_lem (some e) (some id) needs reason row s = refl

  plan_checked_lem :
      (e : Option PolicyError) (s : ActionStore)
      → IsFresh request s
      → plan_checked url_scheme digest message clock config e request s
        ≡ (ok (answer e (row_for e) needs_approval (reason_of message e)), store_for e s)
  unfolding plan_checked
  plan_checked_lem e s fresh =
      let read = get_governed_action_execution request.governed_action_execution_id in
      let reporting = report e request.execution_id needs_approval (reason_of message e) in
      let inserted : ActionStore = record s { executions = row_for e ∷ s.executions } in
      bind_ok
        (persist_governed_action_execution clock request
          (fingerprint_governed_action digest request.proposal)
          (classify_governed_action_risk request.proposal) (planning_status e needs_approval)
          (reason_of message e))
        (λ (u : Unit {0}). read >>= reporting) s (persist_lem e s fresh)
      ∙ bind_ok read reporting inserted (get_lem e s)
      ∙ report_lem e request.execution_id needs_approval (reason_of message e) (row_for e) inserted

  -- A proposal of an invalid shape is refused with its error, and nothing is written.
  pub invalid_shape_writes_nothing :
      (e : ShapeError) (s : ActionStore)
      → validate_proposal_shape request.proposal ≡ err e
      → plan_governed_action url_scheme digest message clock config boundaries request s
        ≡ (err (invalid_shape e), s)
  unfolding plan_governed_action
  invalid_shape_writes_nothing e s h = rw h refl

  -- A proposal of a valid shape, with a new id, writes one row, one audit event and, for an
  -- execution, one causal link. If the policy forbids it the row is blocked with the policy's
  -- error; if not it waits for an approval, where its risk tier asks for one, or is proposed.
  pub plan_governed_action_lem :
      (s : ActionStore)
      → validate_proposal_shape request.proposal ≡ ok tt
      → IsFresh request s
      → plan_governed_action url_scheme digest message clock config boundaries request s ≡ (
        ok (answer violation (row_for violation) needs_approval (reason_of message violation)),
        store_for violation s,
      )
  unfolding plan_governed_action
  plan_governed_action_lem s shape fresh = rw shape (plan_checked_lem violation s fresh)

  taken_lem :
      (e : Option PolicyError) (s : ActionStore)
      → any
          (λ row.
            row.governed_action_execution_id == request.governed_action_execution_id
            || shares_execution request.execution_id row)
          s.executions
        ≡ true
      → persist_governed_action_execution clock request
          (fingerprint_governed_action digest request.proposal)
          (classify_governed_action_risk request.proposal)
          (planning_status e needs_approval)
          (reason_of message e)
          s
        ≡ (err execution_conflict, s)
  unfolding persist_governed_action_execution
  taken_lem e s taken = rw taken refl

  -- A request whose id, or whose execution, the table already has is refused, and nothing is
  -- written.
  pub taken_id_writes_nothing :
      (s : ActionStore)
      → validate_proposal_shape request.proposal ≡ ok tt
      → any
          (λ row.
            row.governed_action_execution_id == request.governed_action_execution_id
            || shares_execution request.execution_id row)
          s.executions
        ≡ true
      → plan_governed_action url_scheme digest message clock config boundaries request s
        ≡ (err execution_conflict, s)
  unfolding plan_governed_action plan_checked
  taken_id_writes_nothing s shape taken =
      let read = get_governed_action_execution request.governed_action_execution_id in
      let reporting =
        report violation request.execution_id needs_approval (reason_of message violation) in
      rw shape (
        bind_err
          (persist_governed_action_execution clock request
            (fingerprint_governed_action digest request.proposal)
            (classify_governed_action_risk request.proposal)
            (planning_status violation needs_approval) (reason_of message violation))
          (λ (u : Unit {0}). read >>= reporting) s (taken_lem violation s taken))
