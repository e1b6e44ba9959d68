-- ===== src/Recovery/Checkpoint/Trigger.antt =====
-- A recovery trigger leaves one closed checkpoint and one diagnostic.
use blue_lagoon.Base.{
  ◌≡◌, refl, ap, ◌||◌, true, false, Option, some, List, [], ◌∷◌, map, Text, ◌==◌, ==_refl, any,
  is_blank, codes, ok, arith,
}
use blue_lagoon.Contracts.Action.{Uuid, Instant}
use blue_lagoon.Approval.Records.{ApprovalRequestRecord}
use blue_lagoon.Recovery.Decision.{
  defer, reapprove, RecoveryApprovalState, pending, expired, invalidated, missing_required,
  not_required, approved_fresh, rejected, resolved, deferred_until_approval,
  fresh_approval_required, classify_recovery_decision, recovery_decision_summary,
  RecoveryDecisionRequest, RecoveryDecisionOutcome, is_negative, evaluate_recovery_decision,
}
use blue_lagoon.Recovery.Checkpoint.{
  NewRecoveryCheckpoint, RecoveryCheckpointRecord, RecoveryCheckpointResolution,
  NewOperationalDiagnostic, OperationalDiagnosticRecord, RecoveryStore, RecoveryTriggerOutcome,
  opened, is_open, resolve_row, stored, create_recovery_checkpoint, resolve_recovery_checkpoint,
  insert_operational_diagnostic, issue_recovery_trigger, transition_summary, is_transition,
  transition_checkpoint, transition_request, transition_diagnostic,
  recover_approval_request_transition,
}

-- The store has no checkpoint, and no diagnostic, with the id.
abbrev pub IsFreshCheckpoint : Uuid → RecoveryStore → Type 0
IsFreshCheckpoint id s = any (λ c. c.recovery_checkpoint_id == id) s.checkpoints ≡ false

abbrev pub IsFreshDiagnostic : Uuid → RecoveryStore → Type 0
IsFreshDiagnostic id s = any (λ d. d.operational_diagnostic_id == id) s.diagnostics ≡ false

map-resolve_row_fresh :
    (clock : Instant) (r : RecoveryCheckpointResolution) (rows : List RecoveryCheckpointRecord)
    → any (λ c. c.recovery_checkpoint_id == r.recovery_checkpoint_id) rows ≡ false
    → map (resolve_row clock r) rows ≡ rows
unfolding any
map-resolve_row_fresh clock r [] h = refl
map-resolve_row_fresh clock r (c ∷ rows) h = ground (arith, map-resolve_row_fresh clock r rows)

create_lem :
    (clock : Instant) (c : NewRecoveryCheckpoint) (s : RecoveryStore)
    → is_negative c.recovery_budget_remaining ≡ false
    → IsFreshCheckpoint c.recovery_checkpoint_id s
    → create_recovery_checkpoint clock c s
      ≡ (ok (opened clock c), record s { checkpoints = opened clock c ∷ s.checkpoints })
unfolding create_recovery_checkpoint
create_lem clock c s budget fresh = ground (arith, ==_refl c.recovery_checkpoint_id)

resolve_lem :
    (clock : Instant) (r : RecoveryCheckpointResolution) (c : RecoveryCheckpointRecord)
    (rows : List RecoveryCheckpointRecord) (diagnostics : List OperationalDiagnosticRecord)
    → is_open r.status ≡ false
    → c.recovery_checkpoint_id ≡ r.recovery_checkpoint_id
    → any (λ d. d.recovery_checkpoint_id == r.recovery_checkpoint_id) rows ≡ false
    → resolve_recovery_checkpoint clock r
        (record { checkpoints = c ∷ rows; diagnostics = diagnostics })
      ≡ (
        ok (resolve_row clock r c),
        record { checkpoints = resolve_row clock r c ∷ rows; diagnostics = diagnostics },
      )
unfolding resolve_recovery_checkpoint
resolve_lem clock r c rows diagnostics status same fresh =
    ground (arith, map-resolve_row_fresh clock r rows)

insert_diagnostic_lem :
    (clock : Instant) (d : NewOperationalDiagnostic) (s : RecoveryStore)
    → (is_blank d.subsystem || is_blank d.reason_code || is_blank d.summary) ≡ false
    → IsFreshDiagnostic d.operational_diagnostic_id s
    → insert_operational_diagnostic clock d s
      ≡ (ok (stored clock d), record s { diagnostics = stored clock d ∷ s.diagnostics })
unfolding insert_operational_diagnostic
insert_diagnostic_lem clock d s filled fresh = ground (arith, ==_refl d.operational_diagnostic_id)

-- What a trigger writes, for ids that are fresh, a budget that is not negative, a decision that
-- closes the checkpoint and a diagnostic with no blank field.
module _ (clock : Instant) (c : NewRecoveryCheckpoint) (request : RecoveryDecisionRequest)
    (d : NewOperationalDiagnostic) (now : Instant) (s : RecoveryStore)
    (decision : RecoveryDecisionOutcome) where
  abbrev closing : RecoveryCheckpointResolution
  closing = record {
    recovery_checkpoint_id = c.recovery_checkpoint_id;
    status = decision.checkpoint_status;
    recovery_decision = decision.decision;
    resolved_summary = some decision.summary;
    resolved_at = now;
  }

  abbrev closed : RecoveryCheckpointRecord
  closed = resolve_row clock closing (opened clock c)

  issue_recovery_trigger_lem :
      is_negative c.recovery_budget_remaining ≡ false
      → IsFreshCheckpoint c.recovery_checkpoint_id s
      → evaluate_recovery_decision request ≡ ok decision
      → is_open decision.checkpoint_status ≡ false
      → (is_blank d.subsystem || is_blank d.reason_code || is_blank d.summary) ≡ false
      → IsFreshDiagnostic d.operational_diagnostic_id s
      → issue_recovery_trigger clock c request d now s ≡ (
        ok (record { checkpoint = closed; decision = decision; diagnostic = stored clock d }),
        record {
          checkpoints = closed ∷ s.checkpoints;
          diagnostics = stored clock d ∷ s.diagnostics;
        },
      )
  unfolding issue_recovery_trigger
  issue_recovery_trigger_lem budget fresh decided shut filled fresh_d =
      rw (create_lem clock c s budget fresh) (
        rw decided (
          rw
            (resolve_lem clock closing (opened clock c) s.checkpoints s.diagnostics shut refl fresh)
            (rw
              (insert_diagnostic_lem clock d
                (record { checkpoints = closed ∷ s.checkpoints; diagnostics = s.diagnostics })
                filled fresh_d)
              refl)))

-- A request that still waits is deferred; any other transition needs a fresh approval.
abbrev pub transition_outcome : RecoveryApprovalState → RecoveryDecisionOutcome
transition_outcome pending = record {
  decision = defer;
  checkpoint_status = resolved;
  summary = deferred_until_approval;
}
transition_outcome _ = record {
  decision = reapprove;
  checkpoint_status = resolved;
  summary = fresh_approval_required;
}

transition_decided :
    (linked : Option Uuid) (state : RecoveryApprovalState)
    → is_transition state ≡ true
    → evaluate_recovery_decision (transition_request linked state) ≡ ok (transition_outcome state)
unfolding evaluate_recovery_decision classify_recovery_decision recovery_decision_summary
transition_decided linked state h = ground arith

transition_filled :
    (state : RecoveryApprovalState) (reason_code : Text)
    → is_transition state ≡ true
    → is_blank reason_code ≡ false
    → (is_blank (codes "approval") || is_blank reason_code || is_blank (transition_summary state))
      ≡ false
unfolding transition_summary is_blank
transition_filled pending reason_code h b = rw b
transition_filled expired reason_code h b = rw b
transition_filled invalidated reason_code h b = rw b
transition_filled missing_required reason_code h b = rw b
transition_filled not_required reason_code h b = cc
transition_filled approved_fresh reason_code h b = cc
transition_filled rejected reason_code h b = cc

-- When a request leaves the approved path (it is pending, expired, invalidated or missing), recovery
-- succeeds for fresh ids and a reason code that is not blank. It adds one checkpoint, closed at the
-- given time, and one diagnostic, each with its given id, and changes no other; the checkpoint names
-- the request, a pending request is deferred, and any other transition requires a fresh approval.
pub recover_approval_request_transition_lem :
    (clock : Instant) (linked : Option Uuid) (checkpoint_id diagnostic_id : Uuid)
    (request : ApprovalRequestRecord) (state : RecoveryApprovalState) (now : Instant)
    (reason_code : Text) (s : RecoveryStore)
    → is_transition state ≡ true
    → is_blank reason_code ≡ false
    → IsFreshCheckpoint checkpoint_id s
    → IsFreshDiagnostic diagnostic_id s
    → let (result, after) =
        recover_approval_request_transition clock linked checkpoint_id diagnostic_id request state
          now reason_code s in
      (outcome : RecoveryTriggerOutcome) × (result ≡ ok outcome)
      × (outcome.decision ≡ transition_outcome state)
      × (outcome.checkpoint.status ≡ resolved)
      × (outcome.checkpoint.approval_request_id ≡ some request.approval_request_id)
      × (outcome.checkpoint.resolved_at ≡ some now)
      × (outcome.checkpoint.recovery_checkpoint_id ≡ checkpoint_id)
      × (outcome.diagnostic.operational_diagnostic_id ≡ diagnostic_id)
      × (after.checkpoints ≡ outcome.checkpoint ∷ s.checkpoints)
      × (after.diagnostics ≡ outcome.diagnostic ∷ s.diagnostics)
unfolding recover_approval_request_transition
recover_approval_request_transition_lem clock linked checkpoint_id diagnostic_id request state now
      reason_code s moves filled fresh fresh_d =
    let c = transition_checkpoint linked checkpoint_id request in
    let d = transition_diagnostic diagnostic_id request state reason_code in
    let r = transition_request linked state in
    let o = transition_outcome state in
    let shut : is_open o.checkpoint_status ≡ false = ground arith in
    let e =
      issue_recovery_trigger_lem clock c r d now s o refl fresh
        (transition_decided linked state moves) shut
        (transition_filled state reason_code moves filled) fresh_d in
    let row = closed clock c r d now s o in
    let status : row.status ≡ resolved = ground (arith, ==_refl checkpoint_id) in
    let at : row.resolved_at ≡ some now = ground (arith, ==_refl checkpoint_id) in
    let about : row.approval_request_id ≡ some request.approval_request_id =
      ground (arith, ==_refl checkpoint_id) in
    let id : row.recovery_checkpoint_id ≡ checkpoint_id = ground (arith, ==_refl checkpoint_id) in
    rw moves (
      record { checkpoint = row; decision = o; diagnostic = stored clock d },
      ap (λ t. t.0) e,
      refl,
      status,
      about,
      at,
      id,
      refl,
      ap (λ t. t.1.checkpoints) e,
      ap (λ t. t.1.diagnostics) e,
    )
