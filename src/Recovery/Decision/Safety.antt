-- ===== src/Recovery/Decision/Safety.antt =====
-- What the recovery decision guarantees.
use blue_lagoon.Base.{
  Bool-cases, inl, inr, pos, refl, ◌≡◌, ◌≢◌, ◌⊎◌, ◌↔◌, true, false, ok, err, arith,
}
use blue_lagoon.Recovery.Decision.{
  continue, retry, abandon, ambiguous_or_nonrepeatable, durable_completed, corrupted, not_required,
  approved_fresh, recheck_failed, integrity_or_policy_block, open_status, is_negative,
  checkpoint_status_for_decision, RecoveryDecisionRequest, RecoveryDecisionOutcome, budget_negative,
  cannot_continue, abandoned, classify_recovery_decision, evaluate_recovery_decision,
  budget_exhausted, recovery_decision_summary,
}

-- Nothing forbids to go on with the work.
pub record IsCleared (request : RecoveryDecisionRequest) : Type 0 where
  pub budget : request.recovery_budget_remaining ≢ pos 0
  pub evidence : request.evidence_state ≢ corrupted
  pub policy : request.policy_state ≢ recheck_failed
  pub reason : request.reason_code ≢ integrity_or_policy_block
  pub approval : (request.approval_state ≡ not_required) ⊎ (request.approval_state ≡ approved_fresh)

-- Work goes on, by `continue` or `retry`, exactly when nothing forbids it, the approval is fresh or
-- not required, and the work is known to be complete or may be repeated. So an action that may have
-- had its effect and cannot be repeated is never run again.
pub runs_on_iff :
    (request : RecoveryDecisionRequest)
    → ((classify_recovery_decision request ≡ continue)
        ⊎ (classify_recovery_decision request ≡ retry))
      ↔ (IsCleared request
          × ((request.evidence_state ≡ durable_completed)
              ⊎ (request.action_classification ≢ ambiguous_or_nonrepeatable)))
unfolding classify_recovery_decision
runs_on_iff request = (λ h. ground arith, λ h. ground arith)

-- A negative budget is refused. For any other budget there is an outcome: its checkpoint is never
-- left open, it is abandoned exactly when the decision is, the summary of an exhausted budget is
-- given exactly when the budget is zero, and the fallback summary is never given.
pub evaluate_recovery_decision_total :
    (request : RecoveryDecisionRequest)
    → ((is_negative request.recovery_budget_remaining ≡ true)
        × (evaluate_recovery_decision request ≡ err budget_negative))
      ⊎ ((outcome : RecoveryDecisionOutcome) × (is_negative request.recovery_budget_remaining
            ≡ false)
          × (evaluate_recovery_decision request ≡ ok outcome)
          × (outcome.decision ≡ classify_recovery_decision request)
          × (outcome.checkpoint_status ≢ open_status)
          × ((outcome.checkpoint_status ≡ abandoned) ↔ (outcome.decision ≡ abandon))
          × ((outcome.summary ≡ budget_exhausted) ↔ (request.recovery_budget_remaining ≡ pos 0))
          × (outcome.summary ≢ cannot_continue))
unfolding evaluate_recovery_decision classify_recovery_decision recovery_decision_summary
evaluate_recovery_decision_total request =
    elim (Bool-cases (is_negative request.recovery_budget_remaining)) [
      | inl negative ↦ inl (negative, ground (arith, negative))
      | inr enough ↦ inr (
        record {
          decision = classify_recovery_decision request;
          checkpoint_status = checkpoint_status_for_decision (classify_recovery_decision request);
          summary = recovery_decision_summary request (classify_recovery_decision request);
        },
        enough,
        ground (arith, enough),
        refl,
        λ h. ground (arith, enough),
        (λ h. ground (arith, enough), λ h. ground (arith, enough)),
        (λ h. ground (arith, enough), λ h. ground (arith, enough)),
        λ h. ground (arith, enough),
      )
    ]
